-- ===== src/Tests/Starting.antt =====
-- A configuration that loads, and three requests to its handler: a completion that a replica answers, a
-- page, and a completion for which no replica is up.
use prompt_response.Common.{
  ◌+◌, ◌≤◌, ◌≡◌, ap, String, List, [], ◌∷◌, map, none, some, inr, length, All, ℤ, pos_part, arith,
}
use prompt_response.Tests.Num.{milli}
use prompt_response.Tests.Routing.{up}
use prompt_response.Tests.Serving.{outside, chat, meets}
use prompt_response.Tests.Service.{raw, raw-valid, one_size}
use prompt_response.Store.{MemoryStore, memory_store, new_memory}
use prompt_response.Audit.{Record}
use prompt_response.Usage.Totals.{Event}
use prompt_response.Config.{Config}
use prompt_response.Config.Defaults.{apply_defaults, default_circuit}
use prompt_response.Proxy.Serve.{Router, Request, Meets, Reply}
use prompt_response.Proxy.Serve.Wired.{Clocked}
use prompt_response.Start.{load, checked, start_handler, start_router, serve_all}
use prompt_response.Start.Served.{IsReply, decision_of, decisions, charges, charge_of}
use prompt_response.Start.Loaded.{Shows, Totals, serve_all-load}

abbrev cfg : Config ℤ
cfg = apply_defaults raw

raw-loads : load raw ≡ inr cfg
unfolding load checked
raw-loads = ap (checked cfg) raw-valid

raw-long : 10 ≤ pos_part cfg.circuit.window_size
unfolding apply_defaults default_circuit
raw-long = omega arith

abbrev asked : List (Request String × Meets ℤ String)
asked =
    (chat, record meets { states = λ attempt. ("small", up) ∷ [] })
    ∷ (record chat { path = "/v1/router/audit"; method = "GET" }, meets)
    ∷ (chat, meets)
    ∷ []

serve_all-load_example :
    (replies : List (Reply ℤ)) × (s : Router ℤ MemoryStore (Clocked ℤ)) × (serve_all outside
        (start_handler one_size pos_part memory_store cfg)
        (start_router new_memory (λ n. n + n) none cfg raw-long)
        asked
      ≡ some (replies, s))
    × (length replies ≡ length asked)
    × All IsReply replies
    × ((recs : List (Record ℤ)) × (map decision_of recs ≡ decisions outside asked replies)
        × Shows cfg s.audit recs)
    × ((events : List Event) × (map charge_of events ≡ charges outside asked replies)
        × Totals cfg s.usage events)
serve_all-load_example =
    serve_all-load one_size pos_part outside memory_store raw cfg (λ n. n + n) none new_memory
      raw-loads raw-long asked (λ body has e. cc e, (λ body has e. cc e, (λ body has e. cc e, tt)))
