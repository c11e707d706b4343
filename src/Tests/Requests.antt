-- ===== src/Tests/Requests.antt =====
-- Concrete requests, their headers and bodies, the pages, and the stores of a router.
use prompt_response.Common.{
  ℕ, ◌≡◌, refl, true, false, String, List, [], ◌∷◌, ◌++◌, Option, some, if◌then◌else◌, codes,
  length, ℤ, pos, Table, lookup, lookup_or, string_eq,
}
use prompt_response.Tests.Num.{milli}
use prompt_response.Tests.Routing.{replica}
use prompt_response.Proxy.Pages.{handle_models}
use prompt_response.Proxy.Pages.Models.{serves, handle_models_lem}
use prompt_response.Proxy.Retry.{member}
use prompt_response.Proxy.Retry.Attempts.{Distinct}
use prompt_response.Types.{Replica}
use prompt_response.Proxy.Retry.{member}
use prompt_response.Proxy.Stream.{new_stream_interceptor}
use prompt_response.Proxy.Stream.Drain.{drain}
use prompt_response.Proxy.Stream.Fragments.{counts_of, tally_all}
use prompt_response.Proxy.Forward.{
  Header, Read, hop_by_hop, copy_headers, inject_defaults, stream_body,
}
use prompt_response.Proxy.Forward.Headers.{values_for, lookup-copy_headers}
use prompt_response.Proxy.Forward.Body.{or_else, default_of, inject_defaults-fills}
use prompt_response.Proxy.Forward.Relayed.{bytes_of, stream_body_lem}

abbrev same_name : String → String
same_name name = name

abbrev sent : Header
sent = ("Accept", "a" ∷ "b" ∷ []) ∷ ("Te", "trailers" ∷ []) ∷ ("Accept", "c" ∷ []) ∷ []

abbrev accept : String
accept = "Accept"

lookup-copy_headers_example :
    lookup_or [] accept (copy_headers same_name [] sent)
    ≡ lookup_or [] accept []
      ++ (if member hop_by_hop accept then [] else values_for same_name accept sent)
lookup-copy_headers_example = lookup-copy_headers same_name sent [] accept

-- A body is the map itself, or nil, or nothing that can be read.
abbrev Body : Type 0
Body = Option (Option (Table String ℕ))

abbrev read : Body → Option (Option (Table String ℕ))
read body = body

abbrev written : Option (Table String ℕ) → Option Body
written m = some (some m)

inject_defaults-fills_example :
    (out : Body) × (m' : Table String ℕ) × (inject_defaults read written
        (some 1)
        (some 2)
        (some (some (("presence_penalty", 7) ∷ [])))
      ≡ some out)
    × (read out ≡ some (some m'))
    × ((j : String)
        → lookup j m'
          ≡ or_else (lookup j (("presence_penalty", 7) ∷ [])) (default_of (some 1) (some 2) j))
    × (inject_defaults read written (some 1) (some 2) out ≡ some out)
inject_defaults-fills_example =
    inject_defaults-fills read written (some 1) (some 2)
      (λ m. (some (some m), m, refl, refl, λ j. refl)) (some (some (("presence_penalty", 7) ∷ [])))
      (("presence_penalty", 7) ∷ []) refl

abbrev as_content : List ℕ → Option (List (List ℕ))
as_content payload = some (payload ∷ [])

-- An event that two reads cut, and the end.
abbrev first_read : Read
first_read = record { bytes = codes "data: to"; at = 5; taken = true; ended = false }

abbrev second_read : Read
second_read = record { bytes = codes "ken" ++ (10 ∷ 10 ∷ []); at = 7; taken = true; ended = false }

abbrev last_read : Read
last_read = record {
  bytes = codes "data: [DONE]" ++ (10 ∷ 10 ∷ []);
  at = 9;
  taken = true;
  ended = true;
}

stream_body_lem_example :
    let b = bytes_of (first_read ∷ second_read ∷ last_read ∷ []) in
    counts_of
      (stream_body as_content new_stream_interceptor
        (first_read ∷ second_read ∷ last_read ∷ [])).stats
    ≡ tally_all as_content (0, 0, false) (drain (length b) b).0
stream_body_lem_example =
    stream_body_lem as_content (first_read ∷ second_read ∷ []) last_read
      ((refl, refl), ((refl, refl), tt)) refl

abbrev two : List (Replica ℤ)
two = replica "r1" "small" 7 ∷ replica "r2" "large" 70 ∷ []

handle_models_lem_example :
    Distinct (handle_models two)
    × ((model : String) → member (handle_models two) model ≡ serves two model)
handle_models_lem_example = handle_models_lem two

-- A query that asks for the newest three.
abbrev three : String → Option ℤ
three text = some (pos 3)

abbrev query : String
query = "3"
