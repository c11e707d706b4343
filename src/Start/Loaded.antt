-- ===== src/Start/Loaded.antt =====
-- A configuration that loads, to the records of the requests that reach its handler.
use prompt_response.Common.{
  ℕ, ◌<◌, ◌≤◌, ◌≡◌, ◌⊎◌, inl, inr, refl, sym, ap, ◌∙◌, subst, Bool, true, false, String, List, [],
  ◌∷◌, map, reverse, take, min, Option, none, some, if◌then◌else◌, Float, All, length,
  length-replicate, pos_part, some-back, bind-back, length-replicate,
}
use prompt_response.Store.{Store}
use prompt_response.Audit.{Trail, Record, new_trail, record_in, record_all, recent}
use prompt_response.Audit.Newest.{recent_newest}
use prompt_response.Usage.{Tracker, get}
use prompt_response.Usage.Totals.{Event, own, entry_of, record_events, get-record_events}
use prompt_response.Usage.Sink.{BatchSink}
use prompt_response.Config.{Config}
use prompt_response.Config.Check.{Problem, validate}
use prompt_response.Config.Defaults.{apply_defaults}
use prompt_response.Config.Defaults.Settings.{IsPositive, apply_defaults_lem}
use prompt_response.Config.Replicas.Routed.{validate-routes}
use prompt_response.Proxy.Serve.{Outside, Router, Request, Meets, Reply, blank_record, put_audit}
use prompt_response.Proxy.Serve.Wired.{Clocked, IsReady, IsMap}
use prompt_response.Start.{load, checked, start_handler, start_router, serve_all}
use prompt_response.Start.Served.{
  IsReply, decision_of, record_each, count_each, decisions, charges, charge_of, serve_all_lem,
}

module _ {N : Type 0} ⦃F : Float N⦄ where
  -- The trail holds the records: the page of the newest `n` has as many of them as there are, as are
  -- asked for and as fit, the newest first. There is no trail when it is not enabled.
  abbrev pub Shows : Config N → Option (Trail (Record N)) → List (Record N) → Type 0
  Shows cfg none recs = cfg.audit_enabled ≡ false
  Shows cfg (some t) recs =
      (n : ℕ) → recent blank_record t n ≡ take (min n (pos_part cfg.audit_buffer)) (reverse recs)

  -- The tracker has for each tenant the sums over its events. There is none when it is not enabled.
  abbrev pub Totals : Config N → Option Tracker → List Event → Type 0
  Totals cfg none events = cfg.usage_enabled ≡ false
  Totals cfg (some t) events = (tenant : String) → get t tenant ≡ entry_of (own tenant events)

  checked-back :
      (cfg cfg' : Config N) (v : Option Problem)
      → checked cfg v ≡ inr cfg'
      → (cfg' ≡ cfg) × (v ≡ none)
  unfolding checked
  checked-back cfg cfg' none e = (cc e, refl)
  checked-back cfg cfg' (some p) e = cc e

  load-back :
      (raw cfg : Config N)
      → load raw ≡ inr cfg
      → (cfg ≡ apply_defaults raw) × (validate (apply_defaults raw) ≡ none)
  unfolding load
  load-back raw cfg e = checked-back (apply_defaults raw) cfg (validate (apply_defaults raw)) e

  record_each-none : (recs : List (Record N)) → record_each none recs ≡ some none
  unfolding put_audit
  record_each-none [] = refl
  record_each-none (r ∷ rs) = record_each-none rs

  record_each-record_all :
      (recs : List (Record N)) (t t' : Trail (Record N))
      → record_all blank_record t recs ≡ some t'
      → record_each (some t) recs ≡ some (some t')
  unfolding put_audit record_all
  record_each-record_all [] t t' e = ap some e
  record_each-record_all (r ∷ rs) t t' e =
      let (u, done, rest) =
        bind-back (record_in blank_record t r) (λ u. record_all blank_record u rs) t' e in
      rw done (record_each-record_all rs u t' rest)

  new_trail-Shows :
      (cfg : Config N) (recs : List (Record N)) (trail : Option (Trail (Record N)))
      → IsPositive cfg.audit_buffer
      → record_each (some (new_trail blank_record (pos_part cfg.audit_buffer))) recs ≡ some trail
      → Shows cfg trail recs
  new_trail-Shows cfg recs trail positive e =
      let size = pos_part cfg.audit_buffer in
      let (t, done, newest) = recent_newest blank_record size 0 recs positive in
      let this : some t ≡ trail = some-back (sym (record_each-record_all recs _ t done) ∙ e) in
      subst (λ u. Shows cfg u recs) this
        (λ n.
          let (u, done', newest') = recent_newest blank_record size n recs positive in
          let same : u ≡ t = some-back (sym done' ∙ done) in
          subst (λ v. recent blank_record v n ≡ take (min n size) (reverse recs)) same newest')

  start-Shows :
      (cfg : Config N) (recs : List (Record N)) (trail : Option (Trail (Record N)))
      → (cfg.audit_enabled ≡ false) ⊎ IsPositive cfg.audit_buffer
      → (on : Bool) → cfg.audit_enabled ≡ on
      → record_each
          (if on then some (new_trail blank_record (pos_part cfg.audit_buffer)) else none)
          recs
        ≡ some trail
      → Shows cfg trail recs
  start-Shows cfg recs trail ok false off e =
      subst (λ t. Shows cfg t recs) (some-back (sym (record_each-none recs) ∙ e)) off
  start-Shows cfg recs trail (inl off) true on e = absurd (cc (sym on ∙ off))
  start-Shows cfg recs trail (inr positive) true on e = new_trail-Shows cfg recs trail positive e

  start-IsReady :
      (cfg : Config N)
      → (cfg.audit_enabled ≡ false) ⊎ IsPositive cfg.audit_buffer
      → (on : Bool) → cfg.audit_enabled ≡ on
      → IsReady
          (if on then some (new_trail (blank_record {N = N}) (pos_part cfg.audit_buffer)) else none)
  unfolding new_trail
  start-IsReady cfg ok false off = tt
  start-IsReady cfg (inl off) true on = absurd (cc (sym on ∙ off))
  start-IsReady cfg (inr positive) true on =
      subst (λ l. 0 < l) (sym (length-replicate (pos_part cfg.audit_buffer) blank_record)) positive

count_each-record_events :
    (events : List Event) (t : Tracker) → count_each (some t) events ≡ some (record_events t events)
unfolding record_events
count_each-record_events [] t = refl
count_each-record_events (e ∷ es) t = count_each-record_events es _

count_each-none : (events : List Event) → count_each none events ≡ none
count_each-none [] = refl
count_each-none (e ∷ es) = count_each-none es

module _ {N : Type 0} ⦃F : Float N⦄ where
  start-Totals :
      (cfg : Config N) (events : List Event) (on : Bool)
      → cfg.usage_enabled ≡ on
      → Totals cfg (count_each (if on then some [] else none) events) events
  start-Totals cfg events false off =
      subst (λ t. Totals cfg t events) (sym (count_each-none events)) off
  start-Totals cfg events true on =
      subst (λ t. Totals cfg t events) (sym (count_each-record_events events []))
        (λ tenant. get-record_events events tenant)

module _ {N S B V : Type 0} ⦃F : Float N⦄ (size_of : String → ℕ) (number : N → V)
    (out : Outside B V) (store : Store S) where
  -- The handler that `main` builds from a configuration that `Load` accepts, with a circuit window of
  -- at least ten nanoseconds: whatever requests the chain of handlers before it passes on, one after
  -- another, and whatever they meet, if no request's body is read as a nil map, none of them panics and
  -- each has a reply; a refusal of the handler has the status 400, 405 or 503 and a relayed response
  -- one below 500. The trail, if it is enabled, shows the newest of the decisions, as many as are asked
  -- for and as fit: exactly one for each 503 and each relayed response, in their order, with their id,
  -- tenant and status. And the tracker, if it is enabled, has for each tenant the sums over one event
  -- for each relayed response, with the estimated tokens of the request's prompt and the output tokens
  -- of the stream.
  pub serve_all-load :
      (raw cfg : Config N) (clock : ℕ → ℕ) (sink : Option BatchSink) (first : S)
      → load raw ≡ inr cfg
      → (long : 10 ≤ pos_part cfg.circuit.window_size) → (asked : List (Request B × Meets N B))
      → All (λ (a : Request B × Meets N B). IsMap out a.0) asked
      → (replies : List (Reply N)) × (s : Router N S (Clocked N)) × (serve_all out
            (start_handler size_of number store cfg)
            (start_router first clock sink cfg long)
            asked
          ≡ some (replies, s))
        × (length replies ≡ length asked)
        × All IsReply replies
        × ((recs : List (Record N)) × (map decision_of recs ≡ decisions out asked replies)
            × Shows cfg s.audit recs)
        × ((events : List Event) × (map charge_of events ≡ charges out asked replies)
            × Totals cfg s.usage events)
  unfolding start_router start_handler
  serve_all-load raw cfg clock sink first loaded long asked maps =
      let (filled, valid) = load-back raw cfg loaded in
      let (window, samples, stall, trail, burst) = apply_defaults_lem raw valid in
      let buffer : (cfg.audit_enabled ≡ false) ⊎ IsPositive cfg.audit_buffer =
        subst (λ (c : Config N). (c.audit_enabled ≡ false) ⊎ IsPositive c.audit_buffer) (sym filled)
          trail in
      let named = (validate-routes size_of cfg (ap validate filled ∙ valid)).0 in
      let (replies, s, done, same, fine, left) =
        serve_all_lem out (start_handler size_of number store cfg) asked
          (start_router first clock sink cfg long) named
          (start-IsReady cfg buffer cfg.audit_enabled refl) maps in
      (
        replies,
        s,
        done,
        same,
        fine,
        (
          left.recs,
          left.decide,
          start-Shows cfg left.recs s.audit buffer cfg.audit_enabled refl left.recorded,
        ),
        (
          left.events,
          left.charge,
          subst (λ t. Totals cfg t left.events) (sym left.counted)
              (start-Totals cfg left.events cfg.usage_enabled refl),
        ),
      )
