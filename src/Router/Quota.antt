-- ===== src/Router/Quota.antt =====
-- How many requests of a tenant reach the proxy through the chain of handlers.
use prompt_response.Common.{
  ℕ, ◌+◌, ◌-◌, ◌*◌, ◌≤◌, ◌≡◌, refl, ap, ◌∙◌, subst, Bool, false, String, List, [], ◌∷◌, map, Option,
  some, if◌then◌else◌, str_eq, str_eq_iff, str_eq_refl, string_eq, arith, Bool-cases, inl, inr,
}
use prompt_response.Auth.{
  KeyEntry, Keystore, Verdict, pass, pass_as, key_required, invalid_key, new_keystore,
}
use prompt_response.Auth.Keys.{verdict_of}
use prompt_response.RateLimit.{unit, Config, Registry, allow, new_registry, get_or_create}
use prompt_response.RateLimit.Bounds.{Runs, until-le}
use prompt_response.RateLimit.Budget.{Touched, budget, IsPast, Touched-budget, new-budget}
use prompt_response.Router.{Request, Reply, handled, Server, serve}
use prompt_response.Router.Order.{auth_request, serve-new_keystore}

-- A request, the random bytes that were read for its id, and its time.
pub record Arrival : Type 0 where
  pub request : Request
  pub random : Option (List ℕ)
  pub at : ℕ

-- The verdict is this tenant.
abbrev pub is_for : String → Verdict → Bool
is_for tenant (pass_as t) = str_eq t tenant
is_for tenant _ = false

-- The proxy was called.
abbrev pub reached : {A : Type 0} → Reply A → ℕ
reached (handled a) = 1
reached _ = 0

module _ (es : List KeyEntry) (tenant : String) where
  abbrev pub gained : {A : Type 0} → Arrival → Reply A → ℕ
  gained a reply =
      if is_for tenant (verdict_of es (auth_request a.request)) then reached reply else 0

  -- How many of the tenant's requests reached the proxy.
  abbrev pub admitted : {A : Type 0} → List Arrival → List (Reply A) → ℕ
  admitted [] replies = 0
  admitted (a ∷ rest) [] = 0
  admitted (a ∷ rest) (reply ∷ replies) = gained a reply + admitted rest replies

module _ {S A : Type 0} (split_host_port : String → Option String) (decimal : ℕ → List ℕ)
    (proxy : S → List ℕ → Option String → A × S) where
  -- The chain with these requests, one after another.
  unfoldable pub serve_each : Option Keystore → Server S → List Arrival → List (Reply A) × Server S
  serve_each ks s [] = ([], s)
  serve_each ks s (a ∷ rest) =
      let (reply, s') = serve split_host_port decimal proxy ks s a.random a.request a.at in
      let (replies, s'') = serve_each ks s' rest in (reply ∷ replies, s'')

  module _ (es : List KeyEntry) (tenant : String) (s : Server S) (reg : Registry) (a : Arrival)
      (on : s.limiter ≡ some reg) where
    abbrev answer : Reply A × Server S
    answer = serve split_host_port decimal proxy (some (new_keystore es)) s a.random a.request a.at

    abbrev Goes : Type 0
    Goes =
        (reg' : Registry) × (answer.1.limiter ≡ some reg')
        × Touched tenant a.at reg reg' (gained es tenant a answer.0)

    goes_own : verdict_of es (auth_request a.request) ≡ pass_as tenant → Goes
    goes_own e =
        let (probe, bad, tenants) =
          serve-new_keystore split_host_port decimal proxy es s reg a.random a.request a.at on in
        let (reg', limiter, buckets, permits, refuses) = tenants tenant e in
        let asked : (later : ℕ)
            → get_or_create reg' tenant later ≡ (allow (get_or_create reg tenant a.at) a.at).2 =
          λ later. buckets tenant later ∙ rw (str_eq_refl tenant) refl in
        let own : gained es tenant a answer.0 ≡ reached answer.0 =
          rw (e, str_eq_refl tenant) refl in
        elim (Bool-cases (allow (get_or_create reg tenant a.at) a.at).0) [
          | inl ok ↦ (reg', limiter, inr (own ∙ ap reached (permits ok).0 ∙ rw ok refl, asked))
          | inr no_token ↦
              let (x, y, z, refused, same) = refuses no_token in
              (reg', limiter, inr (own ∙ ap reached refused ∙ rw no_token refl, asked))
        ]

    goes_as : (v : Verdict) → verdict_of es (auth_request a.request) ≡ v → Goes
    goes_as pass e =
        let (probe, bad, tenants) =
          serve-new_keystore split_host_port decimal proxy es s reg a.random a.request a.at on in
        (reg, (probe e).1, inl (rw e refl, λ later. refl))
    goes_as key_required e =
        let (probe, bad, tenants) =
          serve-new_keystore split_host_port decimal proxy es s reg a.random a.request a.at on in
        (reg, (bad (inl e)).1, inl (rw e refl, λ later. refl))
    goes_as invalid_key e =
        let (probe, bad, tenants) =
          serve-new_keystore split_host_port decimal proxy es s reg a.random a.request a.at on in
        (reg, (bad (inr e)).1, inl (rw e refl, λ later. refl))
    goes_as (pass_as t) e = elim (Bool-cases (str_eq t tenant)) [
      | inl same ↦ goes_own (e ∙ ap pass_as ((str_eq_iff t tenant).0 same))
      | inr other ↦
          let (probe, bad, tenants) =
            serve-new_keystore split_host_port decimal proxy es s reg a.random a.request a.at on in
          let (reg', limiter, buckets, permits, refuses) = tenants t e in
          (reg', limiter, inl (rw (e, other) refl, λ later. buckets tenant later ∙ rw other refl))
    ]

  -- The requests, from a state of the limiter.
  serve_each-budget :
      (es : List KeyEntry) (tenant : String) (rest : List Arrival) (until now : ℕ) (s : Server S)
      (reg : Registry)
      → s.limiter ≡ some reg
      → Runs now (map (λ (a : Arrival). a.at) rest) until
      → IsPast tenant now reg
      → admitted es tenant rest (serve_each (some (new_keystore es)) s rest).0 * unit
        ≤ budget tenant until now reg
  unfolding serve_each
  serve_each-budget es tenant [] until now s reg on runs past = omega arith
  serve_each-budget es tenant (a ∷ rest) until now s reg on runs past =
      let (reply, s') =
        serve split_host_port decimal proxy (some (new_keystore es)) s a.random a.request a.at in
      let (reg', on', touched) = goes_as es tenant s reg a on _ refl in
      let (spent, past') =
        Touched-budget tenant until now a.at (gained es tenant a reply) reg reg' runs.0
          (until-le a.at until (map (λ (a : Arrival). a.at) rest) runs.1) past touched in
      omega (arith, spent, serve_each-budget es tenant rest until a.at s' reg' on' runs.1 past')

  -- With authentication over the configured keys and a new limiter, whatever the proxy does and
  -- whoever else asks: the requests of a tenant that reach the proxy in a time, counted in parts of a
  -- token, are at most the burst and what the steady rate adds. The clock does not go back.
  pub serve_each_bounded :
      (es : List KeyEntry) (cfg : Config) (tenant : String) (arrivals : List Arrival)
      (from until counter : ℕ) (first : S)
      → Runs from (map (λ (a : Arrival). a.at) arrivals) until
      → let s : Server S = record {
        limiter = some (new_registry cfg);
        fallback_counter = counter;
        proxy = first;
      } in
        let (replies, s') = serve_each (some (new_keystore es)) s arrivals in
        admitted es tenant arrivals replies * unit
        ≤ cfg.burst * unit + (until - from) * cfg.requests_per_minute
  serve_each_bounded es cfg tenant arrivals from until counter first runs =
      let (full, past) = new-budget tenant cfg from until in
      let s : Server S = record {
        limiter = some (new_registry cfg);
        fallback_counter = counter;
        proxy = first;
      } in
      subst
        (λ n.
          admitted es tenant arrivals (serve_each (some (new_keystore es)) s arrivals).0 * unit ≤ n)
        full (serve_each-budget es tenant arrivals until from s (new_registry cfg) refl runs past)
