-- ===== src/Proxy/Serve/Wired.antt =====
-- The handler over the circuit registry itself, which does not panic.
use prompt_response.Common.{
  ℕ, ◌+◌, ◌<◌, ◌≡◌, ◌≢◌, refl, sym, subst, Bool, String, List, [], ◌∷◌, Option, none, some, ◌>>=◌,
  Float, All, length, lt→ltb, Table,
}
use prompt_response.Types.{Replica}
use prompt_response.Audit.{Record, Trail, record_in}
use prompt_response.Poller
use prompt_response.Circuit.Registry
use prompt_response.Circuit.Registry.Sound.{
  IsSound, call, call-IsSound, error_rate-IsSound, state_of-IsSound, asked, succeeded, failed,
  stated,
}
use prompt_response.Scorer.Picks.{IsNamed}
use prompt_response.Proxy.Retry.{Circuit}
use prompt_response.Proxy.Retry.Attempts.{IsSome}
use prompt_response.Proxy.Forward.{inject_defaults}
use prompt_response.Proxy.Forward.Body.{inject-both, inject_defaults-nil}
use prompt_response.Proxy.Pages.{ReplicaStatus, status_rows}
use prompt_response.Proxy.Serve.{Outside, Handler, Router, Request, Meets, Reply, put_audit}
use prompt_response.Proxy.Serve.Handle.{serve_http}
use prompt_response.Proxy.Serve.Effects.{Effect, serve_http_lem}

-- A sound registry, and the readings of the clock, of which so many have been taken.
pub record Clocked (N : Type 0) : Type 0 where
  pub registry : Registry.Registry N
  pub sound : IsSound registry
  pub clock : ℕ → ℕ
  pub readings : ℕ

-- A write to the trail does not panic.
abbrev pub IsReady : {R : Type 0} → Option (Trail R) → Type 0
IsReady none = Unit
IsReady (some t) = t.head < length t.records

-- A step that succeeds, and what holds after the rest.
bind-keeps :
    {A B : Type 0} (P : B → Type 0) (m : Option A) (f : A → Option B) (a : A)
    → m ≡ some a
    → (b : B) × (f a ≡ some b) × P b
    → (b : B) × ((m >>= f) ≡ some b) × P b
bind-keeps P m f a e h = rw e h

module _ {N : Type 0} ⦃F : Float N⦄ where
  -- A call of the registry at the clock's next reading.
  after_call : Clocked N → (reg : Registry.Registry N) → IsSound reg → Clocked N
  after_call c reg s = record {
    registry = reg;
    sound = s;
    clock = c.clock;
    readings = c.readings + 1;
  }

  allow_at : Clocked N → String → Bool × Clocked N
  unfolding call after_call
  allow_at c id =
      let now = c.clock c.readings in
      let (reg, e, s) = call-IsSound c.registry (asked, id, now) c.sound in
      ((Registry.allow c.registry id now).0, after_call c reg s)

  succeed_at : Clocked N → String → Option (Clocked N)
  unfolding after_call
  succeed_at c id =
      let (reg, e, s) = call-IsSound c.registry (succeeded, id, c.clock c.readings) c.sound in
      some (after_call c reg s)

  fail_at : Clocked N → String → Option (Clocked N)
  unfolding after_call
  fail_at c id =
      let (reg, e, s) = call-IsSound c.registry (failed, id, c.clock c.readings) c.sound in
      some (after_call c reg s)

  pub observe_at : Clocked N → String → Clocked N
  unfolding after_call
  observe_at c id =
      let (reg, e, s) = call-IsSound c.registry (stated, id, c.clock c.readings) c.sound in
      after_call c reg s

  -- What the handler calls of the registry.
  abbrev pub clocked_ops : Circuit (Clocked N)
  unfolding allow_at succeed_at fail_at
  clocked_ops = record { allow = allow_at; record_success = succeed_at; record_failure = fail_at }

  pub status_rows-IsSound :
      (now : ℕ) (states : Table String (Poller.State N)) (rs : List (Replica N))
      (reg : Registry.Registry N)
      → IsSound reg
      → (res : List (ReplicaStatus N) × Registry.Registry N) × (status_rows now states rs reg
          ≡ some res)
        × IsSound res.1
  unfolding status_rows
  status_rows-IsSound now states [] reg s = (([], reg), refl, s)
  status_rows-IsSound now states (r ∷ rs) reg s =
      let (rated, e, s₁) =
        error_rate-IsSound (Registry.state_of reg r.id now).1 r.id now
          (state_of-IsSound reg r.id now s) in
      let (rest, e', s₂) = status_rows-IsSound now states rs rated.1 s₁ in
      bind-keeps (λ res. IsSound res.1) _ _ rated e
        (bind-keeps (λ res. IsSound res.1) _ _ rest e' (_, refl, s₂))

  -- The status page of a registry, by the poller's states.
  pub report_at :
      Table String (Poller.State N)
      → List (Replica N)
      → Clocked N
      → Option (List (ReplicaStatus N) × Clocked N)
  unfolding after_call
  report_at states rs c =
      let (res, e, s) = status_rows-IsSound (c.clock c.readings) states rs c.registry c.sound in
      some (res.0, after_call c res.1 s)

put_audit-IsSome :
    {N : Type 0} ⦃F : Float N⦄ (trail : Option (Trail (Record N))) (rec : Record N)
    → IsReady trail
    → IsSome (put_audit trail rec)
unfolding put_audit record_in
put_audit-IsSome none rec ready = tt
put_audit-IsSome (some t) rec ready = rw (lt→ltb t.head (length t.records) ready) tt

module _ {B V : Type 0} (unmarshal : B → Option (Option (Table String V)))
    (marshal : Option (Table String V) → Option B) (frequency presence : Option V) where
  inject-IsSome :
      (body : B) (read : Option (Option (Table String V)))
      → unmarshal body ≡ read
      → read ≢ some none
      → IsSome (inject_defaults unmarshal marshal frequency presence body)
  inject-IsSome body none e map_read =
      subst IsSome (sym ((inject_defaults-nil unmarshal marshal frequency presence body).1 e)) tt
  inject-IsSome body (some none) e map_read = absurd (map_read refl)
  inject-IsSome body (some (some m)) e map_read =
      let (m', b, done, filled, same) = inject-both unmarshal marshal frequency presence body m e in
      subst IsSome (sym done) tt

-- The request's body, if it has one, is not read as a nil map, as `null` is.
abbrev pub IsMap : {B V : Type 0} → Outside B V → Request B → Type 0
IsMap {B} out r = (body : B) → r.body ≡ some body → out.unmarshal body ≢ some none

module _ {N S B V : Type 0} ⦃F : Float N⦄ (out : Outside B V) (h : Handler N S (Clocked N) V)
    (r : Request B) (d : Meets N B) where
  -- The handler with the registry as its circuit.
  unfoldable pub wired : Handler N S (Clocked N) V
  unfolding clocked_ops observe_at report_at
  wired = record h {
    ops = clocked_ops;
    observe = observe_at;
    report = report_at (d.states 0) h.replicas;
  }

  -- Over the circuit registry, called at the clock's readings: when the replicas have ids, the head of
  -- the trail, if there is one, is in its records, and its body is not read as a nil map, then no request
  -- panics, and its reply changes the router only as `Effect` says.
  pub serve_http-wired :
      (s : Router N S (Clocked N))
      → All IsNamed h.replicas
      → IsReady s.audit
      → IsMap out r
      → (res : Reply N × Router N S (Clocked N)) × (serve_http out wired r d s ≡ some res)
        × Effect out wired r d s res
  unfolding wired succeed_at fail_at report_at
  serve_http-wired s named ready maps =
      serve_http_lem out wired r d s named (λ c id. tt) (λ c id. tt) (λ c. tt)
        (λ rec. put_audit-IsSome s.audit rec ready)
        (λ body e.
          inject-IsSome out.unmarshal out.marshal h.frequency_penalty h.presence_penalty body
            (out.unmarshal body) refl (maps body e))
