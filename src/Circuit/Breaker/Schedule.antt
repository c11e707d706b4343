-- ===== src/Circuit/Breaker/Schedule.antt =====
-- Breakers under sequences of calls, each with the clock's reading at its turn.
use prompt_response.Common.{
  ℕ, ◌+◌, ◌-◌, ◌≤◌, ◌<◌, ◌≡◌, refl, Bool, true, false, Option, some, List, [], ◌∷◌, ◌++◌, ◌==◌,
  if◌then◌else◌, ◌>>=◌, Float, arith, All, All-append,
}
use prompt_response.Circuit.Window.{SlidingWindow, sum_buckets, successes_of, failures_of}
use prompt_response.Circuit.Window.View.{recent, IsValid}
use prompt_response.Circuit.Window.Refine.{aged, elapsed, record_refines, totals_refines}
use prompt_response.Circuit.Breaker.Trip.{allow-late}
use prompt_response.Circuit.Breaker.{
  opened, half_open, Breaker, allow, record_success, record_failure, state_now, error_rate, fail_in,
  rate_of, close_if_probing,
}

-- The calls on a breaker. Only `ask` (`Allow`) is answered to the request path; `look` is `State`
-- and `rate` is `ErrorRate`.
pub data Call : Type 0 where
  ask look rate succeed fail : Call

-- A query records no outcome.
abbrev pub is_query : Call → Bool
is_query ask = true
is_query look = true
is_query rate = true
is_query _ = false

-- A call between the opening and the end of the cooldown.
abbrev pub Within : ℕ → ℕ → Call × ℕ → Type 0
Within at wait (c, t) = (at ≤ t) × (t < at + wait)

-- A query, at any time.
abbrev pub IsQuery : Call × ℕ → Type 0
IsQuery (c, t) = is_query c ≡ true

module _ {N : Type 0} ⦃F : Float N⦄ where
  -- One call: the answers of `Allow` that it gives, and the breaker after it.
  unfoldable pub step : Breaker N → Call × ℕ → Option (List Bool × Breaker N)
  step b (ask, t) = let (ok, b') = allow b t in some (ok ∷ [], b')
  step b (look, t) = some ([], (state_now b t).1)
  step b (rate, t) = error_rate b t >>= λ (_, b'). some ([], b')
  step b (succeed, t) = record_success b t >>= λ b'. some ([], b')
  step b (fail, t) = record_failure b t >>= λ b'. some ([], b')

  -- A schedule of calls, and all the answers of `Allow`.
  unfoldable pub run : Breaker N → List (Call × ℕ) → Option (List Bool × Breaker N)
  run b [] = some ([], b)
  run b (c ∷ cs) = step b c >>= λ (now, b'). run b' cs >>= λ (later, b''). some (now ++ later, b'')

  -- A part of a schedule that does not panic, answers no request with yes and ends as `P` says.
  abbrev pub Refuses : (Breaker N → Type 0) → Option (List Bool × Breaker N) → Type 0
  Refuses P out =
      (answers : List Bool) × (b' : Breaker N) × (out ≡ some (answers, b'))
      × All (λ a. a ≡ false) answers
      × P b'

  -- What each admissible call keeps, a schedule of them keeps.
  run-Refuses :
      (P : Breaker N → Type 0) (Q : Call × ℕ → Type 0)
      → ((b : Breaker N) (c : Call × ℕ) → P b → Q c → Refuses P (step b c))
      → (cs : List (Call × ℕ)) (b : Breaker N) → P b
      → All Q cs
      → Refuses P (run b cs)
  unfolding run
  run-Refuses P Q keep [] b p q = ([], b, refl, tt, p)
  run-Refuses P Q keep (c ∷ cs) b p q =
      let (now, b₁, e₁, no₁, p₁) = keep b c p q.0 in
      let (later, b₂, e₂, no₂, p₂) = run-Refuses P Q keep cs b₁ p₁ q.1 in
      (now ++ later, b₂, rw e₁ (rw e₂), All-append (λ a. a ≡ false) now later no₁ no₂, p₂)

  -- An open breaker in its cooldown: it opened at `at`, and waits for `wait`.
  record Cooling (opened_at wait : ℕ) (b : Breaker N) : Type 0 where
    is_open : b.state ≡ opened
    since : b.opened_at ≡ opened_at
    waits : b.cooldown ≡ wait
    window : IsValid b.window

  -- The calls that only touch the window, on a breaker whose window is valid.
  error_rate_keeps :
      (b : Breaker N) (now : ℕ)
      → IsValid b.window
      → (r : N) × (w : SlidingWindow) × (error_rate b now ≡ some (r, record b { window = w }))
        × IsValid w
  unfolding error_rate
  error_rate_keeps b now v =
      let (w, e, valid, hist, dur) = totals_refines b.window now v in
      let h = aged (elapsed b.window now) (recent b.window) in
      let s = sum_buckets successes_of h in
      let f = sum_buckets failures_of h in
      ((if s + f == 0 then F.of_int 0 else rate_of f (s + f)), w, rw e, valid)

  record_success-open :
      (b : Breaker N) (now : ℕ)
      → b.state ≡ opened
      → IsValid b.window
      → (w : SlidingWindow) × (record_success b now ≡ some (record b { window = w })) × IsValid w
  unfolding record_success
  record_success-open b now st v =
      let (w, e, valid, hist, dur, caught) = (record_refines b.window now v).0 in
      (w, rw e (rw (st, close_if_probing)), valid)

  record_failure-open :
      (b : Breaker N) (now : ℕ)
      → b.state ≡ opened
      → IsValid b.window
      → (w : SlidingWindow) × (record_failure b now ≡ some (record b { window = w })) × IsValid w
  unfolding record_failure
  record_failure-open b now st v =
      let (w, e, valid, hist, dur, caught) = (record_refines b.window now v).1 in
      (w, rw e (rw (st, fail_in)), valid)

  allow-early :
      (b : Breaker N) (now : ℕ)
      → b.state ≡ opened
      → now - b.opened_at < b.cooldown
      → (allow b now ≡ (false, b)) × (state_now b now ≡ (opened, b))
  unfolding allow state_now
  allow-early b now st early = ground arith

  Cooling-step :
      (at wait : ℕ) (b : Breaker N) (c : Call × ℕ)
      → Cooling at wait b
      → Within at wait c
      → Refuses (Cooling at wait) (step b c)
  unfolding step
  Cooling-step at wait b (ask, t) p q =
      (false ∷ [], b, rw (allow-early b t p.is_open (omega arith)).0, (refl, tt), p)
  Cooling-step at wait b (look, t) p q =
      ([], b, rw (allow-early b t p.is_open (omega arith)).1, tt, p)
  Cooling-step at wait b (rate, t) p q =
      let (r, w, e, valid) = error_rate_keeps b t p.window in
      (
        [],
        record b { window = w },
        rw e,
        tt,
        record { is_open = p.is_open; since = p.since; waits = p.waits; window = valid },
      )
  Cooling-step at wait b (succeed, t) p q =
      let (w, e, valid) = record_success-open b t p.is_open p.window in
      (
        [],
        record b { window = w },
        rw e,
        tt,
        record { is_open = p.is_open; since = p.since; waits = p.waits; window = valid },
      )
  Cooling-step at wait b (fail, t) p q =
      let (w, e, valid) = record_failure-open b t p.is_open p.window in
      (
        [],
        record b { window = w },
        rw e,
        tt,
        record { is_open = p.is_open; since = p.since; waits = p.waits; window = valid },
      )

  -- Whatever calls an open breaker with a valid window gets between its opening and the end of its
  -- cooldown, outcomes of earlier requests included, it does not panic, refuses every request and
  -- stays open, with the same opening time.
  pub cooldown_holds :
      (b : Breaker N) (cs : List (Call × ℕ))
      → b.state ≡ opened
      → IsValid b.window
      → All (Within b.opened_at b.cooldown) cs
      → Refuses (λ b'. (b'.state ≡ opened) × (b'.opened_at ≡ b.opened_at)) (run b cs)
  cooldown_holds b cs st v within =
      let (answers, b', e, none_yes, p) =
        run-Refuses (Cooling b.opened_at b.cooldown) (Within b.opened_at b.cooldown)
          (Cooling-step b.opened_at b.cooldown) cs b
          (record { is_open = st; since = refl; waits = refl; window = v }) within in
      (answers, b', e, none_yes, (p.is_open, p.since))

  -- A half-open breaker with a valid window.
  abbrev Probing : Breaker N → Type 0
  Probing b = (b.state ≡ half_open) × IsValid b.window

  half_open_queries :
      (b : Breaker N) (now : ℕ)
      → b.state ≡ half_open
      → (allow b now ≡ (false, b)) × (state_now b now ≡ (half_open, b))
  unfolding allow state_now
  half_open_queries b now st = ground arith

  Probing-step : (b : Breaker N) (c : Call × ℕ) → Probing b → IsQuery c → Refuses Probing (step b c)
  unfolding step
  Probing-step b (ask, t) p q = (false ∷ [], b, rw (half_open_queries b t p.0).0, (refl, tt), p)
  Probing-step b (look, t) p q = ([], b, rw (half_open_queries b t p.0).1, tt, p)
  Probing-step b (rate, t) p q =
      let (r, w, e, valid) = error_rate_keeps b t p.1 in
      ([], record b { window = w }, rw e, tt, (p.0, valid))
  Probing-step b (succeed, t) p q = cc q
  Probing-step b (fail, t) p q = cc q

  half_open-Refuses :
      (b : Breaker N) (cs : List (Call × ℕ))
      → Probing b
      → All IsQuery cs
      → Refuses (λ b'. b'.state ≡ half_open) (run b cs)
  half_open-Refuses b cs p queries =
      let (answers, b', e, none_yes, p') =
        run-Refuses Probing IsQuery Probing-step cs b p queries in
      (answers, b', e, none_yes, p'.0)

  state_now-late :
      (b : Breaker N) (now : ℕ)
      → b.state ≡ opened
      → b.opened_at + b.cooldown ≤ now
      → state_now b now ≡ (half_open, record b { state = half_open })
  unfolding state_now
  state_now-late b now st late = ground arith

  -- After the cooldown an open breaker with a valid window admits the request that asks first; all
  -- that ask after it are refused, however late, until an outcome is recorded.
  pub one_probe :
      (b : Breaker N) (t : ℕ) (cs : List (Call × ℕ))
      → b.state ≡ opened
      → IsValid b.window
      → b.opened_at + b.cooldown ≤ t
      → All IsQuery cs
      → ((allow b t).0 ≡ true) × Refuses (λ b'. b'.state ≡ half_open) (run (allow b t).1 cs)
  one_probe b t cs st v late queries =
      rw (allow-late b t st late)
        (refl, half_open-Refuses (record b { state = half_open }) cs (refl, v) queries)

  -- If `State` is the first call after the cooldown of an open breaker with a valid window, then no
  -- request at all is admitted, however late it asks, as long as no outcome is recorded: the query
  -- has taken the place of the probe.
  pub state_query_takes_probe :
      (b : Breaker N) (t : ℕ) (cs : List (Call × ℕ))
      → b.state ≡ opened
      → IsValid b.window
      → b.opened_at + b.cooldown ≤ t
      → All IsQuery cs
      → Refuses (λ b'. b'.state ≡ half_open) (run b ((look, t) ∷ cs))
  unfolding run step
  state_query_takes_probe b t cs st v late queries =
      let (answers, b', e, none_yes, p) =
        half_open-Refuses (record b { state = half_open }) cs (refl, v) queries in
      (answers, b', rw (state_now-late b t st late) (rw e), none_yes, p)
