-- ===== src/Circuit/Breaker/Sound.antt =====
-- No call of a breaker panics on a valid window, and each leaves it valid.
use prompt_response.Common.{
  ℕ, ◌*◌, Option, some, ◌>>=◌, if◌then◌else◌, Float, ◌≡◌, refl, sym, ap, ◌+◌, ◌==◌, subst, arith,
}
use prompt_response.Circuit.Window.{num_buckets}
use prompt_response.Circuit.Window.View.{IsValid}
use prompt_response.Circuit.Window.Refine.{record_refines, totals_refines, new-IsValid}
use prompt_response.Circuit.Breaker.{
  Breaker, State, closed, opened, half_open, allow, allow_in, state_now, state_in, close_if_probing,
  fail_in, trip, record_success, record_failure, error_rate, rate_of,
}

-- A step on a breaker succeeds and leaves it with a valid window.
abbrev pub Keeps : {N : Type 0} → Option (Breaker N) → Type 0
Keeps {N} m = (b : Breaker N) × (m ≡ some b) × IsValid b.window

module _ {N : Type 0} where
  pub allow-IsValid : (b : Breaker N) (now : ℕ) → IsValid b.window → IsValid (allow b now).1.window
  unfolding allow allow_in
  allow-IsValid b now v = subst IsValid (sym (same b.state b)) v
    where
      same : (s : State) (b : Breaker N) → (allow_in s b now).1.window ≡ b.window
      same closed b = refl
      same opened b = ground arith
      same half_open b = refl

  pub state_now-IsValid :
      (b : Breaker N) (now : ℕ) → IsValid b.window → IsValid (state_now b now).1.window
  unfolding state_now state_in
  state_now-IsValid b now v = subst IsValid (sym (same b.state b)) v
    where
      same : (s : State) (b : Breaker N) → (state_in s b now).1.window ≡ b.window
      same closed b = refl
      same opened b = ground arith
      same half_open b = refl

  close-IsValid :
      (s : State) (b : Breaker N) (now : ℕ)
      → IsValid b.window
      → IsValid (close_if_probing s b now).window
  unfolding close_if_probing
  close-IsValid closed b now v = v
  close-IsValid opened b now v = v
  close-IsValid half_open b now v =
      (new-IsValid (b.window.bucket_dur * num_buckets) now (omega (arith, v.positive))).0

  pub record_success-Keeps :
      (b : Breaker N) (now : ℕ) → IsValid b.window → Keeps (record_success b now)
  unfolding record_success
  record_success-Keeps b now v =
      let (w, e, valid, hist, dur, caught) = (record_refines b.window now v).0 in
      (
        close_if_probing b.state (record b { window = w }) now,
        rw e refl,
        close-IsValid b.state (record b { window = w }) now valid,
      )

module _ {N : Type 0} ⦃F : Float N⦄ where
  fail_in-Keeps : (s : State) (b : Breaker N) (now : ℕ) → IsValid b.window → Keeps (fail_in s b now)
  unfolding fail_in trip
  fail_in-Keeps closed b now v =
      let (w, e, valid, hist, dur) = totals_refines b.window now v in
      let same : (s f : ℕ) → (trip b now (s, f, w)).window ≡ w = λ s f. ground arith in
      (_, ap (λ m. m >>= λ t. some (trip b now t)) e, subst IsValid (sym (same _ _)) valid)
  fail_in-Keeps opened b now v = (b, refl, v)
  fail_in-Keeps half_open b now v = (record b { state = opened; opened_at = now }, refl, v)

  pub record_failure-Keeps :
      (b : Breaker N) (now : ℕ) → IsValid b.window → Keeps (record_failure b now)
  unfolding record_failure
  record_failure-Keeps b now v =
      let (w, e, valid, hist, dur, caught) = (record_refines b.window now v).1 in
      rw e (fail_in-Keeps b.state (record b { window = w }) now valid)

  pub error_rate-IsValid :
      (b : Breaker N) (now : ℕ)
      → IsValid b.window
      → (r : N) × (b' : Breaker N) × (error_rate b now ≡ some (r, b')) × IsValid b'.window
  unfolding error_rate
  error_rate-IsValid b now v =
      let (w, e, valid, hist, dur) = totals_refines b.window now v in
      let rate = λ (s f : ℕ). if s + f == 0 then F.of_int 0 else rate_of f (s + f) in
      (
        _,
        record b { window = w },
        ap (λ m. m >>= λ (s, f, w'). some (rate s f, record b { window = w' })) e,
        valid,
      )
