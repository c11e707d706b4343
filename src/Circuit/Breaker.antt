-- ===== src/Circuit/Breaker.antt =====
-- internal/circuit/breaker.go, `Breaker`: the state machine over a sliding window. The clock's
-- reading is an argument of each method; the mutex makes each call one step. `none` is a panic.
pub mod Trip
pub mod Sound
pub mod Schedule
use prompt_response.Common.{
  ℕ, ◌+◌, ◌-◌, ◌*◌, Bool, true, false, Option, none, some, leb, ◌==◌, if◌then◌else◌, ◌>>=◌, String,
  Float,
}
use prompt_response.Circuit.Window.{SlidingWindow, new_sliding_window, num_buckets, totals}
use prompt_response.Circuit.Window

pub data State : Type 0 where
  closed opened half_open : State

-- `State.String`; the type has no other values in the program.
unfoldable pub state_string : State → String
state_string closed = "closed"
state_string opened = "open"
state_string half_open = "half_open"

pub record Breaker (N : Type 0) : Type 0 where
  pub state : State
  pub window : SlidingWindow
  pub opened_at : ℕ
  pub cooldown : ℕ
  pub threshold : N
  pub min_samples : ℕ

-- A new breaker's `openedAt` is Go's zero time.
unfoldable pub new_breaker : {N : Type 0} → N → ℕ → ℕ → ℕ → ℕ → Breaker N
new_breaker threshold window_size cooldown min_samples now = record {
  state = closed;
  window = new_sliding_window window_size now;
  opened_at = 0;
  cooldown = cooldown;
  threshold = threshold;
  min_samples = min_samples;
}

module _ {N : Type 0} where
  allow_in : State → Breaker N → ℕ → Bool × Breaker N
  allow_in closed b now = (true, b)
  allow_in opened b now =
      if leb b.cooldown (now - b.opened_at)
      then (true, record b { state = half_open })
      else (false, b)
  allow_in half_open b now = (false, b)

  unfoldable pub allow : Breaker N → ℕ → Bool × Breaker N
  unfolding allow_in
  allow b now = allow_in b.state b now

  close_if_probing : State → Breaker N → ℕ → Breaker N
  close_if_probing half_open b now = record b {
    state = closed;
    window = new_sliding_window (b.window.bucket_dur * num_buckets) now;
  }
  close_if_probing _ b now = b

  unfoldable pub record_success : Breaker N → ℕ → Option (Breaker N)
  unfolding close_if_probing
  record_success b now = Window.record_success b.window now >>= λ w.
      some (close_if_probing b.state (record b { window = w }) now)

  state_in : State → Breaker N → ℕ → State × Breaker N
  state_in opened b now =
      if leb b.cooldown (now - b.opened_at)
      then (half_open, record b { state = half_open })
      else (opened, b)
  state_in s b now = (s, b)

  -- The method `State`.
  unfoldable pub state_now : Breaker N → ℕ → State × Breaker N
  unfolding state_in
  state_now b now = state_in b.state b now

module _ {N : Type 0} ⦃F : Float N⦄ where
  rate_of : ℕ → ℕ → N
  rate_of failures total = F.div (F.of_int failures) (F.of_int total)

  -- The `case StateClosed` of `RecordFailure`, on the totals of the window.
  trip : Breaker N → ℕ → ℕ × ℕ × SlidingWindow → Breaker N
  unfolding rate_of
  trip b now (successes, failures, w) =
      let b' = record b { window = w } in
      if leb b.min_samples (successes + failures)
      then if F.le b.threshold (rate_of failures (successes + failures))
        then record b' { state = opened; opened_at = now }
        else b'
      else b'

  fail_in : State → Breaker N → ℕ → Option (Breaker N)
  unfolding trip
  fail_in closed b now = totals b.window now >>= λ t. some (trip b now t)
  fail_in half_open b now = some (record b { state = opened; opened_at = now })
  fail_in opened b now = some b

  unfoldable pub record_failure : Breaker N → ℕ → Option (Breaker N)
  unfolding fail_in
  record_failure b now =
      Window.record_failure b.window now >>= λ w. fail_in b.state (record b { window = w }) now

  unfoldable pub error_rate : Breaker N → ℕ → Option (N × Breaker N)
  unfolding rate_of
  error_rate b now = totals b.window now >>= λ (s, f, w).
      some (if s + f == 0 then F.of_int 0 else rate_of f (s + f), record b { window = w })
