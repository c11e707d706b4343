-- ===== src/Tests/Circuits.antt =====
-- Concrete breakers, windows and registries.
use prompt_response.Common.{
  ℕ, ◌≡◌, refl, true, List, [], ◌∷◌, ◌++◌, some, ℤ, pos, arith, replicate, All,
}
use prompt_response.Tests.Num.{milli}
use prompt_response.Circuit.Window.{
  Bucket, empty_bucket, SlidingWindow, record_success, record_failure, add_success, add_failure,
  num_buckets,
}
use prompt_response.Circuit.Window.View.{recent, IsValid}
use prompt_response.Circuit.Window.Refine.{Recorded, record_refines}
use prompt_response.Circuit.Breaker.{State, closed, opened, half_open, Breaker, allow}
use prompt_response.Circuit.Breaker
use prompt_response.Circuit.Breaker.Trip.{
  Counted, with_failure, record_failure-closed, probe_recovers,
}
use prompt_response.Circuit.Breaker.Schedule.{
  Call, ask, look, rate, succeed, fail, Refuses, run, Within, IsQuery, cooldown_holds, one_probe,
  state_query_takes_probe,
}
use prompt_response.Circuit.Registry.{Registry}

-- Ten buckets of ten nanoseconds, with some requests in the newest two.
abbrev window : SlidingWindow
window = record {
  buckets =
      record { successes = 3; failures = 1 }
      ∷ record { successes = 0; failures = 2 }
      ∷ replicate 8 empty_bucket;
  bucket_dur = 10;
  current = 1;
  last_time = 100;
}

window-IsValid : IsValid window
window-IsValid = record { ten = refl; in_ring = omega arith; positive = omega arith }

-- A breaker that trips at an error rate of a half over at least four requests.
abbrev in_state : State → Breaker ℤ
in_state s = record {
  state = s;
  window = window;
  opened_at = 100;
  cooldown = 50;
  threshold = pos 500;
  min_samples = 4;
}

abbrev calls_in_cooldown : List (Call × ℕ)
calls_in_cooldown =
    (ask, 100) ∷ (fail, 105) ∷ (look, 110) ∷ (succeed, 120) ∷ (rate, 130) ∷ (ask, 149) ∷ []

abbrev later_queries : List (Call × ℕ)
later_queries = (ask, 150) ∷ (look, 160) ∷ (rate, 200) ∷ (ask, 100000) ∷ []

calls_in_cooldown-Within : All (Within 100 50) calls_in_cooldown
calls_in_cooldown-Within = (
  (omega arith, omega arith),
  (
    (omega arith, omega arith),
    (
      (omega arith, omega arith),
      ((omega arith, omega arith), ((omega arith, omega arith), ((omega arith, omega arith), tt))),
    ),
  ),
)

later_queries-IsQuery : All IsQuery later_queries
later_queries-IsQuery = (refl, (refl, (refl, (refl, tt))))

cooldown_holds_example :
    Refuses
      (λ (b : Breaker ℤ). (b.state ≡ opened) × (b.opened_at ≡ 100))
      (run (in_state opened) calls_in_cooldown)
cooldown_holds_example =
    cooldown_holds (in_state opened) calls_in_cooldown refl window-IsValid calls_in_cooldown-Within

one_probe_example :
    ((allow (in_state opened) 150).0 ≡ true)
    × Refuses
        (λ (b : Breaker ℤ). b.state ≡ half_open)
        (run (allow (in_state opened) 150).1 later_queries)
one_probe_example =
    one_probe (in_state opened) 150 later_queries refl window-IsValid (omega arith)
      later_queries-IsQuery

state_query_takes_probe_example :
    Refuses
      (λ (b : Breaker ℤ). b.state ≡ half_open)
      (run (in_state opened) ((look, 155) ∷ later_queries))
state_query_takes_probe_example =
    state_query_takes_probe (in_state opened) 155 later_queries refl window-IsValid (omega arith)
      later_queries-IsQuery

record_failure-closed_example :
    Counted
      (in_state closed)
      105
      (with_failure (in_state closed) 105)
      (Breaker.record_failure (in_state closed) 105)
record_failure-closed_example = record_failure-closed (in_state closed) 105 refl window-IsValid

probe_recovers_example :
    ((allow (in_state opened) 150).0 ≡ true)
    × (b : Breaker ℤ) × (Breaker.record_success (allow (in_state opened) 150).1 170 ≡ some b)
    × (b.state ≡ closed)
    × IsValid b.window
    × (recent b.window ≡ replicate num_buckets empty_bucket)
probe_recovers_example = probe_recovers (in_state opened) 150 170 refl window-IsValid (omega arith)

record_refines_example :
    Recorded add_success window 125 (record_success window 125)
    × Recorded add_failure window 125 (record_failure window 125)
record_refines_example = record_refines window 125 window-IsValid

abbrev registry : Registry ℤ
registry = record {
  breakers = ("r1", in_state opened) ∷ [];
  threshold = pos 500;
  window_size = 100;
  cooldown = 50;
  min_samples = 4;
}

-- What the breaker of `r1` is after an outcome at 160: still open, with the outcome counted.
abbrev after : Bucket → Breaker ℤ
after newest = record (in_state opened) {
  window = record window {
    buckets =
        record { successes = 3; failures = 1 }
        ∷ record { successes = 0; failures = 2 }
        ∷ (replicate 5 empty_bucket ++ (newest ∷ (replicate 2 empty_bucket)));
    current = 7;
    last_time = 160;
  };
}
