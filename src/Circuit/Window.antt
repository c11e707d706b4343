-- ===== src/Circuit/Window.antt =====
-- internal/circuit/breaker.go, `slidingWindow`: counts in a ring of ten buckets that the clock
-- turns. Times and durations are nanoseconds. A method returns the new window, and `none` where
-- the division by `bucketDur` panics.
pub mod View
pub mod Sums
pub mod Refine
use prompt_response.Common.{
  ℕ, zero, suc, ◌+◌, ◌-◌, ◌/◌, ◌%◌, List, [], ◌∷◌, Option, none, some, ltb, ◌==◌, if◌then◌else◌,
  ◌>>=◌, set, get_or, replicate,
}

abbrev pub num_buckets : ℕ
num_buckets = 10

pub record Bucket : Type 0 where
  pub successes : ℕ
  pub failures : ℕ

abbrev pub empty_bucket : Bucket
empty_bucket = record { successes = 0; failures = 0 }

pub record SlidingWindow : Type 0 where
  pub buckets : List Bucket
  pub bucket_dur : ℕ
  pub current : ℕ
  pub last_time : ℕ

unfoldable pub new_sliding_window : ℕ → ℕ → SlidingWindow
new_sliding_window window_size now = record {
  buckets = replicate num_buckets empty_bucket;
  bucket_dur = window_size / num_buckets;
  current = 0;
  last_time = now;
}

-- One round of the loop in `advance`.
unfoldable pub turn : SlidingWindow → SlidingWindow
turn sw =
    let next = (sw.current + 1) % num_buckets in
    record sw { current = next; buckets = set sw.buckets next empty_bucket }

unfoldable pub turns : ℕ → SlidingWindow → SlidingWindow
turns zero sw = sw
turns (suc n) sw = turns n (turn sw)

unfoldable pub advance : SlidingWindow → ℕ → Option SlidingWindow
advance sw now =
    if sw.bucket_dur == 0
    then none
    else let steps = (now - sw.last_time) / sw.bucket_dur in
      if steps == 0
      then some sw
      else let steps' = if ltb num_buckets steps then num_buckets else steps in
        some (record (turns steps' sw) { last_time = now })

abbrev pub add_success : Bucket → Bucket
add_success b = record b { successes = b.successes + 1 }

abbrev pub add_failure : Bucket → Bucket
add_failure b = record b { failures = b.failures + 1 }

abbrev pub update_current : (Bucket → Bucket) → SlidingWindow → SlidingWindow
update_current f sw = record sw {
  buckets = set sw.buckets sw.current (f (get_or sw.buckets sw.current empty_bucket));
}

unfoldable pub record_success : SlidingWindow → ℕ → Option SlidingWindow
record_success sw now = advance sw now >>= λ sw'. some (update_current add_success sw')

unfoldable pub record_failure : SlidingWindow → ℕ → Option SlidingWindow
record_failure sw now = advance sw now >>= λ sw'. some (update_current add_failure sw')

-- The loop over the buckets.
unfoldable pub sum_buckets : (Bucket → ℕ) → List Bucket → ℕ
sum_buckets f [] = 0
sum_buckets f (b ∷ bs) = f b + sum_buckets f bs

abbrev pub successes_of : Bucket → ℕ
successes_of b = b.successes

abbrev pub failures_of : Bucket → ℕ
failures_of b = b.failures

unfoldable pub totals : SlidingWindow → ℕ → Option (ℕ × ℕ × SlidingWindow)
totals sw now = advance sw now >>= λ sw'.
    some (sum_buckets successes_of sw'.buckets, sum_buckets failures_of sw'.buckets, sw')
