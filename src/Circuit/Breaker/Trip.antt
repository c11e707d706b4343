-- ===== src/Circuit/Breaker/Trip.antt =====
-- What a recorded outcome does to a breaker: when a closed one opens, and how a probe settles a
-- half-open one.
use prompt_response.Common.{
  ℕ, ◌+◌, ◌*◌, ◌≤◌, ◌≡◌, refl, sym, ap, subst, ◌∙◌, Bool, true, Option, some, leb, List,
  if◌then◌else◌, ◌&&◌, Float, replicate, arith,
}
use prompt_response.Circuit.Window.{
  Bucket, empty_bucket, SlidingWindow, num_buckets, new_sliding_window, sum_buckets, successes_of,
  failures_of, add_failure,
}
use prompt_response.Circuit.Window.View.{recent, IsValid}
use prompt_response.Circuit.Window.Refine.{
  aged, note, elapsed, record_refines, totals_caught_up, new-IsValid,
}
use prompt_response.Circuit.Breaker.{
  closed, opened, half_open, Breaker, trip, fail_in, record_failure, record_success, allow,
}

-- The history of a breaker's window at a time, with one more failure in its newest bucket.
abbrev pub with_failure : {N : Type 0} → Breaker N → ℕ → List Bucket
with_failure b now = note add_failure (aged (elapsed b.window now) (recent b.window))

module _ {N : Type 0} ⦃F : Float N⦄ where
  -- The condition on a history under which a closed breaker opens.
  abbrev pub trips : Breaker N → List Bucket → Bool
  trips b h =
      let s = sum_buckets successes_of h in
      let f = sum_buckets failures_of h in
      leb b.min_samples (s + f) && F.le b.threshold (F.div (F.of_int f) (F.of_int (s + f)))

  -- A closed breaker has counted a failure, which leaves it with the history `h`: it is open from
  -- that time on exactly if `h` trips it.
  abbrev pub Counted : Breaker N → ℕ → List Bucket → Option (Breaker N) → Type 0
  Counted b now h out =
      (b' : Breaker N) × (out ≡ some b')
      × IsValid b'.window
      × (recent b'.window ≡ h)
      × (b'.state ≡ (if trips b h then opened else closed))
      × (b'.opened_at ≡ (if trips b h then now else b.opened_at))

  trip_lem :
      (b : Breaker N) (now : ℕ) (h : List Bucket) (w : SlidingWindow)
      → b.state ≡ closed
      → let b' = trip b now (sum_buckets successes_of h, sum_buckets failures_of h, w) in
        (b'.window ≡ w)
        × (b'.state ≡ (if trips b h then opened else closed))
        × (b'.opened_at ≡ (if trips b h then now else b.opened_at))
  unfolding trip
  trip_lem b now h w st = ground arith

  -- A failure recorded on a closed breaker with a valid window does not panic. It is counted, and
  -- the breaker then opens, at that time, exactly if the window has the minimum of samples and the
  -- error rate has reached the threshold; otherwise it stays closed.
  pub record_failure-closed :
      (b : Breaker N) (now : ℕ)
      → b.state ≡ closed
      → IsValid b.window
      → Counted b now (with_failure b now) (record_failure b now)
  unfolding record_failure
  record_failure-closed b now st v =
      let (w, e, valid, hist, dur, caught) = (record_refines b.window now v).1 in
      let (w', e', valid', hist') = totals_caught_up w now valid caught in
      let b' : Breaker N =
        trip (record b { window = w }) now
          (sum_buckets successes_of (recent w), sum_buckets failures_of (recent w), w') in
      let (in_window, in_state, at) = trip_lem (record b { window = w }) now (recent w) w' st in
      subst (λ h. Counted b now h (record_failure b now)) hist
        (
          b',
          rw (e, st, fail_in) (rw e'),
          subst IsValid (sym in_window) valid',
          ap recent in_window ∙ hist',
          in_state,
          at,
        )

  -- A failure recorded on a half-open breaker with a valid window opens it again, and the cooldown
  -- starts at that time.
  record_failure-half_open :
      (b : Breaker N) (now : ℕ)
      → b.state ≡ half_open
      → IsValid b.window
      → (b' : Breaker N) × (record_failure b now ≡ some b')
        × IsValid b'.window
        × (b'.state ≡ opened)
        × (b'.opened_at ≡ now)
        × (b'.cooldown ≡ b.cooldown)
  unfolding record_failure
  record_failure-half_open b now st v =
      let (w, e, valid, hist, dur, caught) = (record_refines b.window now v).1 in
      (
        record b { window = w; state = opened; opened_at = now },
        rw (e, st, fail_in),
        valid,
        refl,
        refl,
        refl,
      )

module _ {N : Type 0} where
  pub allow-late :
      (b : Breaker N) (now : ℕ)
      → b.state ≡ opened
      → b.opened_at + b.cooldown ≤ now
      → allow b now ≡ (true, record b { state = half_open })
  unfolding allow
  allow-late b now st late = ground arith

  -- After the cooldown an open breaker with a valid window admits one request, and a success
  -- recorded for it closes the breaker, at no panic, with a valid window that remembers nothing.
  pub probe_recovers :
      (b : Breaker N) (asked now : ℕ)
      → b.state ≡ opened
      → IsValid b.window
      → b.opened_at + b.cooldown ≤ asked
      → ((allow b asked).0 ≡ true)
        × (b' : Breaker N) × (record_success (allow b asked).1 now ≡ some b')
        × (b'.state ≡ closed)
        × IsValid b'.window
        × (recent b'.window ≡ replicate num_buckets empty_bucket)
  unfolding record_success
  probe_recovers b asked now st v late =
      let (w, e, valid, hist, dur, caught) = (record_refines b.window now v).0 in
      let size = w.bucket_dur * num_buckets in
      let (fresh, nothing) = new-IsValid size now (omega (arith, valid.positive)) in
      (
        rw (allow-late b asked st late),
        record b { state = closed; window = new_sliding_window size now },
        rw (allow-late b asked st late) (rw e),
        refl,
        fresh,
        nothing,
      )
