-- ===== src/Circuit/Window/Refine.antt =====
-- A window refines a history of ten buckets, newest first: time moves the history on by whole
-- buckets, a record counts in the newest one, and the totals are those of the history.
use prompt_response.Common.{
  ℕ, zero, suc, ◌+◌, ◌-◌, ◌/◌, ◌%◌, ◌≤◌, ◌≡◌, refl, sym, ap, ap₂, ◌∙◌, List, [], ◌∷◌, ◌++◌, arith,
  get_or, take, take-take, take-of-length, replicate, Option, some, ltb, ◌==◌, if◌then◌else◌, ◌>>=◌,
  length-set, get_or-set_self, ==_iff, Bool-cases, inl, inr,
}
use prompt_response.Circuit.Window.{
  Bucket, empty_bucket, SlidingWindow, num_buckets, turn, turns, advance, sum_buckets,
  record_success, record_failure, new_sliding_window, update_current, add_success, add_failure,
  totals, successes_of, failures_of,
}
use prompt_response.Circuit.Window.Sums.{sum-recent}
use prompt_response.Circuit.Window.View.{
  view, recent, IsValid, recent-turn, turn-IsValid, length-view, view-set,
}

-- `k` bucket lengths later: that many empty buckets come in front, and ten are kept.
abbrev pub aged : ℕ → List Bucket → List Bucket
aged k h = take 10 (replicate k empty_bucket ++ h)

-- The newest bucket counts.
abbrev pub note : (Bucket → Bucket) → List Bucket → List Bucket
note f [] = []
note f (b ∷ bs) = f b ∷ bs

abbrev pub elapsed : SlidingWindow → ℕ → ℕ
elapsed sw now = (now - sw.last_time) / sw.bucket_dur

aged-turn :
    (m n k : ℕ) (h : List Bucket)
    → m ≤ suc n + k
    → take m (replicate n empty_bucket ++ (empty_bucket ∷ take k h))
      ≡ take m (empty_bucket ∷ (replicate n empty_bucket ++ h))
aged-turn zero n k h p = refl
aged-turn (suc m) zero k h p = ap (λ t. empty_bucket ∷ t) (take-take m k h (omega arith))
aged-turn (suc m) (suc n) k h p = ap (λ t. empty_bucket ∷ t) (aged-turn m n k h (omega arith))

-- `n` turns of the ring age the history by `n` buckets, and keep the rest.
turns_lem :
    (n : ℕ) (sw : SlidingWindow)
    → IsValid sw
    → IsValid (turns n sw)
      × (recent (turns n sw) ≡ aged n (recent sw))
      × ((turns n sw).bucket_dur ≡ sw.bucket_dur)
unfolding turns turn
turns_lem zero sw v =
    (v, sym (take-of-length 10 (recent sw) (length-view sw.buckets sw.current 10)), refl)
turns_lem (suc n) sw v =
    let (valid, hist, dur) = turns_lem n (turn sw) (turn-IsValid sw v) in
    (valid, hist ∙ ap (aged n) (recent-turn sw v) ∙ aged-turn 10 n 9 (recent sw) (omega arith), dur)

take-replicate :
    (m k : ℕ) (h : List Bucket)
    → m ≤ k
    → take m (replicate k empty_bucket ++ h) ≡ replicate m empty_bucket
take-replicate zero k h p = refl
take-replicate (suc m) zero h p = absurd (omega arith)
take-replicate (suc m) (suc k) h p = ap (λ t. empty_bucket ∷ t) (take-replicate m k h (omega arith))

-- What `advance` makes of a window, where it does not panic.
abbrev Advanced : SlidingWindow → ℕ → SlidingWindow → Type 0
Advanced sw k sw' =
    IsValid sw' × (recent sw' ≡ aged k (recent sw)) × (sw'.bucket_dur ≡ sw.bucket_dur)

turns_capped :
    (k now : ℕ) (sw : SlidingWindow)
    → IsValid sw
    → Advanced sw k
        (record (turns (if ltb num_buckets k then num_buckets else k) sw) { last_time = now })
turns_capped k now sw v = elim (Bool-cases (ltb 10 k)) [
  | inl more ↦ rw more (
      let (valid, hist, dur) = turns_lem 10 sw v in
      (
        record { ten = valid.ten; in_ring = valid.in_ring; positive = valid.positive },
        hist
            ∙ take-replicate 10 10 (recent sw) (omega arith)
            ∙ sym (take-replicate 10 k (recent sw) (ground arith)),
        dur,
      ))
  | inr few ↦ rw few (
      let (valid, hist, dur) = turns_lem k sw v in
      (record { ten = valid.ten; in_ring = valid.in_ring; positive = valid.positive }, hist, dur))
]

-- On a valid window `advance` does not panic: it ages the history by the whole bucket lengths that
-- have passed since the last turn, keeps the window valid and leaves no whole length to catch up.
pub advance_refines :
    (sw : SlidingWindow) (now : ℕ)
    → IsValid sw
    → (sw' : SlidingWindow) × (advance sw now ≡ some sw')
      × IsValid sw'
      × (recent sw' ≡ aged (elapsed sw now) (recent sw))
      × (sw'.bucket_dur ≡ sw.bucket_dur)
      × (elapsed sw' now ≡ 0)
unfolding advance
advance_refines sw now v = elim (Bool-cases (elapsed sw now == 0)) [
  | inl none_passed ↦ (
    sw,
    ground arith,
    v,
    sym (take-of-length 10 (recent sw) (length-view sw.buckets sw.current 10))
        ∙ ap (λ k. aged k (recent sw)) (sym ((==_iff _ _).0 none_passed)),
    refl,
    (==_iff _ _).0 none_passed,
  )
  | inr passed ↦
      let k = elapsed sw now in
      let (valid, hist, dur) = turns_capped k now sw v in
      (
        record (turns (if ltb num_buckets k then num_buckets else k) sw) { last_time = now },
        ground arith,
        valid,
        hist,
        dur,
        omega arith,
      )
]

update_refines :
    (f : Bucket → Bucket) (sw : SlidingWindow)
    → IsValid sw
    → IsValid (update_current f sw) × (recent (update_current f sw) ≡ note f (recent sw))
unfolding view
update_refines f sw v =
    let new = f (get_or sw.buckets sw.current empty_bucket) in
    (
      record {
        ten = length-set sw.buckets sw.current new ∙ v.ten;
        in_ring = v.in_ring;
        positive = v.positive;
      },
      ap₂ ◌∷◌
          (get_or-set_self sw.buckets sw.current new empty_bucket (omega (arith, v.ten, v.in_ring)))
          (view-set sw.buckets new 9 1 ((sw.current + 9) % 10) sw.current (omega arith)
            (omega arith) (omega arith) (omega (arith, v.in_ring))),
    )

-- What a window is after a record that applies `f` to the newest bucket.
abbrev pub Recorded : (Bucket → Bucket) → SlidingWindow → ℕ → Option SlidingWindow → Type 0
Recorded f sw now out =
    (sw' : SlidingWindow) × (out ≡ some sw')
    × IsValid sw'
    × (recent sw' ≡ note f (aged (elapsed sw now) (recent sw)))
    × (sw'.bucket_dur ≡ sw.bucket_dur)
    × (elapsed sw' now ≡ 0)

Recorded-by :
    (f : Bucket → Bucket) (sw : SlidingWindow) (now : ℕ)
    → IsValid sw
    → Recorded f sw now (advance sw now >>= λ sw'. some (update_current f sw'))
Recorded-by f sw now v =
    let (sw', e, valid, hist, dur, caught) = advance_refines sw now v in
    let (valid', hist') = update_refines f sw' valid in
    (update_current f sw', rw e, valid', hist' ∙ ap (note f) hist, dur, caught)

-- On a valid window, recording a success or a failure does not panic: it moves the history on to
-- the present, adds one to the newest bucket's count of that kind and changes nothing else in it.
pub record_refines :
    (sw : SlidingWindow) (now : ℕ)
    → IsValid sw
    → Recorded add_success sw now (record_success sw now)
      × Recorded add_failure sw now (record_failure sw now)
unfolding record_success record_failure
record_refines sw now v = (Recorded-by add_success sw now v, Recorded-by add_failure sw now v)

-- On a valid window `totals` does not panic: it returns the sums over the history moved on to the
-- present, and leaves the window holding that history.
pub totals_refines :
    (sw : SlidingWindow) (now : ℕ)
    → IsValid sw
    → let h = aged (elapsed sw now) (recent sw) in
      (sw' : SlidingWindow) × (totals sw now
        ≡ some (sum_buckets successes_of h, sum_buckets failures_of h, sw'))
      × IsValid sw'
      × (recent sw' ≡ h)
      × (sw'.bucket_dur ≡ sw.bucket_dur)
unfolding totals
totals_refines sw now v =
    let (sw', e, valid, hist, dur, caught) = advance_refines sw now v in
    (
      sw',
      rw e (
          ap₂ (λ s f. some (s, f, sw'))
            (sum-recent successes_of sw' valid ∙ ap (sum_buckets successes_of) hist)
            (sum-recent failures_of sw' valid ∙ ap (sum_buckets failures_of) hist)),
      valid,
      hist,
      dur,
    )

-- A new window whose size is at least ten nanoseconds is valid and remembers nothing.
pub new-IsValid :
    (size now : ℕ)
    → 10 ≤ size
    → IsValid (new_sliding_window size now)
      × (recent (new_sliding_window size now) ≡ replicate 10 empty_bucket)
unfolding new_sliding_window view
new-IsValid size now h =
    (record { ten = refl; in_ring = omega arith; positive = omega arith }, refl)

-- A window with no whole bucket length to catch up has the totals of the history it holds.
pub totals_caught_up :
    (sw : SlidingWindow) (now : ℕ)
    → IsValid sw
    → elapsed sw now ≡ 0
    → (sw' : SlidingWindow) × (totals sw now
        ≡ some (sum_buckets successes_of (recent sw), sum_buckets failures_of (recent sw), sw'))
      × IsValid sw'
      × (recent sw' ≡ recent sw)
totals_caught_up sw now v still =
    let (sw', e, valid, hist, dur) = totals_refines sw now v in
    let same : aged (elapsed sw now) (recent sw) ≡ recent sw =
      ap (λ k. aged k (recent sw)) still
      ∙ take-of-length 10 (recent sw) (length-view sw.buckets sw.current 10) in
    (
      sw',
      e ∙ ap (λ h. some (sum_buckets successes_of h, sum_buckets failures_of h, sw')) same,
      valid,
      hist ∙ same,
    )
