-- ===== src/Circuit/Window/Sums.antt =====
-- The totals of a window do not depend on where its ring starts.
use prompt_response.Common.{
  ℕ, zero, suc, ◌+◌, ◌-◌, ◌%◌, ◌≤◌, ◌<◌, ◌≡◌, refl, sym, ap, ◌∙◌, List, [], ◌∷◌, arith, length,
  get_or, take, take-of-length,
}
use prompt_response.Circuit.Window.{Bucket, empty_bucket, SlidingWindow, sum_buckets}
use prompt_response.Circuit.Window.View.{view, recent, IsValid}

module _ (f : Bucket → ℕ) where
  -- The bucket that a longer view adds.
  sum-view-suc :
      (bs : List Bucket) (n c i : ℕ)
      → c < 10
      → n ≤ 9
      → i ≡ (c + 10 - n) % 10
      → sum_buckets f (view bs c (suc n))
        ≡ sum_buckets f (view bs c n) + f (get_or bs i empty_bucket)
  unfolding view sum_buckets
  sum-view-suc bs zero c i hc hn e =
      let same : c ≡ i = omega arith in omega (arith, ap (λ j. f (get_or bs j empty_bucket)) same)
  sum-view-suc bs (suc n) c i hc hn e =
      omega (arith, sum-view-suc bs n ((c + 9) % 10) i (omega arith) (omega arith) (omega arith))

  sum-take-suc :
      (bs : List Bucket) (n : ℕ)
      → n < length bs
      → sum_buckets f (take (suc n) bs) ≡ sum_buckets f (take n bs) + f (get_or bs n empty_bucket)
  unfolding sum_buckets
  sum-take-suc [] n h = absurd (omega arith)
  sum-take-suc (b ∷ bs) zero h = omega arith
  sum-take-suc (b ∷ bs) (suc n) h = omega (arith, sum-take-suc bs n (omega arith))

  sum-view_upto :
      (bs : List Bucket) (c : ℕ)
      → c < 10
      → c < length bs
      → sum_buckets f (view bs c (suc c)) ≡ sum_buckets f (take (suc c) bs)
  unfolding view sum_buckets
  sum-view_upto [] zero hc h = absurd (omega arith)
  sum-view_upto (b ∷ bs) zero hc h = refl
  sum-view_upto bs (suc c) hc h =
      let back : (suc c + 9) % 10 ≡ c = omega arith in
      omega (
        arith,
        ap (λ j. sum_buckets f (view bs j (suc c))) back,
        sum-view_upto bs c (omega arith) (omega arith),
        sum-take-suc bs (suc c) h,
      )

  -- The start of the ring does not matter.
  sum-view_next :
      (bs : List Bucket) (c : ℕ)
      → c < 9
      → sum_buckets f (view bs (suc c) 10) ≡ sum_buckets f (view bs c 10)
  unfolding view sum_buckets
  sum-view_next bs c hc =
      let back : (suc c + 9) % 10 ≡ c = omega arith in
      omega (
        arith,
        ap (λ j. sum_buckets f (view bs j 9)) back,
        sum-view-suc bs 9 c (suc c) (omega arith) (omega arith) (omega arith),
      )

  sum-view_from :
      (bs : List Bucket) (k c : ℕ)
      → c + k ≡ 9
      → sum_buckets f (view bs c 10) ≡ sum_buckets f (view bs 9 10)
  sum-view_from bs zero c h =
      let e : c ≡ 9 = omega arith in ap (λ j. sum_buckets f (view bs j 10)) e
  sum-view_from bs (suc k) c h =
      sym (sum-view_next bs c (omega arith)) ∙ sum-view_from bs k (suc c) (omega arith)

  -- The loop of `totals` adds up what the window remembers.
  pub sum-recent :
      (sw : SlidingWindow) → IsValid sw → sum_buckets f sw.buckets ≡ sum_buckets f (recent sw)
  sum-recent sw v =
      ap (sum_buckets f) (sym (take-of-length 10 sw.buckets v.ten))
      ∙ sym (sum-view_upto sw.buckets 9 (omega arith) (omega arith))
      ∙ sym (sum-view_from sw.buckets (9 - sw.current) sw.current (omega arith))
