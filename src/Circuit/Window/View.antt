-- ===== src/Circuit/Window/View.antt =====
-- The ten buckets of a window read backwards in time from the current one, and how one turn of the
-- ring and one write change that reading.
use prompt_response.Common.{
  ℕ, zero, suc, ◌+◌, ◌%◌, ◌≤◌, ◌<◌, ◌≡◌, refl, sym, ap, ap₂, ◌∙◌, List, [], ◌∷◌, arith, length,
  length-set, set, get_or, get_or-set_self, get_or-set_ne, take,
}
use prompt_response.Circuit.Window.{Bucket, empty_bucket, SlidingWindow, num_buckets, turn}

-- `n` buckets from index `c` on, going back round the ring.
unfoldable pub view : List Bucket → ℕ → ℕ → List Bucket
view bs c zero = []
view bs c (suc n) = get_or bs c empty_bucket ∷ view bs ((c + 9) % 10) n

-- What a window remembers, newest bucket first.
abbrev pub recent : SlidingWindow → List Bucket
recent sw = view sw.buckets sw.current num_buckets

pub record IsValid (sw : SlidingWindow) : Type 0 where
  pub ten : length sw.buckets ≡ 10
  pub in_ring : sw.current < 10
  pub positive : 0 < sw.bucket_dur

-- A write ahead of the part that is read does not show.
pub view-set :
    (bs : List Bucket) (v : Bucket) (n d h i : ℕ)
    → h < 10
    → 0 < d
    → n + d ≤ 10
    → i ≡ (h + d) % 10
    → view (set bs i v) h n ≡ view bs h n
unfolding view
view-set bs v zero d h i hh hd hn e = refl
view-set bs v (suc n) d h i hh hd hn e = ap₂ ◌∷◌ (get_or-set_ne bs v empty_bucket (omega arith)) (
    view-set bs v n (d + 1) ((h + 9) % 10) i (omega arith) (omega arith) (omega arith)
      (omega arith))

-- A write at the front shows there alone.
pub view-set_front :
    (bs : List Bucket) (v : Bucket) (n c i : ℕ)
    → length bs ≡ 10
    → c < 10
    → n ≤ 9
    → i ≡ (c + 1) % 10
    → view (set bs i v) i (suc n) ≡ v ∷ view bs c n
unfolding view
view-set_front bs v n c i ten hc hn e =
    ap₂ ◌∷◌ (get_or-set_self bs i v empty_bucket (omega arith)) (
      ap (λ j. view (set bs i v) j n) back ∙ view-set bs v n 1 c i hc (omega arith) (omega arith) e)
  where
    back : (i + 9) % 10 ≡ c
    back = omega arith

pub length-view : (bs : List Bucket) (c n : ℕ) → length (view bs c n) ≡ n
unfolding view
length-view bs c zero = refl
length-view bs c (suc n) = ap suc (length-view bs ((c + 9) % 10) n)

pub take-view : (bs : List Bucket) (c n k : ℕ) → n ≤ k → take n (view bs c k) ≡ view bs c n
unfolding view
take-view bs c zero k h = refl
take-view bs c (suc n) zero h = absurd (omega arith)
take-view bs c (suc n) (suc k) h =
    ap (λ t. get_or bs c empty_bucket ∷ t) (take-view bs ((c + 9) % 10) n k (omega arith))

-- One turn puts an empty bucket in front, and the oldest one is gone.
pub recent-turn :
    (sw : SlidingWindow) → IsValid sw → recent (turn sw) ≡ empty_bucket ∷ take 9 (recent sw)
unfolding turn
recent-turn sw v =
    view-set_front sw.buckets empty_bucket 9 sw.current ((sw.current + 1) % 10) v.ten v.in_ring
      (omega arith) refl
    ∙ ap (λ t. empty_bucket ∷ t) (sym (take-view sw.buckets sw.current 9 10 (omega arith)))

pub turn-IsValid : (sw : SlidingWindow) → IsValid sw → IsValid (turn sw)
unfolding turn
turn-IsValid sw v = ground (arith, length-set sw.buckets ((sw.current + 1) % 10) empty_bucket)
