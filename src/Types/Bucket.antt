-- ===== src/Types/Bucket.antt =====
-- The bands of the complexity score.
use prompt_response.Common.{
  ℕ, ◌≤◌, Bool, true, false, if◌then◌else◌, Float, ◌≡◌, refl, arith, String, str_eq,
}
use prompt_response.Types.{score_bucket}

-- The place of a band in the order "b0" to "b4".
abbrev rank : String → ℕ
rank b =
    if str_eq b "b0"
    then 0
    else if str_eq b "b1"
    then 1
    else if str_eq b "b2"
    then 2
    else if str_eq b "b3"
    then 3
    else 4

rank_of_ladder :
    (c₁ c₂ c₃ c₄ : Bool)
    → rank
        (if c₁ then "b0" else if c₂ then "b1" else if c₃ then "b2" else if c₄ then "b3" else "b4")
      ≡ (if c₁ then 0 else if c₂ then 1 else if c₃ then 2 else if c₄ then 3 else 4)
rank_of_ladder true _ _ _ = refl
rank_of_ladder false true _ _ = refl
rank_of_ladder false false true _ = refl
rank_of_ladder false false false true = refl
rank_of_ladder false false false false = refl

module _ {N : Type 0} ⦃F : Float N⦄ where
  -- A lower score never falls in a higher band, whatever the limits of the bands are.
  score_bucket_mono : (a b : N) → F.lt a b ≡ true → rank (score_bucket a) ≤ rank (score_bucket b)
  unfolding score_bucket
  score_bucket_mono a b h =
      let below = λ (n : ℕ). F.lt_trans a b (F.ratio n 100) h in
      rw (rank_of_ladder _ _ _ _)
        (rw (rank_of_ladder _ _ _ _) (ground (arith, below 15, below 35, below 55, below 75)))
