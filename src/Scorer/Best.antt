-- ===== src/Scorer/Best.antt =====
-- `Pick` against its description: of the replicas that may be used, one of the wanted tier with the
-- highest score, or else one of another tier with the highest score.
use prompt_response.Common.{
  Bool, true, not, String, List, [], ◌∷◌, if◌then◌else◌, str_eq, Float, ◌≡◌, refl, ap, ◌∙◌, inl,
  inr, arith, All, Bool-cases,
}
use prompt_response.Types.{ModelTier, Replica}
use prompt_response.Scorer.Maximum.{improve, best_of}
use prompt_response.Scorer.{View, score_in, usable, Choice, consider, pick_loop}

module _ {N C : Type 0} ⦃F : Float N⦄ (ask : C → String → Bool × C) where
  -- The replicas that may be used: usable ones that the checker, asked in the order of the list,
  -- allows; and the checker after that.
  unfoldable pub candidates : View N → (String → Bool) → C → List (Replica N) → List (Replica N) × C
  candidates v excluded cc [] = ([], cc)
  candidates v excluded cc (r ∷ rs) =
      let (allowed, cc') = ask cc r.id in
      let asked = candidates v excluded cc' rs in
      let skip = candidates v excluded cc rs in
      if usable v excluded r then (if allowed then r ∷ asked.0 else asked.0, asked.1) else skip

module _ {N : Type 0} ⦃F : Float N⦄ (v : View N) (tier : ModelTier) where
  abbrev pub matched : Replica N → Bool
  matched r = str_eq r.tier tier

  abbrev pub unmatched : Replica N → Bool
  unmatched r = not (str_eq r.tier tier)

  unfoldable pub choose : Choice N → List (Replica N) → Choice N
  choose c [] = c
  choose c (r ∷ rs) = choose (consider v tier c r) rs

  consider-improve :
      (c : Choice N) (r : Replica N)
      → let c' = consider v tier c r in
        ((c'.best, c'.best_score) ≡ improve (score_in v) matched (c.best, c.best_score) r)
        × ((c'.fallback, c'.fallback_score)
            ≡ improve (score_in v) unmatched (c.fallback, c.fallback_score) r)
  unfolding consider improve
  consider-improve c r = ground arith

  pub choose-best_of :
      (rs : List (Replica N)) (c : Choice N)
      → let c' = choose c rs in
        ((c'.best, c'.best_score) ≡ best_of (score_in v) matched (c.best, c.best_score) rs)
        × ((c'.fallback, c'.fallback_score)
            ≡ best_of (score_in v) unmatched (c.fallback, c.fallback_score) rs)
  unfolding choose best_of
  choose-best_of [] c = (refl, refl)
  choose-best_of (r ∷ rs) c =
      let (a, b) = choose-best_of rs (consider v tier c r) in
      let (x, y) = consider-improve c r in
      (
        a ∙ ap (λ o. best_of (score_in v) matched o rs) x,
        b ∙ ap (λ o. best_of (score_in v) unmatched o rs) y,
      )

module _ {N C : Type 0} ⦃F : Float N⦄ (ask : C → String → Bool × C) where
  pub pick_loop-choose :
      (v : View N) (tier : ModelTier) (excluded : String → Bool) (rs : List (Replica N)) (cc : C)
      (c : Choice N)
      → let (kept, end) = candidates ask v excluded cc rs in
        pick_loop ask v tier excluded cc c rs ≡ (choose v tier c kept, end)
  unfolding pick_loop candidates choose
  pick_loop-choose v tier excluded [] cc c = refl
  pick_loop-choose v tier excluded (r ∷ rs) cc c = elim (Bool-cases (usable v excluded r)) [
    | inl use_it ↦ elim (Bool-cases (ask cc r.id).0) [
      | inl allowed ↦
          rw (use_it, allowed)
            (pick_loop-choose v tier excluded rs (ask cc r.id).1 (consider v tier c r))
      | inr refused ↦ rw (use_it, refused) (pick_loop-choose v tier excluded rs (ask cc r.id).1 c)
    ]
    | inr skipped ↦ rw skipped (pick_loop-choose v tier excluded rs cc c)
  ]

  -- What holds of every replica that is usable holds of every candidate.
  pub candidates-All :
      (P : Replica N → Type 0) (v : View N) (excluded : String → Bool) (rs : List (Replica N))
      (cc : C)
      → All P rs
      → All (λ r. P r × (usable v excluded r ≡ true)) (candidates ask v excluded cc rs).0
  unfolding candidates
  candidates-All P v excluded [] cc h = tt
  candidates-All P v excluded (r ∷ rs) cc h = elim (Bool-cases (usable v excluded r)) [
    | inl use_it ↦ elim (Bool-cases (ask cc r.id).0) [
      | inl allowed ↦
          rw (use_it, allowed) ((h.0, use_it), candidates-All P v excluded rs (ask cc r.id).1 h.1)
      | inr refused ↦ rw (use_it, refused) (candidates-All P v excluded rs (ask cc r.id).1 h.1)
    ]
    | inr skipped ↦ rw skipped (candidates-All P v excluded rs cc h.1)
  ]
