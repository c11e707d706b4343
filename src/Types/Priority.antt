-- ===== src/Types/Priority.antt =====
-- Comparing tiers by priority.
use prompt_response.Common.{
  ◌≤◌, false, List, [], ◌∷◌, if◌then◌else◌, ◌≡◌, refl, arith, ◌≤ℤ◌, ltb, ltb→lt, ◌&&◌, sym, ap,
  subst, Bool-cases, inl, inr, All, some,
}
use prompt_response.Types.{ModelTier, Replica}
use prompt_response.Types.Tiers.{
  priority_of, higher_tier, is_escalation, larger_of, largest_tier, smaller_of, smallest_tier,
}

module _ {N : Type 0} where
  -- `HigherTier` returns one of its arguments, whose priority is at least that of both, the first on
  -- a tie; and it returns the first exactly if the second is no escalation from it.
  pub higher_tier_lem :
      (reps : List (Replica N)) (a b : ModelTier)
      → let t = higher_tier reps a b in
        (t ≡ (if is_escalation reps a b then b else a))
        × (priority_of reps a ≤ℤ priority_of reps t)
        × (priority_of reps b ≤ℤ priority_of reps t)
  unfolding higher_tier is_escalation
  higher_tier_lem reps a b = ground arith

  larger_of_lem :
      (reps : List (Replica N)) (r : Replica N)
      → All (λ q. q.param_size ≤ (larger_of r reps).param_size) (r ∷ reps)
  unfolding larger_of
  larger_of_lem [] r = (omega arith, tt)
  larger_of_lem (q ∷ reps) r = elim (Bool-cases (ltb r.param_size q.param_size)) [
    | inl more ↦
        let (first, rest) = larger_of_lem reps q in
        let e : larger_of r (q ∷ reps) ≡ larger_of q reps =
          ap (λ c. larger_of (if c then q else r) reps) more in
        subst (λ t. All (λ p. p.param_size ≤ t.param_size) (r ∷ (q ∷ reps))) (sym e)
          (omega (arith, first, ltb→lt r.param_size q.param_size more), (first, rest))
    | inr less ↦
        let (first, rest) = larger_of_lem reps r in
        let e : larger_of r (q ∷ reps) ≡ larger_of r reps =
          ap (λ c. larger_of (if c then q else r) reps) less in
        subst (λ t. All (λ p. p.param_size ≤ t.param_size) (r ∷ (q ∷ reps))) (sym e)
          (first, (ground (arith, first), rest))
  ]

  -- On at least one replica `LargestTier` does not panic: it returns the tier of a replica that has
  -- at least as many parameters as every other.
  largest_tier_lem :
      (r : Replica N) (reps : List (Replica N))
      → (q : Replica N) × (largest_tier (r ∷ reps) ≡ some q.tier)
        × All (λ p. p.param_size ≤ q.param_size) (r ∷ reps)
  unfolding largest_tier
  largest_tier_lem r reps = (larger_of r reps, refl, larger_of_lem reps r)

  smaller_of-unknown :
      (reps : List (Replica N)) (r : Replica N) → r.param_size ≡ 0 → smaller_of r reps ≡ r
  unfolding smaller_of
  smaller_of-unknown [] r z = refl
  smaller_of-unknown (q ∷ reps) r z =
      let keep : (ltb 0 q.param_size && ltb q.param_size r.param_size) ≡ false = ground arith in
      rw keep (smaller_of-unknown reps r z)

  -- If the size of the first replica's model is unknown, `SmallestTier` returns its tier, whatever
  -- the sizes of the others are.
  smallest_tier-unknown_first :
      (r : Replica N) (reps : List (Replica N))
      → r.param_size ≡ 0
      → smallest_tier (r ∷ reps) ≡ some r.tier
  unfolding smallest_tier
  smallest_tier-unknown_first r reps z = ap (λ q. some q.tier) (smaller_of-unknown reps r z)
