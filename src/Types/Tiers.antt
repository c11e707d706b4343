-- ===== src/Types/Tiers.antt =====
-- internal/types/types.go, `ReplicaList`: the loops that pick a tier from the replicas, which are
-- sorted by priority.
use prompt_response.Common.{
  Bool, false, ◌&&◌, ◌||◌, List, [], ◌∷◌, Option, none, some, if◌then◌else◌, str_eq, ltb, Float, ℤ,
  negsuc, ltb_ℤ, leb_ℤ, eqb_ℤ,
}
use prompt_response.Types.{ModelTier, TierConfig, Replica, ClassifierResult, tier_matches}

unfoldable pub seen_before : List ModelTier → ModelTier → Bool
seen_before [] t = false
seen_before (s ∷ seen) t = str_eq s t || seen_before seen t

module _ {N : Type 0} ⦃F : Float N⦄ where
  -- The first loop of `TierForClassification`.
  unfoldable pub first_match :
      List ModelTier → List (Replica N) → ClassifierResult N → Option ModelTier
  unfolding seen_before
  first_match seen [] result = none
  first_match seen (rep ∷ reps) result =
      let name = rep.tier_cfg.name in
      let skip = first_match seen reps result in
      let rest = first_match (name ∷ seen) reps result in
      if seen_before seen name
      then skip
      else if rep.tier_cfg.routing.fallback
      then rest
      else if tier_matches rep.tier_cfg.routing result
      then some name
      else rest

  -- The second loop.
  unfoldable pub first_fallback : List (Replica N) → Option ModelTier
  first_fallback [] = none
  first_fallback (rep ∷ reps) =
      if rep.tier_cfg.routing.fallback then some rep.tier_cfg.name else first_fallback reps

module _ {N : Type 0} where
  unfoldable pub larger_of : Replica N → List (Replica N) → Replica N
  larger_of largest [] = largest
  larger_of largest (rep ∷ reps) =
      larger_of (if ltb largest.param_size rep.param_size then rep else largest) reps

  unfoldable pub smaller_of : Replica N → List (Replica N) → Replica N
  smaller_of smallest [] = smallest
  smaller_of smallest (rep ∷ reps) =
      smaller_of
        (if ltb 0 rep.param_size && ltb rep.param_size smallest.param_size then rep else smallest)
        reps

  -- On no replicas the index panics: `none`.
  unfoldable pub largest_tier : List (Replica N) → Option ModelTier
  unfolding larger_of
  largest_tier [] = none
  largest_tier (rep ∷ reps) = some (larger_of rep reps).tier

  unfoldable pub smallest_tier : List (Replica N) → Option ModelTier
  unfolding smaller_of
  smallest_tier [] = none
  smallest_tier (rep ∷ reps) = some (smaller_of rep reps).tier

  unfoldable pub find_cfg : (TierConfig N → Bool) → List (Replica N) → Option (TierConfig N)
  find_cfg p [] = none
  find_cfg p (rep ∷ reps) = if p rep.tier_cfg then some rep.tier_cfg else find_cfg p reps

  unfoldable pub code_tier : List (Replica N) → Option (TierConfig N)
  unfolding find_cfg
  code_tier reps = find_cfg (λ t. t.is_code) reps

  unfoldable pub reasoning_tier : List (Replica N) → Option (TierConfig N)
  unfolding find_cfg
  reasoning_tier reps = find_cfg (λ t. t.is_reasoning) reps

  unfoldable pub tier_by_name : List (Replica N) → ModelTier → Option (TierConfig N)
  unfolding find_cfg
  tier_by_name reps name = find_cfg (λ t. str_eq t.name name) reps

  unfoldable pub tier_by_priority : List (Replica N) → ℤ → Option (TierConfig N)
  unfolding find_cfg
  tier_by_priority reps priority = find_cfg (λ t. eqb_ℤ t.priority priority) reps

  unfoldable pub replicas_for_tier : List (Replica N) → ModelTier → List (Replica N)
  replicas_for_tier [] name = []
  replicas_for_tier (rep ∷ reps) name =
      let rest = replicas_for_tier reps name in if str_eq rep.tier name then rep ∷ rest else rest

  -- An unknown tier has priority -1.
  unfoldable pub priority_of : List (Replica N) → ModelTier → ℤ
  priority_of [] name = negsuc 0
  priority_of (rep ∷ reps) name =
      if str_eq rep.tier_cfg.name name then rep.tier_cfg.priority else priority_of reps name

  unfoldable pub is_escalation : List (Replica N) → ModelTier → ModelTier → Bool
  is_escalation reps current candidate =
      ltb_ℤ (priority_of reps current) (priority_of reps candidate)

  unfoldable pub higher_tier : List (Replica N) → ModelTier → ModelTier → ModelTier
  higher_tier reps a b = if leb_ℤ (priority_of reps b) (priority_of reps a) then a else b

unfoldable pub or_else : Option ModelTier → Option ModelTier → Option ModelTier
or_else (some t) other = some t
or_else none other = other

module _ {N : Type 0} ⦃F : Float N⦄ where
  unfoldable pub tier_for_classification : List (Replica N) → ClassifierResult N → Option ModelTier
  unfolding or_else
  tier_for_classification reps result =
      or_else (first_match [] reps result) (or_else (first_fallback reps) (largest_tier reps))
