-- ===== src/Types/Select.antt =====
-- `TierForClassification` against a plain description: the first tier by priority, fallback tiers
-- aside, that matches the result, or else the fallback tier.
use prompt_response.Common.{
  Bool, true, false, List, [], ◌∷◌, Option, none, some, if◌then◌else◌, Float, ◌≡◌, refl, sym, ap,
  ◌∙◌, arith, All, str_eq, str_eq_iff, Bool-cases, inl, inr,
}
use prompt_response.Types.{ModelTier, TierRouting, Replica, ClassifierResult, tier_matches}
use prompt_response.Types.Tiers.{
  seen_before, first_match, first_fallback, largest_tier, tier_for_classification, or_else,
}

module _ {N : Type 0} ⦃F : Float N⦄ where
  abbrev pub explicit_by : ClassifierResult N → TierRouting N → Bool
  explicit_by result routing = if routing.fallback then false else tier_matches routing result

  -- The replica's tier is not a fallback tier, and matches.
  abbrev pub is_explicit : ClassifierResult N → Replica N → Bool
  is_explicit result rep = explicit_by result rep.tier_cfg.routing

  abbrev pub first_explicit : ClassifierResult N → List (Replica N) → Option ModelTier
  first_explicit result [] = none
  first_explicit result (rep ∷ reps) =
      if is_explicit result rep then some rep.tier_cfg.name else first_explicit result reps

  -- Every replica has the routing that belongs to its tier's name.
  abbrev pub Agrees : (ModelTier → TierRouting N) → List (Replica N) → Type 0
  Agrees routing_of reps = All (λ rep. rep.tier_cfg.routing ≡ routing_of rep.tier_cfg.name) reps

  -- The tiers that were seen did not match.
  abbrev Rejected : (ModelTier → TierRouting N) → ClassifierResult N → List ModelTier → Type 0
  Rejected routing_of result seen = All (λ name. explicit_by result (routing_of name) ≡ false) seen

  seen-Rejected :
      (routing_of : ModelTier → TierRouting N) (result : ClassifierResult N) (seen : List ModelTier)
      (name : ModelTier)
      → Rejected routing_of result seen
      → seen_before seen name ≡ true
      → explicit_by result (routing_of name) ≡ false
  unfolding seen_before
  seen-Rejected routing_of result [] name r h = cc h
  seen-Rejected routing_of result (s ∷ seen) name r h = elim (Bool-cases (str_eq s name)) [
    | inl same ↦ rw (← (str_eq_iff s name).0 same) r.0
    | inr other ↦ seen-Rejected routing_of result seen name r.1 (rw other at h)
  ]

  first_match-eq :
      (routing_of : ModelTier → TierRouting N) (result : ClassifierResult N)
      (reps : List (Replica N)) (seen : List ModelTier)
      → Agrees routing_of reps
      → Rejected routing_of result seen
      → first_match seen reps result ≡ first_explicit result reps
  unfolding first_match
  first_match-eq routing_of result [] seen a r = refl
  first_match-eq routing_of result (rep ∷ reps) seen a r =
      elim (Bool-cases (is_explicit result rep)) [
        | inl explicit ↦ elim (Bool-cases (seen_before seen rep.tier_cfg.name)) [
          | inl old ↦
              let rejected = seen-Rejected routing_of result seen rep.tier_cfg.name r old in
              cc (explicit, rejected, ap (explicit_by result) a.0)
          | inr new ↦ ground arith
        ]
        | inr other ↦
            let skip = first_match-eq routing_of result reps seen a.1 r in
            let rest =
              first_match-eq routing_of result reps (rep.tier_cfg.name ∷ seen) a.1
                (sym (ap (explicit_by result) a.0) ∙ other, r) in
            ground (arith, skip, rest)
      ]

  -- Where replicas of one tier name share one routing, `TierForClassification` returns the name of
  -- the first tier in the list that is not a fallback and matches the result; if there is none, the
  -- first fallback tier; and only without one the largest tier.
  pub tier_for_classification_lem :
      (routing_of : ModelTier → TierRouting N) (result : ClassifierResult N)
      (reps : List (Replica N))
      → Agrees routing_of reps
      → tier_for_classification reps result
        ≡ or_else (first_explicit result reps) (or_else (first_fallback reps) (largest_tier reps))
  unfolding tier_for_classification
  tier_for_classification_lem routing_of result reps a =
      ap (λ t. or_else t (or_else (first_fallback reps) (largest_tier reps)))
        (first_match-eq routing_of result reps [] a tt)
