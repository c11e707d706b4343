-- ===== src/Types/Rules.antt =====
-- A routing rule is the conjunction of its conditions, and a tier matches by any one of its own.
use prompt_response.Common.{
  Bool, true, false, not, ◌&&◌, ◌||◌, List, [], ◌∷◌, Option, Float, ◌≡◌, refl, arith,
}
use prompt_response.Types.{
  RoutingRule, TierRouting, ClassifierResult, is_empty, matches_task_type, has_code_in_text,
  under_min, at_max, rule_matches, any_rule, tier_matches,
}

-- The signals of a result, each with the bounds that a rule sets for it.
abbrev pub bounds :
    {N : Type 0} → RoutingRule N → ClassifierResult N → List (N × Option N × Option N)
bounds rule r =
    (r.score, rule.min_score, rule.max_score)
    ∷ (r.reasoning, rule.min_reasoning, rule.max_reasoning)
    ∷ (r.domain, rule.min_domain, rule.max_domain)
    ∷ (r.creativity, rule.min_creativity, rule.max_creativity)
    ∷ (r.constraint, rule.min_constraint, rule.max_constraint)
    ∷ []

module _ {N : Type 0} ⦃F : Float N⦄ where
  -- No signal is under its minimum, and none has reached its maximum.
  abbrev pub all_within : List (N × Option N × Option N) → Bool
  all_within [] = true
  all_within ((x, lo, hi) ∷ bs) = not (under_min x lo) && (not (at_max x hi) && all_within bs)

  abbrev pub some_rule : List (RoutingRule N) → ClassifierResult N → Bool
  some_rule [] r = false
  some_rule (rule ∷ rules) r = rule_matches rule r || some_rule rules r

  -- A rule matches exactly if its task types, where it has any, include the result's, and every
  -- signal is within the bounds that are set.
  rule_matches_lem :
      (rule : RoutingRule N) (r : ClassifierResult N)
      → rule_matches rule r ≡ (
          (is_empty rule.task_types || matches_task_type rule.task_types r.task_type)
          && all_within (bounds rule r))
  unfolding rule_matches
  rule_matches_lem rule r = ground arith

  any_rule_lem :
      (rules : List (RoutingRule N)) (r : ClassifierResult N) → any_rule rules r ≡ some_rule rules r
  unfolding any_rule
  any_rule_lem [] r = refl
  any_rule_lem (rule ∷ rules) r = ground (arith, any_rule_lem rules r)

  -- A tier matches exactly if its task types include the result's, or it looks for code and the text
  -- of a low enough score has some, or one of its rules matches.
  tier_matches_lem :
      (routing : TierRouting N) (r : ClassifierResult N)
      → tier_matches routing r ≡ (
          matches_task_type routing.task_types r.task_type
          || ((routing.code_signals && (has_code_in_text r.text && F.lt r.score (F.ratio 60 100)))
              || some_rule routing.rules r))
  unfolding tier_matches
  tier_matches_lem routing r = ground (arith, any_rule_lem routing.rules r)
