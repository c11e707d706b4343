-- ===== src/Types.antt =====
-- internal/types/types.go: tiers, routing rules, replicas, and the choice of a tier. A tier is named
-- by a text. A score is a float64, `N`.
pub mod Tiers
pub mod Rules
pub mod Select
pub mod Priority
pub mod Bucket
use prompt_response.Common.{
  ℕ, Bool, true, false, not, ◌&&◌, ◌||◌, String, List, [], ◌∷◌, Option, none, some, if◌then◌else◌,
  str_eq, codes, ltb, Float, ℤ, pos, negsuc, ltb_ℤ, leb_ℤ, eqb_ℤ, contains, equal_fold,
}

abbrev pub ModelTier : Type 0
ModelTier = String

abbrev pub tier_small : ModelTier
tier_small = "small"

unfoldable pub valid_tier : ModelTier → Bool
valid_tier t =
    str_eq t tier_small
    || (str_eq t "code" || (str_eq t "medium" || (str_eq t "large" || str_eq t "reasoning")))

pub record RoutingRule (N : Type 0) : Type 0 where
  pub min_score : Option N
  pub max_score : Option N
  pub min_reasoning : Option N
  pub max_reasoning : Option N
  pub min_domain : Option N
  pub max_domain : Option N
  pub min_creativity : Option N
  pub max_creativity : Option N
  pub min_constraint : Option N
  pub max_constraint : Option N
  pub task_types : List String

pub record TierRouting (N : Type 0) : Type 0 where
  pub rules : List (RoutingRule N)
  pub task_types : List String
  pub code_signals : Bool
  pub fallback : Bool

pub record ClassifierResult (N : Type 0) : Type 0 where
  pub task_type : String
  pub score : N
  pub reasoning : N
  pub domain : N
  pub creativity : N
  pub constraint : N
  pub text : String

pub record TierConfig (N : Type 0) : Type 0 where
  pub name : ModelTier
  pub priority : ℤ
  pub max_size : ℕ
  pub is_code : Bool
  pub is_reasoning : Bool
  pub routing : TierRouting N

pub record Replica (N : Type 0) : Type 0 where
  pub id : String
  pub url : String
  pub model : String
  pub tier : ModelTier
  pub tier_cfg : TierConfig N
  pub param_size : ℕ

-- Times are nanoseconds.
pub record ConvState : Type 0 where
  pub tier : ModelTier
  pub model : String
  pub bucket : String
  pub turns : ℕ
  pub updated_at : ℕ

unfoldable pub matches_task_type : List String → String → Bool
matches_task_type [] actual = false
matches_task_type (t ∷ ts) actual = equal_fold t actual || matches_task_type ts actual

has_any : List ℕ → List String → Bool
has_any text [] = false
has_any text (p ∷ ps) = contains text (codes p) || has_any text ps

abbrev pub code_patterns : List String
code_patterns = "```" ∷ "def " ∷ "class " ∷ "function " ∷ "func " ∷ "import " ∷ "package " ∷ []

unfoldable pub has_code_in_text : String → Bool
unfolding has_any
has_code_in_text text = if str_eq text "" then false else has_any (codes text) code_patterns

abbrev pub is_empty : List String → Bool
is_empty [] = true
is_empty (t ∷ ts) = false

module _ {N : Type 0} ⦃F : Float N⦄ where
  -- `min != nil && x < *min`, and `max != nil && x >= *max`.
  unfoldable pub under_min : N → Option N → Bool
  under_min x none = false
  under_min x (some lo) = F.lt x lo

  unfoldable pub at_max : N → Option N → Bool
  at_max x none = false
  at_max x (some hi) = F.le hi x

  unfoldable pub rule_matches : RoutingRule N → ClassifierResult N → Bool
  rule_matches rule r =
      if not (is_empty rule.task_types) && not (matches_task_type rule.task_types r.task_type)
      then false
      else if under_min r.score rule.min_score
      then false
      else if at_max r.score rule.max_score
      then false
      else if under_min r.reasoning rule.min_reasoning
      then false
      else if at_max r.reasoning rule.max_reasoning
      then false
      else if under_min r.domain rule.min_domain
      then false
      else if at_max r.domain rule.max_domain
      then false
      else if under_min r.creativity rule.min_creativity
      then false
      else if at_max r.creativity rule.max_creativity
      then false
      else if under_min r.constraint rule.min_constraint
      then false
      else if at_max r.constraint rule.max_constraint
      then false
      else true

  unfoldable pub any_rule : List (RoutingRule N) → ClassifierResult N → Bool
  any_rule [] r = false
  any_rule (rule ∷ rules) r = if rule_matches rule r then true else any_rule rules r

  unfoldable pub tier_matches : TierRouting N → ClassifierResult N → Bool
  tier_matches routing r =
      if matches_task_type routing.task_types r.task_type
      then true
      else if routing.code_signals && has_code_in_text r.text && F.lt r.score (F.ratio 60 100)
      then true
      else any_rule routing.rules r

  unfoldable pub score_bucket : N → String
  score_bucket score =
      if F.lt score (F.ratio 15 100)
      then "b0"
      else if F.lt score (F.ratio 35 100)
      then "b1"
      else if F.lt score (F.ratio 55 100)
      then "b2"
      else if F.lt score (F.ratio 75 100)
      then "b3"
      else "b4"
