-- ===== src/Config/Replicas.antt =====
-- internal/config/config.go, `ToReplicaList` and the properties of a model that it reads off its
-- name. The size in the name, which the source finds with a regular expression, is an argument.
pub mod Distinct
pub mod Routed
pub mod Order
use prompt_response.Common.{
  ℕ, Bool, true, false, ◌||◌, String, List, [], ◌∷◌, ◌++◌, if◌then◌else◌, codes, contains, map,
  to_lower, ltb, ltb_ℤ, Float,
}
use prompt_response.Types.{TierConfig, Replica}
use prompt_response.Config.{ModelTier, ReplicaConfig}

lower : String → List ℕ
lower name = map to_lower (codes name)

unfoldable pub is_code_model : String → Bool
unfolding lower
is_code_model name = contains (lower name) (codes "code") || contains (lower name) (codes "coder")

unfoldable pub is_reasoning_model : String → Bool
unfolding lower
is_reasoning_model name =
    contains (lower name) (codes "qwq")
    || (contains (lower name) (codes "deepseek-r1")
        || (contains (lower name) (codes "o1") || contains (lower name) (codes "reasoning")))

any_model : (String → Bool) → List ReplicaConfig → Bool
any_model p [] = false
any_model p (m ∷ ms) = p m.model || any_model p ms

largest_size : (String → ℕ) → ℕ → List ReplicaConfig → ℕ
largest_size size_of n [] = n
largest_size size_of n (m ∷ ms) =
    largest_size size_of (if ltb n (size_of m.model) then size_of m.model else n) ms

module _ {N : Type 0} where
  -- `sort.Slice` by priority; no two tiers of a valid configuration share one, so that the order is
  -- determined.
  unfoldable pub insert_tier : ModelTier N → List (ModelTier N) → List (ModelTier N)
  insert_tier t [] = t ∷ []
  insert_tier t (u ∷ us) =
      let rest = insert_tier t us in if ltb_ℤ u.priority t.priority then u ∷ rest else t ∷ (u ∷ us)

  unfoldable pub sort_tiers : List (ModelTier N) → List (ModelTier N)
  unfolding insert_tier
  sort_tiers [] = []
  sort_tiers (t ∷ ts) = insert_tier t (sort_tiers ts)

  unfoldable pub tier_config : (String → ℕ) → ModelTier N → TierConfig N
  unfolding any_model largest_size
  tier_config size_of t = record {
    name = t.name;
    priority = t.priority;
    max_size = largest_size size_of 0 t.models;
    is_code = any_model is_code_model t.models;
    is_reasoning = any_model is_reasoning_model t.models;
    routing = t.routing;
  }

  unfoldable pub replica_of : (String → ℕ) → ModelTier N → ReplicaConfig → Replica N
  replica_of size_of t m = record {
    id = m.id;
    url = m.url;
    model = m.model;
    tier = t.name;
    tier_cfg = tier_config size_of t;
    param_size = size_of m.model;
  }

  unfoldable pub flatten : (String → ℕ) → List (ModelTier N) → List (Replica N)
  flatten size_of [] = []
  flatten size_of (t ∷ ts) = map (replica_of size_of t) t.models ++ flatten size_of ts

  unfoldable pub to_replica_list : (String → ℕ) → List (ModelTier N) → List (Replica N)
  unfolding sort_tiers flatten
  to_replica_list size_of models = flatten size_of (sort_tiers models)
