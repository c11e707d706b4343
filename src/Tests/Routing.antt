-- ===== src/Tests/Routing.antt =====
-- Concrete tiers and replicas, and the choice among them.
use prompt_response.Common.{
  ℕ, suc, ◌≡◌, refl, Bool, true, false, not, String, List, [], ◌∷◌, none, some, if◌then◌else◌, ℤ,
  pos, All, str_eq,
}
use prompt_response.Tests.Num.{milli}
use prompt_response.Types.{ModelTier, RoutingRule, TierRouting, ClassifierResult, Replica}
use prompt_response.Types.Tiers.{tier_for_classification, or_else, first_fallback, largest_tier}
use prompt_response.Types.Select.{first_explicit, tier_for_classification_lem}
use prompt_response.Poller
use prompt_response.Scorer.{View, pick}
use prompt_response.Scorer.Best.{candidates}
use prompt_response.Scorer.Picks.{IsNamed, Picked, pick_lem}
use prompt_response.Proxy.Retry.{Circuit, Outcome, answered, retry_loop, max_attempts, Retried}
use prompt_response.Proxy.Retry.Attempts.{Fine, retry_loop_lem}

-- Scores from 0.6 on, for the tasks that need them.
abbrev rule : RoutingRule ℤ
rule = record {
  min_score = some (pos 600);
  max_score = none;
  min_reasoning = none;
  max_reasoning = none;
  min_domain = none;
  max_domain = some (pos 900);
  min_creativity = none;
  max_creativity = none;
  min_constraint = none;
  max_constraint = none;
  task_types = "Reasoning" ∷ "math" ∷ [];
}

abbrev routing_of : ModelTier → TierRouting ℤ
routing_of name =
    if str_eq name "small"
    then record { rules = []; task_types = []; code_signals = false; fallback = true }
    else record { rules = rule ∷ []; task_types = []; code_signals = true; fallback = false }

-- A replica of a tier whose priority is its size.
abbrev pub replica : String → ModelTier → ℕ → Replica ℤ
replica name tier size = record {
  id = name;
  url = "http://replica";
  model = "m";
  tier = tier;
  tier_cfg = record {
    name = tier;
    priority = pos size;
    max_size = size;
    is_code = false;
    is_reasoning = false;
    routing = routing_of tier;
  };
  param_size = size;
}

abbrev replicas : List (Replica ℤ)
replicas = replica "r1" "small" 7 ∷ replica "r2" "large" 70 ∷ replica "r3" "large" 70 ∷ []

abbrev hard : ClassifierResult ℤ
hard = record {
  task_type = "math";
  score = pos 700;
  reasoning = pos 800;
  domain = pos 100;
  creativity = pos 0;
  constraint = pos 0;
  text = "prove it";
}

tier_for_classification_lem_example :
    tier_for_classification replicas hard
    ≡ or_else
        (first_explicit hard replicas)
        (or_else (first_fallback replicas) (largest_tier replicas))
tier_for_classification_lem_example =
    tier_for_classification_lem routing_of hard replicas (refl, (refl, (refl, tt)))

abbrev pub up : Poller.State ℤ
up = record { queue_depth = pos 2; running = pos 1; kv_cache_util = pos 250; healthy = true }

abbrev pub view : View ℤ
view = record {
  weights = record {
    cache_affinity = pos 500;
    queue_depth = pos 300;
    kv_cache_pressure = pos 100;
    baseline = pos 100;
    miss_penalty = pos 0;
  };
  max_queue = pos 10000;
  affinity = some "r3";
  states = ("r1", up) ∷ ("r2", up) ∷ ("r3", up) ∷ [];
}

-- Every replica but one is allowed, and the calls are counted.
abbrev ask : ℕ → String → Bool × ℕ
ask n id = (not (str_eq id "r2"), suc n)

abbrev no_one : String → Bool
no_one id = false

replicas-IsNamed : All IsNamed replicas
replicas-IsNamed = (refl, (refl, (refl, tt)))

pick_lem_example :
    Picked view "large"
      (candidates ask view no_one 0 replicas).0
      (pick ask view "large" no_one 0 replicas).0
pick_lem_example = pick_lem ask view "large" no_one 0 replicas replicas-IsNamed

abbrev pub counting : Circuit ℕ
counting = record {
  allow = ask;
  record_success = λ n id. some (suc n);
  record_failure = λ n id. some (suc n);
}

-- One replica fails with a server error, and the other answers.
abbrev upstream : ℕ → Replica ℤ → Outcome
upstream attempt r = if str_eq r.id "r3" then answered 503 true else answered 200 true

retry_loop_lem_example :
    (out : Retried ℤ ℕ) × (retry_loop counting replicas "large" true
        (λ _. view)
        upstream
        (max_attempts (pos 2))
        0
        []
        0
      ≡ some out)
    × Fine (max_attempts (pos 2)) out
retry_loop_lem_example =
    retry_loop_lem counting replicas "large" true (λ _. view) upstream replicas-IsNamed (λ c id. tt)
      (λ c id. tt) (pos 2) 0
