-- ===== src/Tests/Service.antt =====
-- A concrete configuration, its keys, a stream and a conversation.
use prompt_response.Common.{
  ℕ, ◌≡◌, refl, Bool, true, false, String, List, [], ◌∷◌, ◌++◌, Option, none, some, codes, ℤ, pos,
  ◌≤ℤ◌, lookup, arith, All,
}
use prompt_response.Tests.Num.{milli}
use prompt_response.Tests.Routing.{replica}
use prompt_response.Types.{ModelTier, Replica, ClassifierResult, ConvState}
use prompt_response.Types.Tiers.{priority_of, first_fallback, tier_for_classification, or_else}
use prompt_response.Types.Select.{first_explicit}
use prompt_response.Scorer.Picks.{IsNamed}
use prompt_response.Store.{
  MemoryStore, new_memory, set_conversation, memory_store, get_conversation, live,
}
use prompt_response.Config.{Config}
use prompt_response.Config
use prompt_response.Config.Check.{
  validate, refuse, check_listed, check_tiers, check_rules, check_models, check_settings,
  lacks_models, has_name,
}
use prompt_response.Config.Defaults.{
  apply_defaults, default_rate_limit, is_zero, default_circuit, default_postgres,
}
use prompt_response.Config.Replicas.{to_replica_list}
use prompt_response.Config.Replicas.Routed.{validate-routes}
use prompt_response.Auth.{KeyEntry, Request}
use prompt_response.Proxy.Turn.{Classified, Turn, classified_or_small}
use prompt_response.Proxy.Turn.Lock.{pin_of}
use prompt_response.Proxy.Turn.Race.{at_once, in_turn, at_once-in_turn}
use prompt_response.Store.Expiry.{memory_store-IsFaithful}

abbrev tier : String → ℕ → Bool → Config.ModelTier ℤ
tier name priority fallback = record {
  name = name;
  priority = pos priority;
  routing = record { rules = []; task_types = []; code_signals = false; fallback = fallback };
  models = record { id = name; url = "http://replica"; model = "m-7B" } ∷ [];
}

-- Two tiers, and all that has a default left at zero.
abbrev pub raw : Config ℤ
raw = record {
  listen_addr = "";
  models = tier "large" 2 false ∷ tier "small" 1 true ∷ [];
  redis_addr = "localhost:6379";
  weights = record {
    cache_affinity = pos 500;
    queue_depth = pos 300;
    kv_cache_pressure = pos 100;
    baseline = pos 100;
    miss_penalty = pos 0;
  };
  classifier = record {
    length = pos 0;
    code = pos 0;
    reasoning = pos 0;
    complexity = pos 0;
    conv_depth = pos 0;
    output_length = pos 0;
  };
  circuit = record {
    error_threshold = pos 0;
    window_size = pos 0;
    cooldown = pos 0;
    min_samples = pos 0;
  };
  max_retries = pos 0;
  retry_timeout = pos 0;
  auth_enabled = false;
  auth_keys = 0;
  rate_limit = record { enabled = true; requests_per_minute = pos 0; burst = pos 0 };
  audit_enabled = true;
  audit_buffer = pos 0;
  usage_enabled = true;
  postgres = record {
    enabled = false;
    dsn = "";
    flush_interval = pos 0;
    batch_size = pos 0;
    buffer_size = pos 0;
  };
  frequency_penalty = none;
  presence_penalty = none;
  stall_timeout = pos 0;
  done_timeout = pos 0;
  affinity_ttl = pos 0;
  threshold = pos 0;
  max_queue = pos 0;
  poll_interval = pos 0;
}

pub raw-valid : validate (apply_defaults raw) ≡ none
unfolding validate check_listed check_tiers refuse check_rules check_models check_settings
    apply_defaults lacks_models has_name default_rate_limit is_zero default_circuit default_postgres
raw-valid = refl

abbrev pub one_size : String → ℕ
one_size model = 7

validate-routes_example :
    let reps = to_replica_list one_size (apply_defaults raw).models in
    All IsNamed reps
    × (fallback : String) × (first_fallback reps ≡ some fallback)
    × ((result : ClassifierResult ℤ)
        → tier_for_classification reps result
          ≡ or_else (first_explicit result reps) (some fallback))
validate-routes_example = validate-routes one_size (apply_defaults raw) raw-valid

abbrev entries : List KeyEntry
entries =
    record { key = codes "k1"; tenant = "acme" }
    ∷ record { key = codes "k1"; tenant = "other" }
    ∷ []

abbrev with_key : Request
with_key = record {
  path = "/v1/chat/completions";
  authorization = codes "Bearer k1";
  x_api_key = [];
}

-- A decoder that takes a payload as its only content.
abbrev as_content : List ℕ → Option (List (List ℕ))
as_content payload = some (payload ∷ [])

-- An event that comes in two parts, and the end.
abbrev writes : List (ℕ × List ℕ)
writes =
    (5, codes "data: to")
    ∷ (7, codes "ken" ++ (10 ∷ []))
    ∷ (9, 10 ∷ codes "data: [DONE]")
    ∷ (9, 10 ∷ 10 ∷ codes "da")
    ∷ []

abbrev pinned_large : ConvState
pinned_large = record { tier = "large"; model = "m"; bucket = "b2"; turns = 1; updated_at = 10 }

abbrev memory : MemoryStore
memory = set_conversation new_memory 42 pinned_large 100 10

abbrev both : List (Replica ℤ)
both = replica "r1" "small" 7 ∷ replica "r2" "large" 70 ∷ []

abbrev first_turn : Turn
first_turn = record { prefix_hash = 1; conv_hash = 42; turns = 1; read_at = 10; written_at = 40 }

abbrev second_turn : Turn
second_turn = record { prefix_hash = 1; conv_hash = 42; turns = 1; read_at = 20; written_at = 50 }

abbrev as_class : ModelTier → Option (Classified ℤ)
as_class class = some (record { tier = class; score = pos 100 })

at_once-in_turn_example :
    ((new : ConvState) × (memory_store.get_conversation
          (in_turn memory_store both 100 new_memory first_turn
            (as_class "large")
            (replica "r2" "large" 70)
            second_turn
            (as_class "small")
            (replica "r1" "small" 7))
          42
          60
        ≡ some new)
      × (priority_of both "large" ≤ℤ priority_of both new.tier)
      × (priority_of both "small" ≤ℤ priority_of both new.tier))
    × (memory_store.get_conversation
          (at_once memory_store both 100 new_memory first_turn
            (as_class "large")
            (replica "r2" "large" 70)
            second_turn
            (as_class "small")
            (replica "r1" "small" 7))
          42
          60
        ≡ some (
            pin_of memory_store memory_store-IsFaithful both 100 second_turn
              (as_class "small")
              "small"
              (replica "r1" "small" 7)))
unfolding get_conversation new_memory lookup live classified_or_small
at_once-in_turn_example =
    at_once-in_turn memory_store memory_store-IsFaithful both 100 new_memory first_turn second_turn
      (as_class "large") (as_class "small") (replica "r2" "large" 70) (replica "r1" "small" 7) 60
      refl refl refl (omega arith) (omega arith)
