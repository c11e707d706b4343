-- ===== src/Config.antt =====
-- internal/config/config.go: the configuration as it is after YAML has been read. Durations are
-- nanoseconds, and signed. The routing of a tier has the fields of its type in internal/types.
pub mod Defaults
pub mod Check
pub mod Replicas
use prompt_response.Common.{ℕ, Bool, String, List, Option, Float, ℤ}
use prompt_response.Types.{TierRouting}
use prompt_response.Scorer.{Weights}

pub record ReplicaConfig : Type 0 where
  pub id : String
  pub url : String
  pub model : String

pub record ModelTier (N : Type 0) : Type 0 where
  pub name : String
  pub priority : ℤ
  pub routing : TierRouting N
  pub models : List ReplicaConfig

pub record ClassifierWeights (N : Type 0) : Type 0 where
  pub length : N
  pub code : N
  pub reasoning : N
  pub complexity : N
  pub conv_depth : N
  pub output_length : N

pub record Circuit (N : Type 0) : Type 0 where
  pub error_threshold : N
  pub window_size : ℤ
  pub cooldown : ℤ
  pub min_samples : ℤ

pub record RateLimit (N : Type 0) : Type 0 where
  pub enabled : Bool
  pub requests_per_minute : N
  pub burst : ℤ

pub record UsagePostgres : Type 0 where
  pub enabled : Bool
  pub dsn : String
  pub flush_interval : ℤ
  pub batch_size : ℤ
  pub buffer_size : ℤ

-- `auth_keys` is how many keys there are. The fields that neither the defaults, nor the validation,
-- nor the start of the router reads are left out.
pub record Config (N : Type 0) : Type 0 where
  pub listen_addr : String
  pub models : List (ModelTier N)
  pub redis_addr : String
  pub weights : Weights N
  pub classifier : ClassifierWeights N
  pub circuit : Circuit N
  pub max_retries : ℤ
  pub retry_timeout : ℤ
  pub auth_enabled : Bool
  pub auth_keys : ℕ
  pub rate_limit : RateLimit N
  pub audit_enabled : Bool
  pub audit_buffer : ℤ
  pub usage_enabled : Bool
  pub postgres : UsagePostgres
  pub frequency_penalty : Option N
  pub presence_penalty : Option N
  pub stall_timeout : ℤ
  pub done_timeout : ℤ
  pub affinity_ttl : ℤ
  pub threshold : N
  pub max_queue : N
  pub poll_interval : ℤ
