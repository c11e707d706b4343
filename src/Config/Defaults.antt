-- ===== src/Config/Defaults.antt =====
-- internal/config/config.go, `applyDefaults`.
pub mod Settings
use prompt_response.Common.{
  ℕ, ◌*◌, ◌^◌, Bool, true, false, ◌&&◌, String, Option, none, some, if◌then◌else◌, str_eq, Float, ℤ,
  pos, eqb_ℤ,
}
use prompt_response.Config.{Config, ClassifierWeights, Circuit, RateLimit, UsagePostgres}

abbrev or_text : String → String → String
or_text s t = if str_eq s "" then t else s

abbrev pub or_int : ℤ → ℕ → ℤ
or_int a n = if eqb_ℤ a (pos 0) then pos n else a

abbrev seconds : ℕ → ℕ
seconds n = n * 10 ^ 9

module _ {N : Type 0} ⦃F : Float N⦄ where
  -- `==` on float64, which holds of the two zeros and of no NaN.
  unfoldable pub is_zero : N → Bool
  is_zero a = F.le a (F.of_int 0) && F.le (F.of_int 0) a

  or_float : N → N → N
  or_float a d = if is_zero a then d else a

  or_given : Option N → N → Option N
  or_given none d = some d
  or_given (some a) d = some a

  unfoldable pub default_classifier : ClassifierWeights N → ClassifierWeights N
  default_classifier c =
      if is_zero c.length && is_zero c.code && is_zero c.reasoning
      then record {
        length = F.ratio 20 100;
        code = F.ratio 30 100;
        reasoning = F.ratio 15 100;
        complexity = F.ratio 10 100;
        conv_depth = F.ratio 10 100;
        output_length = F.ratio 15 100;
      }
      else c

  unfoldable pub default_circuit : Circuit N → Circuit N
  unfolding or_float
  default_circuit c = record {
    error_threshold = or_float c.error_threshold (F.ratio 5 10);
    window_size = or_int c.window_size (seconds 10);
    cooldown = or_int c.cooldown (seconds 30);
    min_samples = or_int c.min_samples 5;
  }

  unfoldable pub default_rate_limit : RateLimit N → RateLimit N
  unfolding or_float
  default_rate_limit r = record r {
    requests_per_minute = or_float r.requests_per_minute (F.of_int 60);
    burst = or_int r.burst 10;
  }

unfoldable pub default_postgres : UsagePostgres → UsagePostgres
default_postgres p =
    if p.enabled
    then record p {
      flush_interval = or_int p.flush_interval (seconds 5);
      batch_size = or_int p.batch_size 100;
      buffer_size = or_int p.buffer_size 4096;
    }
    else p

module _ {N : Type 0} ⦃F : Float N⦄ where
  unfoldable pub apply_defaults : Config N → Config N
  unfolding or_float or_given
  apply_defaults cfg = record cfg {
    listen_addr = or_text cfg.listen_addr ":8080";
    max_queue = or_float cfg.max_queue (F.of_int 20);
    threshold = or_float cfg.threshold (F.ratio 35 100);
    affinity_ttl = or_int cfg.affinity_ttl (seconds 300);
    poll_interval = or_int cfg.poll_interval (seconds 2);
    classifier = default_classifier cfg.classifier;
    circuit = default_circuit cfg.circuit;
    max_retries = or_int cfg.max_retries 1;
    retry_timeout = or_int cfg.retry_timeout (seconds 30);
    rate_limit = default_rate_limit cfg.rate_limit;
    audit_buffer = or_int cfg.audit_buffer 1000;
    stall_timeout = or_int cfg.stall_timeout (seconds 15);
    frequency_penalty = or_given cfg.frequency_penalty (F.ratio 2 10);
    presence_penalty = or_given cfg.presence_penalty (F.ratio 1 10);
    postgres = default_postgres cfg.postgres;
  }
