-- ===== src/Proxy/Serve.antt =====
-- internal/proxy/handler.go, `ServeHTTP`: a request from its route to the records that it leaves. The
-- requests of a router are taken one after another. Logs and metrics are left out, but for the call
-- of the circuit's `State` that a metric makes. A panic is `none`.
pub mod Handle
pub mod Effects
pub mod Pinned
pub mod Wired
use prompt_response.Common.{
  ℕ, ◌+◌, ◌-◌, ◌/◌, Bool, true, false, not, ◌||◌, String, List, [], ◌∷◌, Option, none, some, ltb,
  ◌==◌, if◌then◌else◌, ◌>>=◌, str_eq, Float, ℤ, pos, length, Table,
}
use prompt_response.Types.{ModelTier, tier_small, Replica, ConvState}
use prompt_response.Store.{Store}
use prompt_response.Audit.{Trail, Record, record_in}
use prompt_response.Usage.{Tracker, record_usage}
use prompt_response.Usage.Sink.{BatchSink, UsageEvent, enqueue}
use prompt_response.Poller
use prompt_response.Scorer.{View, Weights}
use prompt_response.Proxy.Messages.{
  Message, extract_messages, first_user_message, count_turns, conversation_hash, estimate_tokens,
  has_code_block,
}
use prompt_response.Proxy.DeadReplica.{Signal}
use prompt_response.Proxy.Retry.{Circuit, Outcome, Retried, retry_loop, max_attempts}
use prompt_response.Proxy.Turn.{Classified, Turn, lock_tier, remember}
use prompt_response.Proxy.Stream.{StreamStats, new_stream_interceptor}
use prompt_response.Proxy.Forward.{
  Header, UpstreamRequest, Read, inject_defaults, do_upstream, stream_body,
}
use prompt_response.Proxy.Pages.{
  ReplicaStatus, UsagePage, handle_readiness, handle_models, handle_audit, handle_usage,
}

-- The code outside the repository: xxhash, the texts' sums and lengths, JSON and numbers.
pub record Outside (B V : Type 0) : Type 0 where
  pub hash : String → ℕ
  pub joined : String → String → String
  pub bytes : String → ℕ
  pub canonical : String → String
  pub atoi : String → Option ℤ
  pub size : B → ℕ
  pub messages : B → Option (List Message)
  pub unmarshal : B → Option (Option (Table String V))
  pub marshal : Option (Table String V) → Option B
  pub decode_event : List ℕ → Option (List (List ℕ))

-- The parts of `Handler` and its configuration that do not change. `observe` is the circuit's
-- `State`, and `report` what the status page reads of the circuit.
pub record Handler (N S C V : Type 0) : Type 0 where
  pub ops : Circuit C
  pub observe : C → String → C
  pub report : C → Option (List (ReplicaStatus N) × C)
  pub store : Store S
  pub replicas : List (Replica N)
  pub weights : Weights N
  pub max_queue : N
  pub max_retries : ℤ
  pub stall_timeout : ℕ
  pub affinity_ttl : ℕ
  pub frequency_penalty : Option V
  pub presence_penalty : Option V

-- What the requests change. The trail, the tracker and the sink may be nil.
pub record Router (N S C : Type 0) : Type 0 where
  pub store : S
  pub circuit : C
  pub audit : Option (Trail (Record N))
  pub usage : Option Tracker
  pub sink : Option BatchSink

-- `body` is `none` if it cannot be read.
pub record Request (B : Type 0) : Type 0 where
  pub path : String
  pub method : String
  pub query : String → String
  pub header : Header
  pub conversation_id : String
  pub request_id : String
  pub tenant : String
  pub body : Option B

-- classifier_router.go, `Request` and `ClassifyResponse`.
pub record ClassRequest : Type 0 where
  pub system_prompt : String
  pub user_message : String
  pub token_count : ℕ
  pub has_code : Bool
  pub conv_turns : ℕ
  pub current_tier : ModelTier

pub record ClassifyResponse (N : Type 0) : Type 0 where
  pub tier : ModelTier
  pub score : N
  pub signals : Table String N
  pub build_reason : String

-- What a request meets: the classifier, the poller's states and the upstream at each attempt, the
-- reads of the response's body, the stream's last activity at a time, what the watchdog receives, and
-- the times, in nanoseconds.
pub record Meets (N B : Type 0) : Type 0 where
  pub classify : ClassRequest → Option (ClassifyResponse N)
  pub states : ℕ → Table String (Poller.State N)
  pub upstream : ℕ → UpstreamRequest B → Outcome
  pub reads : List Read
  pub activity : ℕ → Option ℕ
  pub signals : List Signal
  pub read_at : ℕ
  pub picked_at : ℕ → ℕ
  pub hit_at : ℕ
  pub started_at : ℕ
  pub ended_at : ℕ
  pub written_at : ℕ
  pub audited_at : ℕ
  pub used_at : ℕ
  pub sent_at : ℕ

pub data Reply (N : Type 0) : Type 0 where
  health : Reply N
  readiness : ℕ × String → Reply N
  models : List String → Reply N
  status : List (ReplicaStatus N) → Reply N
  audit : List (Record N) × Bool → Reply N
  usage : UsagePage → Reply N
  refused : ℕ → String → Reply N
  relayed : Replica N → ℕ → Reply N

current_tier : Option ConvState → ModelTier
current_tier none = ""
current_tier (some pin) = pin.tier

is_cached : Option String → String → Bool
is_cached none id = false
is_cached (some a) id = str_eq a id

pub tenant_or_anonymous : String → String
tenant_or_anonymous tenant = if str_eq tenant "" then "anonymous" else tenant

-- `Milliseconds`.
milliseconds : ℕ → ℕ
milliseconds ns = ns / 1000000

module _ {N : Type 0} ⦃F : Float N⦄ where
  pub answer_or_small : Option (ClassifyResponse N) → ClassifyResponse N
  answer_or_small (some a) = a
  answer_or_small none = record {
    tier = tier_small;
    score = F.of_int 0;
    signals = [];
    build_reason = "classification error fallback";
  }

  abbrev pub blank_record : Record N
  blank_record = record {
    timestamp = 0;
    request_id = "";
    tenant = "";
    tier = "";
    class_score = F.of_int 0;
    signals = [];
    replica_id = "";
    replica_tier = "";
    cache_hit = false;
    attempts = 0;
    ttft_ms = 0;
    total_ms = 0;
    output_tokens = 0;
    status_code = 0;
    reason = "";
  }

  -- `Record`, if there is a trail.
  unfoldable pub put_audit :
      Option (Trail (Record N)) → Record N → Option (Option (Trail (Record N)))
  put_audit none r = some none
  put_audit (some t) r = record_in blank_record t r >>= λ t'. some (some t')

-- The tracker and the sink after a response of so many tokens; without a tracker there is no event.
unfoldable pub put_usage : Option Tracker → String → ℕ → ℕ → ℕ → Option Tracker
put_usage none tenant input output at = none
put_usage (some t) tenant input output at = some (record_usage t tenant (pos input) (pos output) at)

pub put_event : Option Tracker → Option BatchSink → UsageEvent → Option BatchSink
put_event (some t) (some s) ev = some (enqueue s ev)
put_event (some t) none ev = none
put_event none sink ev = sink
