-- ===== src/Start.antt =====
-- cmd/router/main.go, `main`: the handler that a configuration starts, with its state; and `Load` of
-- internal/config/config.go, after the file has been read. The requests are those that the mux, the
-- middlewares, authentication and the limiter (Router) pass on to the handler. The poller, the
-- classifier and the client of the store are what a request meets. A negative lifetime of the affinity
-- is taken as zero.
pub mod Served
pub mod Loaded
use prompt_response.Common.{
  ℕ, ◌≤◌, String, List, [], ◌∷◌, Option, none, some, if◌then◌else◌, ◌>>=◌, ◌⊎◌, inl, inr, Float,
  pos_part, lookup, string_eq,
}
use mathlib.Core.Option
use prompt_response.Store.{Store}
use prompt_response.Audit.{new_trail}
use prompt_response.Usage.Sink.{BatchSink}
use prompt_response.Circuit.Registry
use prompt_response.Circuit.Registry.Sound.{IsSound}
use prompt_response.Config.{Config}
use prompt_response.Config
use prompt_response.Config.Check.{Problem, validate}
use prompt_response.Config.Defaults.{apply_defaults}
use prompt_response.Config.Replicas.{to_replica_list}
use prompt_response.Proxy.Serve.{Outside, Handler, Router, Request, Meets, Reply, blank_record}
use prompt_response.Proxy.Serve.Handle.{serve_http}
use prompt_response.Proxy.Serve.Wired.{Clocked, clocked_ops, observe_at, report_at, wired}

module _ {N : Type 0} ⦃F : Float N⦄ where
  unfoldable pub checked : Config N → Option Problem → Problem ⊎ Config N
  checked cfg none = inr cfg
  checked cfg (some problem) = inl problem

  -- The configuration with its defaults, or the problem that `validate` finds in it.
  unfoldable pub load : Config N → Problem ⊎ Config N
  unfolding checked
  load raw = let cfg = apply_defaults raw in checked cfg (validate cfg)

  abbrev pub circuit_config : Config.Circuit N → Registry.Config N
  circuit_config c = record {
    error_threshold = c.error_threshold;
    window_size = pos_part c.window_size;
    cooldown = pos_part c.cooldown;
    min_samples = pos_part c.min_samples;
  }

  new-IsSound :
      (cfg : Registry.Config N) → 10 ≤ cfg.window_size → IsSound (Registry.new_registry cfg)
  unfolding Registry.new_registry lookup
  new-IsSound cfg long = record { long_enough = long; valid = λ id b found. cc found }

module _ {N S V : Type 0} ⦃F : Float N⦄ (size_of : String → ℕ) (number : N → V) where
  -- `number` is the JSON value of a number.
  unfoldable pub start_handler : Store S → Config N → Handler N S (Clocked N) V
  start_handler store cfg =
      let replicas = to_replica_list size_of cfg.models in
      record {
        ops = clocked_ops;
        observe = observe_at;
        report = report_at [] replicas;
        store = store;
        replicas = replicas;
        weights = cfg.weights;
        max_queue = cfg.max_queue;
        max_retries = cfg.max_retries;
        stall_timeout = pos_part cfg.stall_timeout;
        affinity_ttl = pos_part cfg.affinity_ttl;
        frequency_penalty = Option.map number cfg.frequency_penalty;
        presence_penalty = Option.map number cfg.presence_penalty;
      }

module _ {N S : Type 0} ⦃F : Float N⦄ where
  -- What the requests find at first: the store as it is, a new registry, and a new trail and tracker
  -- where they are enabled. The sink is `none` unless it is enabled and reaches its database.
  unfoldable pub start_router :
      S
      → (ℕ → ℕ)
      → Option BatchSink
      → (cfg : Config N) → 10 ≤ pos_part cfg.circuit.window_size
      → Router N S (Clocked N)
  unfolding new-IsSound
  start_router store clock sink cfg long = record {
    store = store;
    circuit = record {
      registry = Registry.new_registry (circuit_config cfg.circuit);
      sound = new-IsSound (circuit_config cfg.circuit) long;
      clock = clock;
      readings = 0;
    };
    audit =
        if cfg.audit_enabled
        then some (new_trail blank_record (pos_part cfg.audit_buffer))
        else none;
    usage = if cfg.usage_enabled then some [] else none;
    sink = sink;
  }

module _ {N S B V : Type 0} ⦃F : Float N⦄ (out : Outside B V) (h : Handler N S (Clocked N) V) where
  -- The calls of the handler's `ServeHTTP` for requests that reach it, each with what it meets, one
  -- after another.
  unfoldable pub serve_all :
      Router N S (Clocked N)
      → List (Request B × Meets N B)
      → Option (List (Reply N) × Router N S (Clocked N))
  serve_all s [] = some ([], s)
  serve_all s ((r, d) ∷ rest) = serve_http out (wired out h r d) r d s >>= λ (reply, s').
      serve_all s' rest >>= λ (replies, s''). some (reply ∷ replies, s'')
