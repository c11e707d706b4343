-- ===== src/Proxy/Serve/Handle.antt =====
-- internal/proxy/handler.go, `ServeHTTP`: the steps of a completion, and the route to them.
use prompt_response.Common.{
  Bool, ℕ, ◌+◌, ◌-◌, not, ◌||◌, String, List, [], ◌∷◌, Option, none, some, ltb, ◌==◌, if◌then◌else◌,
  ◌>>=◌, str_eq, Float, length,
}
use prompt_response.Types.{ModelTier, Replica}
use prompt_response.Audit.{Record}
use prompt_response.Scorer.{View}
use prompt_response.Proxy.Messages.{
  Message, extract_messages, first_user_message, count_turns, conversation_hash, estimate_tokens,
  has_code_block,
}
use prompt_response.Proxy.DeadReplica.{stall_watchdog}
use prompt_response.Proxy.Retry.{Retried, retry_loop, max_attempts}
use prompt_response.Proxy.Turn.{Turn, lock_tier, remember}
use prompt_response.Proxy.Stream.{StreamStats, new_stream_interceptor}
use prompt_response.Proxy.Forward.{is_present, inject_defaults, do_upstream, stream_body}
use prompt_response.Proxy.Pages.{handle_readiness, handle_models, handle_audit, handle_usage}
use prompt_response.Proxy.Serve.{
  Outside, Handler, Router, Request, ClassRequest, ClassifyResponse, Meets, Reply, current_tier,
  is_cached, tenant_or_anonymous, milliseconds, answer_or_small, blank_record, put_audit, put_usage,
  put_event,
}

module _ {N S C B V : Type 0} ⦃F : Float N⦄ (out : Outside B V) (h : Handler N S C V)
    (r : Request B) (d : Meets N B) where
  -- What the handler reads of the request for its turn of the conversation.
  unfoldable pub turn_of : List Message → Turn
  turn_of ms =
      let first_user = first_user_message ms in
      record {
        prefix_hash = out.hash first_user;
        conv_hash = conversation_hash out.hash (out.joined "cid:") r.conversation_id first_user;
        turns = count_turns ms;
        read_at = d.read_at;
        written_at = d.written_at;
      }

  unfoldable pub class_request : S → List Message → ClassRequest
  unfolding current_tier
  class_request s ms =
      let (system, user) = extract_messages ms in
      record {
        system_prompt = system;
        user_message = user;
        token_count = estimate_tokens (out.bytes (out.joined system user));
        has_code = has_code_block user;
        conv_turns = count_turns ms;
        current_tier = current_tier (h.store.get_conversation s (turn_of ms).conv_hash d.read_at);
      }

  -- What `Pick` sees at an attempt.
  unfoldable pub view_of : S → ℕ → ℕ → View N
  view_of s prefix_hash attempt = record {
    weights = h.weights;
    max_queue = h.max_queue;
    affinity = h.store.get_affinity s prefix_hash (d.picked_at attempt);
    states = d.states attempt;
  }

  -- The retry loop for a tier and a body.
  unfoldable pub attempts_of : Router N S C → B → ℕ → ModelTier → Option (Retried N C)
  attempts_of s body prefix_hash tier =
      retry_loop h.ops h.replicas tier (ltb 0 h.stall_timeout) (view_of s.store prefix_hash)
        (λ attempt rep.
          d.upstream attempt
            (do_upstream out.canonical out.joined rep body r.method r.path r.header))
        (max_attempts h.max_retries) 0 [] s.circuit

  unfoldable pub refusal_record : ClassifyResponse N → ModelTier → List String → Record N
  refusal_record a tier excluded = record blank_record {
    timestamp = d.audited_at;
    request_id = r.request_id;
    tenant = r.tenant;
    tier = tier;
    class_score = a.score;
    signals = a.signals;
    attempts = length excluded;
    status_code = 503;
    reason = a.build_reason;
  }

  -- The statistics of the stream that the client was sent.
  unfoldable pub stats_of : StreamStats
  stats_of = (stream_body out.decode_event new_stream_interceptor d.reads).stats

  unfoldable pub served_record :
      S → Turn → ClassifyResponse N → ModelTier → List String → Replica N → ℕ → Record N
  unfolding is_cached milliseconds
  served_record s t a tier excluded rep code = record {
    timestamp = d.audited_at;
    request_id = r.request_id;
    tenant = r.tenant;
    tier = tier;
    class_score = a.score;
    signals = a.signals;
    replica_id = rep.id;
    replica_tier = rep.tier;
    cache_hit = is_cached (h.store.get_affinity s t.prefix_hash d.hit_at) rep.id;
    attempts = length excluded + 1;
    ttft_ms = milliseconds (
        if stats_of.wrote
        then stats_of.first_byte_at - d.started_at
        else d.ended_at - d.started_at);
    total_ms = milliseconds (d.ended_at - d.started_at);
    output_tokens = stats_of.output_tokens;
    status_code = code;
    reason = a.build_reason;
  }

  -- The watchdog has cut the stream.
  unfoldable pub mid_stream_stall : Bool
  mid_stream_stall = is_present (stall_watchdog h.stall_timeout d.started_at d.activity d.signals)

  -- A stream that was cut, or that did not end with its terminator, is a failure of its replica.
  unfoldable pub judge_stream : C → Replica N → Option C
  judge_stream c rep =
      if mid_stream_stall || not stats_of.done_seen then h.ops.record_failure c rep.id else some c

  -- What follows the retry loop.
  unfoldable pub conclude :
      Router N S C
      → Turn
      → ClassRequest
      → ClassifyResponse N
      → ModelTier
      → List String
      → C
      → Option (Replica N × ℕ)
      → Option (Reply N × Router N S C)
  unfolding put_audit put_usage put_event tenant_or_anonymous
  conclude s t q a tier excluded c none =
      put_audit s.audit (refusal_record a tier excluded) >>= λ audit.
      some (Reply.refused 503 "no_replicas", record s { circuit = c; audit = audit })
  conclude s t q a tier excluded c (some (rep, code)) = judge_stream c rep >>= λ c'.
      put_audit s.audit (served_record s.store t a tier excluded rep code) >>= λ audit. some (
        Reply.relayed rep code,
        record {
          store =
              remember h.store h.replicas h.affinity_ttl s.store t
                (some (record { tier = a.tier; score = a.score })) tier rep;
          circuit = h.observe c' rep.id;
          audit = audit;
          usage =
              put_usage s.usage (tenant_or_anonymous r.tenant) q.token_count stats_of.output_tokens
                d.used_at;
          sink = put_event s.usage s.sink (record {
            tenant = tenant_or_anonymous r.tenant;
            input = q.token_count;
            output = stats_of.output_tokens;
            at = d.sent_at;
          });
        },
      )

  -- A request with messages: its tier, its attempts, and what they lead to.
  unfoldable pub complete : Router N S C → B → List Message → Option (Reply N × Router N S C)
  unfolding answer_or_small
  complete s body ms =
      let t = turn_of ms in
      let q = class_request s.store ms in
      let a = answer_or_small (d.classify q) in
      let tier =
        lock_tier h.replicas (h.store.get_conversation s.store t.conv_hash d.read_at) a.tier in
      attempts_of s body t.prefix_hash tier >>= λ tried.
      conclude s t q a tier tried.excluded tried.circuit tried.resp

  -- The guards of the body, in the source's order.
  unfoldable pub check_messages : Router N S C → B → List Message → Option (Reply N × Router N S C)
  check_messages s body [] = some (Reply.refused 400 "invalid_request", s)
  check_messages s body (m ∷ ms) = complete s body (m ∷ ms)

  unfoldable pub check_json :
      Router N S C → B → Option (List Message) → Option (Reply N × Router N S C)
  unfolding check_messages
  check_json s body none = some (Reply.refused 400 "invalid_json", s)
  check_json s body (some ms) =
      inject_defaults out.unmarshal out.marshal h.frequency_penalty h.presence_penalty body
      >>= λ body'. check_messages s body' ms

  unfoldable pub check_body : Router N S C → Option B → Option (Reply N × Router N S C)
  unfolding check_json
  check_body s none = some (Reply.refused 400 "read_error", s)
  check_body s (some body) =
      if out.size body == 0
      then some (Reply.refused 400 "empty_body", s)
      else check_json s body (out.messages body)

  -- `ServeHTTP`.
  unfoldable pub serve_http : Router N S C → Option (Reply N × Router N S C)
  unfolding check_body
  serve_http s =
      if str_eq r.path "/healthz"
      then some (Reply.health, s)
      else if str_eq r.path "/readyz"
      then some (Reply.readiness (handle_readiness (d.states 0)), s)
      else if str_eq r.path "/v1/models"
      then some (Reply.models (handle_models h.replicas), s)
      else if str_eq r.path "/v1/router/status"
      then (h.report s.circuit >>= λ (rows, c). some (Reply.status rows, record s { circuit = c }))
      else if str_eq r.path "/v1/router/audit"
      then some (Reply.audit (handle_audit blank_record out.atoi s.audit (r.query "limit")), s)
      else if str_eq r.path "/v1/router/usage"
      then some (Reply.usage (handle_usage s.usage (r.query "tenant")), s)
      else if str_eq r.method "POST"
      then check_body s r.body
      else some (Reply.refused 405 "method_not_allowed", s)
