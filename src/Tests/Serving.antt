-- ===== src/Tests/Serving.antt =====
-- A router with two replicas, and a conversation that it serves.
use prompt_response.Common.{
  ℕ, suc, ◌≡◌, refl, true, false, String, List, [], ◌∷◌, ◌++◌, none, some, ℤ, pos, ◌≤ℤ◌, All, codes,
  arith, lookup, insert, string_eq, lookup_or, contains, has_prefix, list_eq,
}
use prompt_response.Tests.Num.{milli}
use prompt_response.Tests.Routing.{replica, counting, view}
use prompt_response.Types.{Replica, ConvState, score_bucket}
use prompt_response.Types.Tiers.{priority_of, higher_tier}
use prompt_response.Scorer.Picks.{IsNamed}
use prompt_response.Store.{
  memory_store, MemoryStore, new_memory, set_conversation, get_conversation, live, get_affinity,
  set_affinity,
}
use prompt_response.Store.Expiry.{memory_store-IsFaithful}
use prompt_response.Audit.{new_trail, record_in, Record}
use prompt_response.Proxy.Messages.{
  Message, conversation_hash, count_turns, estimate_tokens, extract_messages, first_user_message,
  has_code_block,
}
use prompt_response.Proxy.Retry.{
  answered, retry_loop, max_attempts, try_picked, member, accepted, no_response, settle,
}
use prompt_response.Proxy.Forward.{
  is_present, inject_defaults, inject_in, copy_headers, do_upstream, stream_body,
}
use prompt_response.Proxy.Serve.{
  Outside, Handler, Router, Request, Meets, Reply, blank_record, put_audit,
}
use prompt_response.Proxy.Serve.Handle.{
  mid_stream_stall, serve_http, complete, turn_of, attempts_of, view_of, class_request, conclude,
  judge_stream, served_record, stats_of,
}
use prompt_response.Proxy.Serve.Effects.{Effect, serve_http_lem}
use prompt_response.Proxy.Serve.Pinned.{complete-escalates, class_of}
use prompt_response.Scorer.{pick, pick_loop, usable, consider, named, no_choice, score_in, score_of}
use prompt_response.Proxy.Turn.{lock_tier, classified_or_small, remember}
use prompt_response.Proxy.Stream.{
  new_stream_interceptor, parse_sse, process_event, split_event, tokens_of, write,
}
use prompt_response.Usage.{record_usage, add_to, clamp}
use prompt_response.Proxy.DeadReplica.{stall_watchdog, watch, tick_of, silent_since, tick, stopped}

abbrev hello : List Message
hello = record { role = "user"; content = "hello" } ∷ []

-- A body is a text, every hash is 42, and a JSON value is a number.
abbrev pub outside : Outside String ℕ
outside = record {
  hash = λ text. 42;
  joined = λ a b. b;
  bytes = λ text. 20;
  canonical = λ name. name;
  atoi = λ text. none;
  size = λ body. 5;
  messages = λ body. some hello;
  unmarshal = λ body. none;
  marshal = λ m. none;
  decode_event = λ payload. some (payload ∷ []);
}

abbrev pub both : List (Replica ℤ)
both = replica "r1" "small" 7 ∷ replica "r3" "large" 70 ∷ []

abbrev pub handler : Handler ℤ MemoryStore ℕ ℕ
handler = record {
  ops = counting;
  observe = λ n id. suc n;
  report = λ n. some ([], n);
  store = memory_store;
  replicas = both;
  weights = view.weights;
  max_queue = view.max_queue;
  max_retries = pos 1;
  stall_timeout = 100;
  affinity_ttl = 100;
  frequency_penalty = none;
  presence_penalty = none;
}

abbrev pub chat : Request String
chat = record {
  path = "/v1/chat/completions";
  method = "POST";
  query = λ name. "";
  header = [];
  conversation_id = "";
  request_id = "id1";
  tenant = "acme";
  body = some "hello";
}

abbrev pub meets : Meets ℤ String
meets = record {
  classify = λ q. none;
  states = λ attempt. view.states;
  upstream = λ attempt request. answered 200 true;
  reads =
      record { bytes = codes "data: [DONE]" ++ (10 ∷ 10 ∷ []); at = 50; taken = true; ended = true }
      ∷ [];
  activity = λ at. some 50;
  signals = tick 60 ∷ stopped ∷ [];
  read_at = 20;
  picked_at = λ attempt. 21;
  hit_at = 40;
  started_at = 45;
  ended_at = 60;
  written_at = 61;
  audited_at = 62;
  used_at = 63;
  sent_at = 64;
}

abbrev pinned_large : ConvState
pinned_large = record { tier = "large"; model = "m"; bucket = "b2"; turns = 1; updated_at = 10 }

abbrev pinned_again : ConvState
pinned_again = record { tier = "large"; model = "m"; bucket = "b0"; turns = 1; updated_at = 61 }

abbrev pub router : Router ℤ MemoryStore ℕ
router = record {
  store = set_conversation new_memory 42 pinned_large 100 10;
  circuit = 0;
  audit = some (new_trail blank_record 2);
  usage = some [];
  sink = none;
}

pub both-IsNamed : All IsNamed both
both-IsNamed = (refl, (refl, tt))

serve_http_lem_example :
    (res : Reply ℤ × Router ℤ MemoryStore ℕ) × (serve_http outside handler chat meets router
      ≡ some res)
    × Effect outside handler chat meets router res
unfolding put_audit record_in new_trail inject_defaults inject_in
serve_http_lem_example =
    serve_http_lem outside handler chat meets router both-IsNamed (λ c id. tt) (λ c id. tt)
      (λ c. tt) (λ rec. tt) (λ body e. tt)

-- The decision of this request, and the router after it.
abbrev decision : Record ℤ
decision = record {
  timestamp = 62;
  request_id = "id1";
  tenant = "acme";
  tier = "large";
  class_score = pos 0;
  signals = [];
  replica_id = "r3";
  replica_tier = "large";
  cache_hit = false;
  attempts = 1;
  ttft_ms = 0;
  total_ms = 0;
  output_tokens = 0;
  status_code = 200;
  reason = "classification error fallback";
}

abbrev after : Router ℤ MemoryStore ℕ
after = record {
  store = record {
    data_ = (42, record { value = "r3"; expires_at = 161 }) ∷ [];
    conv = (42, record { value = pinned_again; expires_at = 161 }) ∷ [];
  };
  circuit = 4;
  audit = some (record { records = decision ∷ blank_record ∷ []; head = 1; count = 1 });
  usage = some (
      (
        "acme",
        record {
          input_tokens = 5;
          output_tokens = 0;
          requests = 1;
          first_seen = 63;
          last_seen = 63;
        },
      )
      ∷ []);
  sink = none;
}

served :
    complete outside handler chat meets router "hello" hello
    ≡ some (Reply.relayed (replica "r3" "large" 70) 200, after)
unfolding complete mid_stream_stall stall_watchdog is_present watch tick_of silent_since turn_of
    attempts_of retry_loop max_attempts try_picked pick pick_loop usable lookup view_of member
    consider lock_tier get_conversation set_conversation insert new_memory record_in lookup_or
    contains has_prefix list_eq copy_headers do_upstream stream_body conversation_hash count_turns
    estimate_tokens extract_messages first_user_message has_code_block accepted no_response settle
    class_request conclude judge_stream served_record stats_of put_audit new_stream_interceptor
    parse_sse process_event split_event tokens_of write classified_or_small remember named no_choice
    score_in score_of live higher_tier priority_of score_bucket new_trail get_affinity set_affinity
    record_usage add_to clamp
served = refl

complete-escalates_example :
    (new : ConvState) × (memory_store.get_conversation after.store 42 161 ≡ some new)
    × (priority_of both "large" ≤ℤ priority_of both new.tier)
    × (priority_of both (class_of outside handler chat meets router hello).tier
        ≤ℤ priority_of both new.tier)
unfolding set_conversation get_conversation new_memory lookup insert live turn_of conversation_hash
complete-escalates_example =
    complete-escalates outside handler chat meets memory_store-IsFaithful router "hello" hello
      (replica "r3" "large" 70) 200 after pinned_large 161 served refl (omega arith)
