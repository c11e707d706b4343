-- ===== src/LoadTest/Models.antt =====
-- test/router_bench.go: the mock models, which take requests up to a number of slots and a size of
-- cache, and `RunBenchmark`, which runs all requests at once. Each request is a goroutine; a step of the
-- relation is one of their accesses to what they share: a model's semaphore, its cache under its lock,
-- and the results under theirs. A megabyte is `unit` equal parts, so that the arithmetic is exact, and
-- what float64 rounds off is not modelled. Times are left out: a request that waits may run into its
-- timeout at any moment.

pub mod Slots
pub mod Ends
pub mod Progress
use prompt_response.Common.{
  ℕ, ◌+◌, ◌*◌, ◌/◌, ◌-◌, ◌^◌, ◌<◌, ◌≡◌, Bool, true, false, not, String, List, [], ◌∷◌, ◌++◌, Option,
  none, some, if◌then◌else◌, str_eq, ltb, Table, lookup, insert, string_eq,
}
use prompt_response.LoadTest.{
  Request, GenerateResult, GenerateError, Reason, unknown_model, queue_timeout, out_of_cache,
}

-- The parts of a megabyte.
abbrev pub unit : ℕ
unit = 10 ^ 6

-- Sizes are in parts of a megabyte, the weights in parts of a gigabyte.
pub record ModelProfile : Type 0 where
  pub vram_weights : ℕ
  pub kv_cache_per_token : ℕ
  pub max_concurrent : ℕ

-- `sem` is the number of slots that are taken, `kv_cache_used` is in thousandths of a megabyte.
pub record MockModel : Type 0 where
  pub key : String
  pub profile : ModelProfile
  pub max_kv_cache : ℕ
  pub sem : ℕ
  pub kv_cache_used : ℕ
  pub total_queued : ℕ
  pub total_rejected : ℕ

-- Three tenths of the size of the weights, rounded down to a part of a megabyte.
unfoldable pub new_mock_model : String → ModelProfile → MockModel
new_mock_model key p = record {
  key = key;
  profile = p;
  max_kv_cache = p.vram_weights * 1024 * 3 / 10;
  sem = 0;
  kv_cache_used = 0;
  total_queued = 0;
  total_rejected = 0;
}

-- `BuildMockModels`, after the file is read: the models of the entries of its map.
unfoldable pub build_mock_models : List (String × ModelProfile) → Table String MockModel
unfolding new_mock_model
build_mock_models [] = []
build_mock_models ((key, p) ∷ cfg) = insert key (new_mock_model key p) (build_mock_models cfg)

-- What a request needs of the cache, and this in whole thousandths of a megabyte.
abbrev pub cache_needed : MockModel → Request → ℕ
cache_needed m r = r.input_tokens * m.profile.kv_cache_per_token

abbrev pub thousandths : ℕ → ℕ
thousandths parts = parts * 1000 / unit

-- `long` tells whether the request waited for more than 50 ms.
unfoldable pub acquire : MockModel → Bool → MockModel
acquire m long = record m {
  sem = m.sem + 1;
  total_queued = m.total_queued + (if long then 1 else 0);
}

unfoldable pub reject : MockModel → MockModel
reject m = record m { total_rejected = m.total_rejected + 1 }

unfoldable pub has_cache : MockModel → Request → Bool
has_cache m r = not (ltb (m.max_kv_cache * 1000) (m.kv_cache_used * unit + cache_needed m r * 1000))

unfoldable pub reserve : MockModel → Request → MockModel
reserve m r = record m { kv_cache_used = m.kv_cache_used + thousandths (cache_needed m r) }

-- The deferred calls, in the order in which they run.
unfoldable pub give_back : MockModel → Request → MockModel
give_back m r = record m { kv_cache_used = m.kv_cache_used - thousandths (cache_needed m r) }

unfoldable pub release : MockModel → MockModel
release m = record m { sem = m.sem - 1 }

-- Where a request's goroutine is: before it is routed; waiting for a slot; with a slot; with a slot and
-- its part of the cache; with a slot after an answer or after it found no cache; after `Generate`, with
-- an answer or an error; at its end.
pub data Phase : Type 0 where
  spawned queued slotted generating answered refused : Phase
  succeeded : String → Phase
  failed : Reason → Phase
  ended : Phase

pub record Job : Type 0 where
  pub request : Request
  pub phase : Phase

abbrev pub job : Request → Phase → Job
job r p = record { request = r; phase = p }

-- What the goroutines share.
pub record World : Type 0 where
  pub models : Table String MockModel
  pub successes : List GenerateResult
  pub errors : List GenerateError

abbrev pub with_model : World → String → MockModel → World
with_model w k m = record w { models = insert k m w.models }

module _ (route : Request → String) where
  unfoldable pub success_of : String → Request → GenerateResult
  success_of key r = record {
    model = key;
    output_toks = r.max_output_tokens;
    input_toks = r.input_tokens;
    routed_to = route r;
    ideal_model = r.ideal_model;
    is_correct = str_eq (route r) r.ideal_model;
    category = r.category;
    question_id = r.question_id;
    request_text = r.text;
  }

  unfoldable pub error_of : Request → Reason → GenerateError
  error_of r why = record {
    routed_to = route r;
    ideal_model = r.ideal_model;
    reason = why;
    request_text = r.text;
  }

  -- What a request's goroutine may do next.
  pub data Act (w : World) (r : Request) : Phase → Phase → World → Type 0 where
    unknown_key :
        lookup (route r) w.models ≡ none
        → Act w r spawned ended (record w { errors = w.errors ++ (error_of r unknown_model ∷ []) })
    known_key : (m : MockModel) → lookup (route r) w.models ≡ some m → Act w r spawned queued w
    got_slot :
        (m : MockModel) (long : Bool)
        → lookup (route r) w.models ≡ some m
        → m.sem < m.profile.max_concurrent
        → Act w r queued slotted (with_model w (route r) (acquire m long))
    timed_out :
        (m : MockModel)
        → lookup (route r) w.models ≡ some m
        → Act w r queued (failed queue_timeout) (with_model w (route r) (reject m))
    reserved :
        (m : MockModel)
        → lookup (route r) w.models ≡ some m
        → has_cache m r ≡ true
        → Act w r slotted generating (with_model w (route r) (reserve m r))
    no_cache :
        (m : MockModel)
        → lookup (route r) w.models ≡ some m
        → has_cache m r ≡ false
        → Act w r slotted refused w
    gave_back :
        (m : MockModel)
        → lookup (route r) w.models ≡ some m
        → Act w r generating answered (with_model w (route r) (give_back m r))
    released :
        (m : MockModel)
        → lookup (route r) w.models ≡ some m
        → Act w r answered (succeeded m.key) (with_model w (route r) (release m))
    released_refused :
        (m : MockModel)
        → lookup (route r) w.models ≡ some m
        → Act w r refused (failed out_of_cache) (with_model w (route r) (release m))
    added :
        (key : String)
        → Act w r
            (succeeded key)
            ended
            (record w { successes = w.successes ++ (success_of key r ∷ []) })
    reported :
        (why : Reason)
        → Act w r (failed why) ended (record w { errors = w.errors ++ (error_of r why ∷ []) })

  pub record Benchmark : Type 0 where
    pub world : World
    pub jobs : List Job

  -- One goroutine does one thing.
  pub data Step (s : Benchmark) : Benchmark → Type 0 where
    act :
        (before after : List Job) (r : Request) {p p' : Phase} {w : World}
        → s.jobs ≡ before ++ (job r p ∷ after)
        → Act s.world r p p' w
        → Step s (record { world = w; jobs = before ++ (job r p' ∷ after) })

  abbrev pub spawn : List Request → List Job
  spawn [] = []
  spawn (r ∷ rs) = job r spawned ∷ spawn rs

  abbrev pub new_benchmark : Table String MockModel → List Request → Benchmark
  new_benchmark models requests = record {
    world = record { models = models; successes = []; errors = [] };
    jobs = spawn requests;
  }

  -- The states of a benchmark, with the number of steps to them.
  pub data Reach (models : Table String MockModel) (requests : List Request)
      : ℕ → Benchmark → Type 0 where
    start : Reach models requests 0 (new_benchmark models requests)
    then_step :
        {n : ℕ} {s t : Benchmark}
        → Reach models requests n s
        → Step s t
        → Reach models requests (n + 1) t
