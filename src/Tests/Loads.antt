-- ===== src/Tests/Loads.antt =====
-- A benchmark of one mock model and two requests, and the results of a load test.
use prompt_response.Common.{
  ℕ, ◌+◌, ◌*◌, ◌≤◌, ◌≡◌, ◌⊎◌, refl, Bool, false, lookup_or, String, List, [], ◌∷◌, some,
  if◌then◌else◌, str_eq, codes, length, lookup, insert, string_eq, arith,
}
use prompt_response.LoadTest.{Request, keyword_route, mt_bench_to_requests}
use prompt_response.LoadTest.Models.{
  ModelProfile, MockModel, new_mock_model, build_mock_models, acquire, has_cache, reserve,
  give_back, spawned, slotted, generating, ended, job, Benchmark, Step, unknown_key, known_key,
  got_slot, reserved, gave_back, released, added, act, Reach, start, then_step,
}
use prompt_response.LoadTest.Models.Slots.{Fits, Reach-Fits}
use prompt_response.LoadTest.Models.Ends.{
  AllEnded, count, answered_texts, failed_texts, texts, ended-reports,
}
use prompt_response.LoadTest.Models.Progress.{Reach-goes_on}

abbrev ask : String → Request
ask text = record {
  text = codes text;
  input_tokens = 10;
  max_output_tokens = 200;
  ideal_model = "small";
  category = "writing";
  question_id = 1;
  turns = codes text ∷ [];
}

keyword_route_code : keyword_route (ask "Please Debug this") ≡ "code"
unfolding keyword_route
keyword_route_code = refl

keyword_route_default : keyword_route (ask "hello") ≡ "reasoning"
unfolding keyword_route
keyword_route_default = refl

-- Requests for `hello` go to the model, all others to none.
abbrev route : Request → String
route r = if str_eq r.category "writing" then "small" else "absent"

abbrev hello : Request
hello = ask "hello"

abbrev lost : Request
lost = record (ask "lost") { category = "other" }

abbrev profile : ModelProfile
profile = record { vram_weights = 750000; kv_cache_per_token = 40000; max_concurrent = 1 }

abbrev cfg : List (String × ModelProfile)
cfg = ("small", profile) ∷ []

abbrev asked : List Request
asked = hello ∷ lost ∷ []

abbrev model : MockModel
model = new_mock_model "small" profile

-- The request gets a slot and its part of the cache, while the other one finds no model.
one_answering :
    (s : Benchmark route) × Reach route (build_mock_models cfg) asked 4 s
    × (s.jobs ≡ job hello generating ∷ job lost ended ∷ [])
unfolding build_mock_models new_mock_model lookup insert has_cache acquire reserve
one_answering = (
  _,
  then_step
      (then_step
        (then_step
          (then_step start (act [] (job lost spawned ∷ []) hello refl (known_key model refl)))
          (act [] (job lost spawned ∷ []) hello refl (got_slot model false refl (omega arith))))
        (act (job hello slotted ∷ []) [] lost refl (unknown_key refl)))
      (act [] (job lost ended ∷ []) hello refl (reserved (acquire model false) refl refl)),
  refl,
)

Reach-Fits_example :
    Fits route "small"
      (reserve (acquire model false) hello)
      (job hello generating ∷ job lost ended ∷ [])
unfolding one_answering build_mock_models new_mock_model lookup insert acquire reserve
Reach-Fits_example =
    Reach-Fits route cfg asked one_answering.1 "small" (reserve (acquire model false) hello) refl

Reach-goes_on_example :
    (4 ≤ 6 * length asked)
    × (AllEnded one_answering.0.jobs ⊎ ((t : Benchmark route) × Step route one_answering.0 t))
Reach-goes_on_example = Reach-goes_on route (build_mock_models cfg) asked one_answering.1

-- The same run to its end.
all_ended :
    (s : Benchmark route) × Reach route (build_mock_models cfg) asked 7 s
    × (s.jobs ≡ job hello ended ∷ job lost ended ∷ [])
unfolding one_answering build_mock_models new_mock_model lookup insert acquire reserve give_back
all_ended =
    let m = reserve (acquire model false) hello in
    let m' = give_back m hello in
    (
      _,
      then_step
          (then_step
            (then_step one_answering.1 (act [] (job lost ended ∷ []) hello refl (gave_back m refl)))
            (act [] (job lost ended ∷ []) hello refl (released m' refl)))
          (act [] (job lost ended ∷ []) hello refl (added "small")),
      refl,
    )

ended-reports_example :
    ((f : List ℕ → Bool)
      → count f (answered_texts all_ended.0.world.successes)
          + count f (failed_texts all_ended.0.world.errors)
        ≡ count f (texts asked))
    × ((k : String) (m : MockModel)
        → lookup k all_ended.0.world.models ≡ some m
        → (m.sem ≡ 0) × (m.kv_cache_used ≡ 0))
unfolding all_ended
ended-reports_example = ended-reports route cfg asked all_ended.1 (refl, (refl, tt))

-- A prompt without turns is no request.
requests_of_prompts :
    mt_bench_to_requests (
      record { question_id = 81; category = "coding"; turns = codes "write a parser" ∷ [] }
      ∷ record { question_id = 82; category = "math"; turns = [] }
      ∷ [])
    ≡ record {
      text = codes "write a parser";
      input_tokens = 5;
      max_output_tokens = 500;
      ideal_model = "code";
      category = "coding";
      question_id = 81;
      turns = codes "write a parser" ∷ [];
    }
      ∷ []
unfolding mt_bench_to_requests lookup_or
requests_of_prompts = refl
