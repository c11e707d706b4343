-- ===== src/LoadTest.antt =====
-- test/router_bench.go: the requests of the load test, the router that it compares with, and what it
-- reports. Texts are lists of bytes; `ToLower` is modelled for ASCII.
pub mod Models
pub mod Categories
use prompt_response.Common.{
  ℕ, ◌+◌, ◌*◌, ◌/◌, ◌-◌, Bool, true, false, not, ◌&&◌, ◌||◌, String, List, [], ◌∷◌, ◌++◌, map,
  Option, none, some, if◌then◌else◌, str_eq, ltb, codes, length, contains, to_lower, Table,
  lookup_or, insert, string_eq,
}

pub record Request : Type 0 where
  pub text : List ℕ
  pub input_tokens : ℕ
  pub max_output_tokens : ℕ
  pub ideal_model : String
  pub category : String
  pub question_id : ℕ
  pub turns : List (List ℕ)

-- Some keyword stands in the text.
unfoldable pub has_keyword : List ℕ → List String → Bool
has_keyword text [] = false
has_keyword text (kw ∷ kws) = contains text (codes kw) || has_keyword text kws

abbrev pub code_keywords : List String
code_keywords =
    "code" ∷ "function" ∷ "implement" ∷ "debug" ∷ "script" ∷ "parser" ∷ "compile" ∷ "refactor"
    ∷ "api endpoint" ∷ "class" ∷ "struct" ∷ []

abbrev pub reasoning_keywords : List String
reasoning_keywords =
    "explain" ∷ "why" ∷ "step by step" ∷ "analyze" ∷ "compare" ∷ "reason" ∷ "think through"
    ∷ "evaluate" ∷ "pros and cons" ∷ []

abbrev pub large_keywords : List String
large_keywords =
    "essay" ∷ "research" ∷ "paper" ∷ "comprehensive" ∷ "detailed analysis" ∷ "write a report"
    ∷ "in depth" ∷ []

-- `KeywordRouter.Route`.
unfoldable pub keyword_route : Request → String
unfolding has_keyword contains to_lower
keyword_route req =
    let text = map to_lower req.text in
    if has_keyword text code_keywords
    then "code"
    else if has_keyword text reasoning_keywords
    then "reasoning"
    else if has_keyword text large_keywords
    then "large"
    else if ltb req.input_tokens 50 && ltb req.max_output_tokens 100
    then "small"
    else "reasoning"

pub record MtBenchPrompt : Type 0 where
  pub question_id : ℕ
  pub category : String
  pub turns : List (List ℕ)

abbrev pub category_model_map : Table String String
category_model_map =
    ("writing", "small")
    ∷ ("roleplay", "small")
    ∷ ("extraction", "small")
    ∷ ("stem", "reasoning")
    ∷ ("reasoning", "reasoning")
    ∷ ("math", "reasoning")
    ∷ ("coding", "code")
    ∷ ("humanities", "reasoning")
    ∷ []

unfoldable pub bench_tokens : List ℕ → ℕ
bench_tokens text = let t = length text / 4 in if ltb t 5 then 5 else t

unfoldable pub estimate_output_tokens : String → ℕ
estimate_output_tokens category =
    if str_eq category "coding"
    then 500
    else if str_eq category "writing"
    then 400
    else if str_eq category "reasoning" || (str_eq category "math" || str_eq category "stem")
    then 600
    else if str_eq category "roleplay"
    then 300
    else if str_eq category "extraction"
    then 200
    else if str_eq category "humanities"
    then 500
    else 400

unfoldable pub ideal_for : String → String
ideal_for category =
    let ideal = lookup_or "" category category_model_map in
    if str_eq ideal "" then "reasoning" else ideal

-- A prompt without turns is left out.
request_of : MtBenchPrompt → List (List ℕ) → List Request → List Request
request_of p [] rest = rest
request_of p (text ∷ more) rest =
    let req : Request = record {
      text = text;
      input_tokens = bench_tokens text;
      max_output_tokens = estimate_output_tokens p.category;
      ideal_model = ideal_for p.category;
      category = p.category;
      question_id = p.question_id;
      turns = p.turns;
    } in
    req ∷ rest

unfoldable pub mt_bench_to_requests : List MtBenchPrompt → List Request
unfolding request_of bench_tokens estimate_output_tokens ideal_for
mt_bench_to_requests [] = []
mt_bench_to_requests (p ∷ ps) = request_of p p.turns (mt_bench_to_requests ps)

-- A request that was answered, without its times.
pub record GenerateResult : Type 0 where
  pub model : String
  pub output_toks : ℕ
  pub input_toks : ℕ
  pub routed_to : String
  pub ideal_model : String
  pub is_correct : Bool
  pub category : String
  pub question_id : ℕ
  pub request_text : List ℕ

-- Why a request failed.
pub data Reason : Type 0 where
  unknown_model queue_timeout out_of_cache : Reason

pub record GenerateError : Type 0 where
  pub routed_to : String
  pub ideal_model : String
  pub reason : Reason
  pub request_text : List ℕ

-- The results that were routed as they should be.
unfoldable pub correct_of : List GenerateResult → ℕ
correct_of [] = 0
correct_of (s ∷ ss) = (if s.is_correct then 1 else 0) + correct_of ss

-- `AccuracyByCategory`, after the entries that are in the map: the correct ones and all of them.
unfoldable pub count_category : Table String (ℕ × ℕ) → GenerateResult → Table String (ℕ × ℕ)
count_category m s =
    let entry = lookup_or (0, 0) s.category m in
    insert s.category (entry.0 + (if s.is_correct then 1 else 0), entry.1 + 1) m

unfoldable pub categories_after : Table String (ℕ × ℕ) → List GenerateResult → Table String (ℕ × ℕ)
categories_after m [] = m
categories_after m (s ∷ ss) = categories_after (count_category m s) ss

unfoldable pub accuracy_by_category : List GenerateResult → Table String (ℕ × ℕ)
unfolding categories_after count_category
accuracy_by_category ss = categories_after [] ss

unfoldable pub misrouted : List GenerateResult → List GenerateResult
misrouted [] = []
misrouted (s ∷ ss) = let rest = misrouted ss in if s.is_correct then rest else s ∷ rest
