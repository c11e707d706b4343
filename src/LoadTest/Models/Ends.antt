-- ===== src/LoadTest/Models/Ends.antt =====
-- test/router_bench.go, `RunBenchmark`: every run comes to its end, with each request reported once and
-- nothing of the models left in use.
use prompt_response.Common.{
  ℕ, ◌+◌, ◌*◌, ◌≤◌, ◌<◌, ◌≡◌, refl, sym, ap, ◌∙◌, subst, Bool, true, false, String, List, [], ◌∷◌,
  ◌++◌, some, if◌then◌else◌, str_eq, Table, lookup, string_eq, length, All, arith,
}
use prompt_response.LoadTest.{Request, GenerateResult, GenerateError, Reason, unknown_model}
use prompt_response.LoadTest.Models.{
  ModelProfile, MockModel, build_mock_models, Phase, spawned, queued, slotted, generating, answered,
  refused, succeeded, failed, ended, Job, job, World, success_of, error_of, Act, unknown_key,
  known_key, got_slot, timed_out, reserved, no_cache, gave_back, released, released_refused, added,
  reported, Benchmark, act, spawn, Reach, start, then_step,
}
use prompt_response.LoadTest.Models.Slots.{total, total-append, holds, keeps, Reach-Fits}

-- The steps that a phase has left, at most.
abbrev pub left_in : Phase → ℕ
left_in spawned = 6
left_in queued = 5
left_in slotted = 4
left_in generating = 3
left_in answered = 2
left_in refused = 2
left_in (succeeded key) = 1
left_in (failed why) = 1
left_in ended = 0

abbrev pub left : Job → ℕ
left j = left_in j.phase

abbrev has_ended : Phase → Bool
has_ended ended = true
has_ended _ = false

abbrev pub AllEnded : List Job → Type 0
AllEnded = All (λ (j : Job). j.phase ≡ ended)

-- How many texts pass a test.
abbrev pub count : (List ℕ → Bool) → List (List ℕ) → ℕ
count f [] = 0
count f (t ∷ ts) = (if f t then 1 else 0) + count f ts

count-append :
    (f : List ℕ → Bool) (xs ys : List (List ℕ)) → count f (xs ++ ys) ≡ count f xs + count f ys
count-append f [] ys = omega arith
count-append f (x ∷ xs) ys = omega (arith, count-append f xs ys)

abbrev pub answered_texts : List GenerateResult → List (List ℕ)
answered_texts [] = []
answered_texts (s ∷ ss) = s.request_text ∷ answered_texts ss

abbrev pub failed_texts : List GenerateError → List (List ℕ)
failed_texts [] = []
failed_texts (e ∷ es) = e.request_text ∷ failed_texts es

abbrev pub texts : List Request → List (List ℕ)
texts [] = []
texts (r ∷ rs) = r.text ∷ texts rs

answered_texts-append :
    (xs ys : List GenerateResult)
    → answered_texts (xs ++ ys) ≡ answered_texts xs ++ answered_texts ys
answered_texts-append [] ys = refl
answered_texts-append (x ∷ xs) ys = ap (λ q. x.request_text ∷ q) (answered_texts-append xs ys)

failed_texts-append :
    (xs ys : List GenerateError) → failed_texts (xs ++ ys) ≡ failed_texts xs ++ failed_texts ys
failed_texts-append [] ys = refl
failed_texts-append (x ∷ xs) ys = ap (λ q. x.request_text ∷ q) (failed_texts-append xs ys)

-- What is reported, by a test on the texts.
abbrev pub reports : (List ℕ → Bool) → World → ℕ
reports f w = count f (answered_texts w.successes) + count f (failed_texts w.errors)

-- What the requests that have ended come to.
abbrev finished : (List ℕ → Bool) → Job → ℕ
finished f j = if has_ended j.phase then (if f j.request.text then 1 else 0) else 0

abbrev by_text : (List ℕ → Bool) → Job → ℕ
by_text f j = if f j.request.text then 1 else 0

either-none : (b : Bool) → ◌≡◌ {A = ℕ} (if b then 0 else 0) 0
either-none true = refl
either-none false = refl

total-ended :
    (f : List ℕ → Bool) (jobs : List Job)
    → AllEnded jobs
    → total (finished f) jobs ≡ total (by_text f) jobs
total-ended f [] h = refl
total-ended f (j ∷ js) h =
    let here : finished f j ≡ (if f j.request.text then 1 else 0) =
      ap (λ p. if has_ended p then (if f j.request.text then 1 else 0) else 0) h.0 in
    omega (arith, here, total-ended f js h.1)

module _ (route : Request → String) where
  -- An act takes at least one of the steps left.
  Act-left :
      {w : World} {r : Request} {p p' : Phase} {w' : World}
      → Act route w r p p' w'
      → left_in p' < left_in p
  Act-left (unknown_key e) = omega arith
  Act-left (known_key m e) = omega arith
  Act-left (got_slot m long e room) = omega arith
  Act-left (timed_out m e) = omega arith
  Act-left (reserved m e room) = omega arith
  Act-left (no_cache m e full) = omega arith
  Act-left (gave_back m e) = omega arith
  Act-left (released m e) = omega arith
  Act-left (released_refused m e) = omega arith
  Act-left (added key) = omega arith
  Act-left (reported why) = omega arith

  total-spawn-left : (rs : List Request) → total left (spawn route rs) ≡ 6 * length rs
  total-spawn-left [] = omega arith
  total-spawn-left (r ∷ rs) = omega (arith, total-spawn-left rs)

  -- An act reports what it ends.
  reports-error :
      (f : List ℕ → Bool) (w : World) (r : Request) (why : Reason)
      → reports f (record w { errors = w.errors ++ (error_of route r why ∷ []) })
        ≡ reports f w + (if f r.text then 1 else 0)
  unfolding error_of
  reports-error f w r why = omega (
    arith,
    ap (count f) (failed_texts-append w.errors (error_of route r why ∷ [])),
    count-append f (failed_texts w.errors) (r.text ∷ []),
  )

  reports-success :
      (f : List ℕ → Bool) (w : World) (r : Request) (key : String)
      → reports f (record w { successes = w.successes ++ (success_of route key r ∷ []) })
        ≡ reports f w + (if f r.text then 1 else 0)
  unfolding success_of
  reports-success f w r key = omega (
    arith,
    ap (count f) (answered_texts-append w.successes (success_of route key r ∷ [])),
    count-append f (answered_texts w.successes) (r.text ∷ []),
  )

  Act-reports :
      (f : List ℕ → Bool) {w : World} {r : Request} {p p' : Phase} {w' : World}
      → Act route w r p p' w'
      → reports f w' + finished f (job r p) ≡ reports f w + finished f (job r p')
  Act-reports f {w} {r} (unknown_key e) = omega (arith, reports-error f w r unknown_model)
  Act-reports f {w} {r} (added key) = omega (arith, reports-success f w r key)
  Act-reports f {w} {r} (reported why) = omega (arith, reports-error f w r why)
  Act-reports f (known_key m e) = refl
  Act-reports f (got_slot m long e room) = refl
  Act-reports f (timed_out m e) = refl
  Act-reports f (reserved m e room) = refl
  Act-reports f (no_cache m e full) = refl
  Act-reports f (gave_back m e) = refl
  Act-reports f (released m e) = refl
  Act-reports f (released_refused m e) = refl

  total-spawn-none :
      (f : Job → ℕ) (rs : List Request)
      → ((r : Request) → f (job r spawned) ≡ 0)
      → total f (spawn route rs) ≡ 0
  total-spawn-none f [] h = refl
  total-spawn-none f (r ∷ rs) h = omega (arith, h r, total-spawn-none f rs h)

  total-spawn-text :
      (f : List ℕ → Bool) (rs : List Request)
      → total (by_text f) (spawn route rs) ≡ count f (texts rs)
  total-spawn-text f [] = refl
  total-spawn-text f (r ∷ rs) = omega (arith, total-spawn-text f rs)

  module _ (models : Table String MockModel) (requests : List Request) where
    pub Reach-left :
        {n : ℕ} {s : Benchmark route}
        → Reach route models requests n s
        → n + total left s.jobs ≤ 6 * length requests
    Reach-left start = omega (arith, total-spawn-left requests)
    Reach-left (then_step {n} {s} r (act before after q {p} {p'} here a)) =
        let so_far : n + total left (before ++ (job q p ∷ after)) ≤ 6 * length requests =
          subst (λ js. n + total left js ≤ 6 * length requests) here (Reach-left r) in
        omega (
          arith,
          so_far,
          Act-left a,
          total-append left before (job q p) after,
          total-append left before (job q p') after,
        )

    Reach-reports :
        (f : List ℕ → Bool) {n : ℕ} {s : Benchmark route}
        → Reach route models requests n s
        → reports f s.world ≡ total (finished f) s.jobs
    Reach-reports f start = sym (total-spawn-none (finished f) requests (λ r. refl))
    Reach-reports f (then_step {n} {s} r (act before after q {p} {p'} here a)) =
        let so_far = Reach-reports f r ∙ ap (total (finished f)) here in
        omega (
          arith,
          so_far,
          Act-reports f a,
          total-append (finished f) before (job q p) after,
          total-append (finished f) before (job q p') after,
        )

    Reach-texts :
        (f : List ℕ → Bool) {n : ℕ} {s : Benchmark route}
        → Reach route models requests n s
        → total (by_text f) s.jobs ≡ count f (texts requests)
    Reach-texts f start = total-spawn-text f requests
    Reach-texts f (then_step {n} {s} r (act before after q {p} {p'} here a)) =
        let so_far = sym (ap (total (by_text f)) here) ∙ Reach-texts f r in
        omega (
          arith,
          so_far,
          total-append (by_text f) before (job q p) after,
          total-append (by_text f) before (job q p') after,
        )

  nothing-held :
      (f : Job → ℕ) (jobs : List Job)
      → ((r : Request) → f (job r ended) ≡ 0)
      → AllEnded jobs
      → total f jobs ≡ 0
  nothing-held f [] h all = refl
  nothing-held f (j ∷ js) h all =
      let here : f j ≡ 0 = ap (λ p. f (job j.request p)) all.0 ∙ h j.request in
      omega (arith, here, nothing-held f js h all.1)

  -- When all requests of a benchmark of models as they are built have ended, in whatever order they
  -- ran: the texts of the answers and of the errors are together those of the requests, each as often
  -- as it was asked (by any test on texts); and no model has a slot or a part of its cache in use.
  pub ended-reports :
      (cfg : List (String × ModelProfile)) (requests : List Request) {n : ℕ} {s : Benchmark route}
      → Reach route (build_mock_models cfg) requests n s
      → AllEnded s.jobs
      → ((f : List ℕ → Bool)
          → count f (answered_texts s.world.successes) + count f (failed_texts s.world.errors)
            ≡ count f (texts requests))
        × ((k : String) (m : MockModel)
            → lookup k s.world.models ≡ some m
            → (m.sem ≡ 0) × (m.kv_cache_used ≡ 0))
  ended-reports cfg requests {n} {s} r all = (
    λ f.
        Reach-reports (build_mock_models cfg) requests f r
        ∙ total-ended f s.jobs all
        ∙ Reach-texts (build_mock_models cfg) requests f r,
    λ k m e.
        let fits = Reach-Fits route cfg requests r k m e in
        (
          fits.slots
              ∙ nothing-held (holds route k) s.jobs (λ r. either-none (str_eq (route r) k)) all,
          fits.cache
              ∙ nothing-held (keeps route k m) s.jobs (λ r. either-none (str_eq (route r) k)) all,
        ),
  )
