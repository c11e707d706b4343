-- ===== src/LoadTest/Models/Progress.antt =====
-- test/router_bench.go, `RunBenchmark`: no run gets stuck, and none goes on for ever.
use prompt_response.Common.{
  ℕ, ◌*◌, ◌≤◌, ◌≡◌, ◌⊎◌, refl, ap, ◌∙◌, subst, Bool, true, false, String, List, [], ◌∷◌, ◌++◌, some,
  str_eq, Table, lookup, lookup-insert, string_eq, length, All, arith, Bool-cases, Option-cases,
  inl, inr,
}
use prompt_response.LoadTest.{Request}
use prompt_response.LoadTest.Models.{
  MockModel, has_cache, Phase, spawned, queued, slotted, generating, answered, refused, succeeded,
  failed, ended, Job, job, World, with_model, Act, unknown_key, known_key, got_slot, timed_out,
  reserved, no_cache, gave_back, released, released_refused, added, reported, Benchmark, Step, act,
  spawn, new_benchmark, Reach, start, then_step,
}
use prompt_response.LoadTest.Models.Ends.{AllEnded, Reach-left}

abbrev has_ended : Phase → Bool
has_ended ended = true
has_ended _ = false

-- The first request that has not ended.
Open : List Job → Type 0
Open jobs =
    (before : List Job) × (after : List Job) × (j : Job) × (jobs ≡ before ++ (j ∷ after))
    × (has_ended j.phase ≡ false)

ended-cases : (p : Phase) → (p ≡ ended) ⊎ (has_ended p ≡ false)
ended-cases ended = inl refl
ended-cases _ = inr refl

Open-cases : (jobs : List Job) → AllEnded jobs ⊎ Open jobs
unfolding Open
Open-cases [] = inl tt
Open-cases (j ∷ js) = further (ended-cases j.phase) (Open-cases js)
  where
    further :
        (j.phase ≡ ended) ⊎ (has_ended j.phase ≡ false)
        → AllEnded js ⊎ Open js
        → AllEnded (j ∷ js) ⊎ Open (j ∷ js)
    further (inr goes) rest = inr ([], js, j, refl, goes)
    further (inl done) (inl all) = inl (done, all)
    further (inl done) (inr (before, after, k, e, goes)) =
        inr (j ∷ before, after, k, ap (λ q. j ∷ q) e, goes)

module _ (route : Request → String) where
  -- The model of a request that was routed and has not ended is there.
  abbrev Found : World → Request → Type 0
  Found w r = (m : MockModel) × (lookup (route r) w.models ≡ some m)

  abbrev Knows : World → Request → Phase → Type 0
  Knows w r queued = Found w r
  Knows w r slotted = Found w r
  Knows w r generating = Found w r
  Knows w r answered = Found w r
  Knows w r refused = Found w r
  Knows w r _ = Unit

  abbrev KnowsAll : World → List Job → Type 0
  KnowsAll w = All (λ (j : Job). Knows w j.request j.phase)

  -- Models stay where they are.
  abbrev Stays : World → World → Type 0
  Stays w w' = (r : Request) → Found w r → Found w' r

  Stays-with_model : (w : World) (k : String) (m : MockModel) → Stays w (with_model w k m)
  Stays-with_model w k m r (n, e) = elim (Bool-cases (str_eq k (route r))) [
    | inl same ↦ (m, lookup-insert k (route r) m w.models ∙ rw same refl)
    | inr other ↦ (n, lookup-insert k (route r) m w.models ∙ rw other e)
  ]

  Act-Stays :
      {w : World} {r : Request} {p p' : Phase} {w' : World} → Act route w r p p' w' → Stays w w'
  Act-Stays (unknown_key e) = λ q h. h
  Act-Stays (known_key m e) = λ q h. h
  Act-Stays {w} (got_slot m long e room) = Stays-with_model w _ _
  Act-Stays {w} (timed_out m e) = Stays-with_model w _ _
  Act-Stays {w} (reserved m e room) = Stays-with_model w _ _
  Act-Stays (no_cache m e full) = λ q h. h
  Act-Stays {w} (gave_back m e) = Stays-with_model w _ _
  Act-Stays {w} (released m e) = Stays-with_model w _ _
  Act-Stays {w} (released_refused m e) = Stays-with_model w _ _
  Act-Stays (added key) = λ q h. h
  Act-Stays (reported why) = λ q h. h

  Knows-Stays : (w w' : World) (r : Request) (p : Phase) → Stays w w' → Knows w r p → Knows w' r p
  Knows-Stays w w' r queued s h = s r h
  Knows-Stays w w' r slotted s h = s r h
  Knows-Stays w w' r generating s h = s r h
  Knows-Stays w w' r answered s h = s r h
  Knows-Stays w w' r refused s h = s r h
  Knows-Stays w w' r _ s h = tt

  Act-Knows :
      {w : World} {r : Request} {p p' : Phase} {w' : World} → Act route w r p p' w' → Knows w' r p'
  Act-Knows (unknown_key e) = tt
  Act-Knows (known_key m e) = (m, e)
  Act-Knows {w} {r} (got_slot m long e room) = Stays-with_model w _ _ r (m, e)
  Act-Knows (timed_out m e) = tt
  Act-Knows {w} {r} (reserved m e room) = Stays-with_model w _ _ r (m, e)
  Act-Knows (no_cache m e full) = (m, e)
  Act-Knows {w} {r} (gave_back m e) = Stays-with_model w _ _ r (m, e)
  Act-Knows (released m e) = tt
  Act-Knows (released_refused m e) = tt
  Act-Knows (added key) = tt
  Act-Knows (reported why) = tt

  KnowsAll-Act :
      (before after : List Job) {w : World} {r : Request} {p p' : Phase} {w' : World}
      → Act route w r p p' w'
      → KnowsAll w (before ++ (job r p ∷ after))
      → KnowsAll w' (before ++ (job r p' ∷ after))
  KnowsAll-Act [] after {w} {r} {p} {p'} {w'} a h = (Act-Knows a, rest after h.1)
    where
      rest : (js : List Job) → KnowsAll w js → KnowsAll w' js
      rest [] k = tt
      rest (j ∷ js) k = (Knows-Stays w w' j.request j.phase (Act-Stays a) k.0, rest js k.1)
  KnowsAll-Act (b ∷ before) after {w} {r} {p} {p'} {w'} a h =
      (Knows-Stays w w' b.request b.phase (Act-Stays a) h.0, KnowsAll-Act before after a h.1)

  -- Unless it has ended, a request can go on.
  abbrev GoesOn : World → Request → Phase → Type 0
  GoesOn w r p = (p' : Phase) × (w' : World) × Act route w r p p' w'

  goes_on : (w : World) (r : Request) (p : Phase) → Knows w r p → has_ended p ≡ false → GoesOn w r p
  goes_on w r spawned k h = elim (Option-cases (lookup (route r) w.models)) [
    | inl missing ↦ (_, _, unknown_key missing)
    | inr (m, e) ↦ (_, _, known_key m e)
  ]
  goes_on w r queued (m, e) h = (_, _, timed_out m e)
  goes_on w r slotted (m, e) h = elim (Bool-cases (has_cache m r)) [
    | inl room ↦ (_, _, reserved m e room)
    | inr full ↦ (_, _, no_cache m e full)
  ]
  goes_on w r generating (m, e) h = (_, _, gave_back m e)
  goes_on w r answered (m, e) h = (_, _, released m e)
  goes_on w r refused (m, e) h = (_, _, released_refused m e)
  goes_on w r (succeeded key) k h = (_, _, added key)
  goes_on w r (failed why) k h = (_, _, reported why)
  goes_on w r ended k h = cc h

  spawn-KnowsAll : (w : World) (rs : List Request) → KnowsAll w (spawn route rs)
  spawn-KnowsAll w [] = tt
  spawn-KnowsAll w (r ∷ rs) = (tt, spawn-KnowsAll w rs)

  module _ (models : Table String MockModel) (requests : List Request) where
    Reach-KnowsAll :
        {n : ℕ} {s : Benchmark route} → Reach route models requests n s → KnowsAll s.world s.jobs
    Reach-KnowsAll start = spawn-KnowsAll (new_benchmark route models requests).world requests
    Reach-KnowsAll (then_step {n} {s} r (act before after q {p} {p'} here a)) =
        KnowsAll-Act before after a (subst (KnowsAll s.world) here (Reach-KnowsAll r))

    KnowsAll-at :
        (w : World) (before after : List Job) (j : Job)
        → KnowsAll w (before ++ (j ∷ after))
        → Knows w j.request j.phase
    KnowsAll-at w [] after j h = h.0
    KnowsAll-at w (b ∷ before) after j h = KnowsAll-at w before after j h.1

    Open-Step :
        (s : Benchmark route)
        → KnowsAll s.world s.jobs
        → Open s.jobs
        → (t : Benchmark route) × Step route s t
    unfolding Open
    Open-Step s known (before, after, j, e, goes) =
        let here = KnowsAll-at s.world before after j (subst (KnowsAll s.world) e known) in
        let (p', w', a) = goes_on s.world j.request j.phase here goes in
        (_, act before after j.request e a)

    -- Whatever the order in which its requests run, a benchmark takes at most six steps for each of
    -- them; and in every state that it reaches, all of them have ended, or some request can take a step.
    pub Reach-goes_on :
        {n : ℕ} {s : Benchmark route}
        → Reach route models requests n s
        → (n ≤ 6 * length requests) × (AllEnded s.jobs ⊎ ((t : Benchmark route) × Step route s t))
    Reach-goes_on {n} {s} r =
        (omega (arith, Reach-left route models requests r), step_or_end (Open-cases s.jobs))
      where
        step_or_end :
            AllEnded s.jobs ⊎ Open s.jobs
            → AllEnded s.jobs ⊎ ((t : Benchmark route) × Step route s t)
        step_or_end (inl all) = inl all
        step_or_end (inr o) = inr (Open-Step s (Reach-KnowsAll r) o)
