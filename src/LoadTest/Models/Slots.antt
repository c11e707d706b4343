-- ===== src/LoadTest/Models/Slots.antt =====
-- test/router_bench.go: a model's slots and its cache are those of the requests that have them.
use prompt_response.Common.{
  ℕ, ◌+◌, ◌*◌, ◌≤◌, ◌≡◌, refl, sym, ap, ◌∙◌, subst, Bool, true, false, String, List, [], ◌∷◌, ◌++◌,
  some, if◌then◌else◌, str_eq, str_eq_iff, str_eq_refl, lookup, lookup-insert, string_eq, arith,
  Bool-cases, inl, inr,
}
use prompt_response.LoadTest.{Request}
use prompt_response.LoadTest.Models.{
  unit, ModelProfile, MockModel, new_mock_model, build_mock_models, cache_needed, thousandths,
  acquire, reject, has_cache, reserve, give_back, release, Phase, spawned, queued, slotted,
  generating, answered, refused, succeeded, failed, ended, Job, job, World, with_model, Act,
  unknown_key, known_key, got_slot, timed_out, reserved, no_cache, gave_back, released,
  released_refused, added, reported, Benchmark, act, spawn, Reach, start, then_step,
}

-- The slots and the part of the cache that a phase holds.
abbrev pub slots_in : Phase → ℕ
slots_in slotted = 1
slots_in generating = 1
slots_in answered = 1
slots_in refused = 1
slots_in _ = 0

abbrev pub cache_in : ℕ → Phase → ℕ
cache_in part generating = part
cache_in part _ = 0

abbrev pub total : (Job → ℕ) → List Job → ℕ
total f [] = 0
total f (j ∷ js) = f j + total f js

pub total-append :
    (f : Job → ℕ) (before : List Job) (j : Job) (after : List Job)
    → total f (before ++ (j ∷ after)) ≡ f j + (total f before + total f after)
total-append f [] j after = omega arith
total-append f (b ∷ before) j after = omega (arith, total-append f before j after)

-- A model that is new has no slot and no cache in use.
build-fresh :
    (cfg : List (String × ModelProfile)) (k : String) (m : MockModel)
    → lookup k (build_mock_models cfg) ≡ some m
    → (m.sem ≡ 0) × (m.kv_cache_used ≡ 0)
unfolding build_mock_models new_mock_model lookup
build-fresh [] k m e = cc e
build-fresh ((j, p) ∷ cfg) k m e =
    let new = new_mock_model j p in
    let found = sym (lookup-insert j k new (build_mock_models cfg)) ∙ e in
    elim (Bool-cases (str_eq j k)) [
      | inl same ↦
          let this : some new ≡ some m = sym (rw same refl) ∙ found in
          let it : new ≡ m = cc this in
          (ap (λ (x : MockModel). x.sem) (sym it), ap (λ (x : MockModel). x.kv_cache_used) (sym it))
      | inr other ↦ build-fresh cfg k m (sym (rw other refl) ∙ found)
    ]

module _ (route : Request → String) where
  -- What a request holds of the model of a name.
  abbrev pub holds : String → Job → ℕ
  holds k j = if str_eq (route j.request) k then slots_in j.phase else 0

  abbrev pub keeps : String → MockModel → Job → ℕ
  keeps k m j =
      if str_eq (route j.request) k
      then cache_in (thousandths (cache_needed m j.request)) j.phase
      else 0

  -- A model with these requests: its taken slots are theirs, and not more than it has; its used cache
  -- is what they reserved, and not more than its size.
  pub record Fits (k : String) (m : MockModel) (jobs : List Job) : Type 0 where
    pub slots : m.sem ≡ total (holds k) jobs
    pub enough_slots : m.sem ≤ m.profile.max_concurrent
    pub cache : m.kv_cache_used ≡ total (keeps k m) jobs
    pub enough_cache : m.kv_cache_used * unit ≤ m.max_kv_cache * 1000

  -- A model after an act.
  abbrev changed : MockModel → ℕ → ℕ → ℕ → ℕ → MockModel
  changed m sem used waits late = record m {
    sem = sem;
    kv_cache_used = used;
    total_queued = waits;
    total_rejected = late;
  }

  -- What an act does to the model of its request.
  record Changes (r : Request) (p p' : Phase) (m : MockModel) (sem used : ℕ) : Type 0 where
    slots : slots_in p ≤ m.sem → sem + slots_in p ≡ m.sem + slots_in p'
    enough_slots : m.sem ≤ m.profile.max_concurrent → sem ≤ m.profile.max_concurrent
    cache :
        cache_in (thousandths (cache_needed m r)) p ≤ m.kv_cache_used
        → used + cache_in (thousandths (cache_needed m r)) p
          ≡ m.kv_cache_used + cache_in (thousandths (cache_needed m r)) p'
    enough_cache :
        m.kv_cache_used * unit ≤ m.max_kv_cache * 1000 → used * unit ≤ m.max_kv_cache * 1000

  holds_self : (r : Request) (p : Phase) → holds (route r) (job r p) ≡ slots_in p
  holds_self r p = rw (str_eq_refl (route r)) refl

  keeps_self :
      (m : MockModel) (r : Request) (p : Phase)
      → keeps (route r) m (job r p) ≡ cache_in (thousandths (cache_needed m r)) p
  keeps_self m r p = rw (str_eq_refl (route r)) refl

  module _ (before after : List Job) (r : Request) where
    abbrev jobs_at : Phase → List Job
    jobs_at q = before ++ (job r q ∷ after)

    total-slots :
        (p : Phase)
        → total (holds (route r)) (jobs_at p)
          ≡ slots_in p + (total (holds (route r)) before + total (holds (route r)) after)
    total-slots p =
        total-append (holds (route r)) before (job r p) after
        ∙ ap (λ n. n + (total (holds (route r)) before + total (holds (route r)) after))
            (holds_self r p)

    total-cache :
        (m : MockModel) (p : Phase)
        → total (keeps (route r) m) (jobs_at p)
          ≡ cache_in (thousandths (cache_needed m r)) p
            + (total (keeps (route r) m) before + total (keeps (route r) m) after)
    total-cache m p =
        total-append (keeps (route r) m) before (job r p) after
        ∙ ap (λ n. n + (total (keeps (route r) m) before + total (keeps (route r) m) after))
            (keeps_self m r p)

    Fits-changed :
        {p p' : Phase} {m : MockModel} {sem used : ℕ} (waits late : ℕ)
        → Changes r p p' m sem used
        → Fits (route r) m (jobs_at p)
        → Fits (route r) (changed m sem used waits late) (jobs_at p')
    Fits-changed {p} {p'} {m} waits late c f =
        let before_slots = total-slots p in
        let after_slots = total-slots p' in
        let before_cache = total-cache m p in
        let after_cache = total-cache m p' in
        record {
          slots = omega (
            arith,
            f.slots,
            before_slots,
            after_slots,
            c.slots (omega (arith, f.slots, before_slots)),
          );
          enough_slots = c.enough_slots f.enough_slots;
          cache = omega (
            arith,
            f.cache,
            before_cache,
            after_cache,
            c.cache (omega (arith, f.cache, before_cache)),
          );
          enough_cache = c.enough_cache f.enough_cache;
        }

    -- Another model, or an act that changes no model: the phases of the request hold the same.
    Fits-same :
        (k : String) (p p' : Phase) {m : MockModel}
        → holds k (job r p) ≡ holds k (job r p')
        → keeps k m (job r p) ≡ keeps k m (job r p')
        → Fits k m (jobs_at p)
        → Fits k m (jobs_at p')
    Fits-same k p p' {m} slots cache f = record {
      slots = omega (
        arith,
        f.slots,
        slots,
        total-append (holds k) before (job r p) after,
        total-append (holds k) before (job r p') after,
      );
      enough_slots = f.enough_slots;
      cache = omega (
        arith,
        f.cache,
        cache,
        total-append (keeps k m) before (job r p) after,
        total-append (keeps k m) before (job r p') after,
      );
      enough_cache = f.enough_cache;
    }

    -- All models of a world fit.
    abbrev AllFit : World → Phase → Type 0
    AllFit w q = (k : String) (m : MockModel) → lookup k w.models ≡ some m → Fits k m (jobs_at q)

    AllFit-changed :
        {p p' : Phase} {m : MockModel} {sem used : ℕ} (waits late : ℕ) (w : World)
        → lookup (route r) w.models ≡ some m
        → Changes r p p' m sem used
        → AllFit w p
        → AllFit (with_model w (route r) (changed m sem used waits late)) p'
    AllFit-changed {p} {p'} {m} {sem} {used} waits late w found c fit k n e =
        let m' = changed m sem used waits late in
        elim (Bool-cases (str_eq (route r) k)) [
          | inl same ↦
              let name = (str_eq_iff (route r) k).0 same in
              let now : some m' ≡ some n =
                sym (lookup-insert (route r) k m' w.models ∙ rw same refl) ∙ e in
              let this : m' ≡ n = cc now in
              subst (λ x. Fits x n (jobs_at p')) name
                (subst (λ x. Fits (route r) x (jobs_at p')) this
                  (Fits-changed waits late c (fit (route r) m found)))
          | inr other ↦
              let old : lookup k w.models ≡ some n =
                sym (lookup-insert (route r) k m' w.models ∙ rw other refl) ∙ e in
              Fits-same k p p' (rw other refl) (rw other refl) (fit k n old)
        ]

    -- An act that changes no model.
    AllFit-same :
        (p p' : Phase) (w w' : World)
        → w'.models ≡ w.models
        → slots_in p ≡ slots_in p'
        → ((n : ℕ) → cache_in n p ≡ cache_in n p')
        → AllFit w p
        → AllFit w' p'
    AllFit-same p p' w w' e slots cache fit k m found =
        Fits-same k p p' (ap (λ n. if str_eq (route r) k then n else 0) slots)
          (ap (λ n. if str_eq (route r) k then n else 0) (cache (thousandths (cache_needed m r))))
          (fit k m (ap (lookup k) (sym e) ∙ found))

    Act-AllFit : {p p' : Phase} {w w' : World} → Act route w r p p' w' → AllFit w p → AllFit w' p'
    unfolding acquire reject reserve has_cache give_back release
    Act-AllFit {w} {w'} (unknown_key e) fit =
        AllFit-same spawned ended w w' refl refl (λ n. refl) fit
    Act-AllFit {w} {w'} (known_key m e) fit =
        AllFit-same spawned queued w w' refl refl (λ n. refl) fit
    Act-AllFit {w} (got_slot m long e room) fit =
        AllFit-changed _ _ w e
          (record {
            slots = λ h. omega arith;
            enough_slots = λ h. omega arith;
            cache = λ h. refl;
            enough_cache = λ h. h;
          })
          fit
    Act-AllFit {w} (timed_out m e) fit =
        AllFit-changed _ _ w e
          (record {
            slots = λ h. refl;
            enough_slots = λ h. h;
            cache = λ h. refl;
            enough_cache = λ h. h;
          })
          fit
    Act-AllFit {w} (reserved m e room) fit =
        AllFit-changed _ _ w e
          (record {
            slots = λ h. refl;
            enough_slots = λ h. h;
            cache = λ h. omega arith;
            enough_cache = λ h. ground arith;
          })
          fit
    Act-AllFit {w} {w'} (no_cache m e full) fit =
        AllFit-same slotted refused w w' refl refl (λ n. refl) fit
    Act-AllFit {w} (gave_back m e) fit =
        AllFit-changed _ _ w e
          (record {
            slots = λ h. refl;
            enough_slots = λ h. h;
            cache = λ h. omega arith;
            enough_cache = λ h. omega arith;
          })
          fit
    Act-AllFit {w} (released m e) fit =
        AllFit-changed _ _ w e
          (record {
            slots = λ h. omega arith;
            enough_slots = λ h. omega arith;
            cache = λ h. refl;
            enough_cache = λ h. h;
          })
          fit
    Act-AllFit {w} (released_refused m e) fit =
        AllFit-changed _ _ w e
          (record {
            slots = λ h. omega arith;
            enough_slots = λ h. omega arith;
            cache = λ h. refl;
            enough_cache = λ h. h;
          })
          fit
    Act-AllFit {w} {w'} (added key) fit =
        AllFit-same (succeeded key) ended w w' refl refl (λ n. refl) fit
    Act-AllFit {w} {w'} (reported why) fit =
        AllFit-same (failed why) ended w w' refl refl (λ n. refl) fit

  total-spawn :
      (f : Job → ℕ) (rs : List Request)
      → ((r : Request) → f (job r spawned) ≡ 0)
      → total f (spawn route rs) ≡ 0
  total-spawn f [] h = refl
  total-spawn f (r ∷ rs) h = omega (arith, h r, total-spawn f rs h)

  none-held : (b : Bool) → ◌≡◌ {A = ℕ} (if b then 0 else 0) 0
  none-held true = refl
  none-held false = refl

  build-Fits :
      (cfg : List (String × ModelProfile)) (rs : List Request) (k : String) (m : MockModel)
      → lookup k (build_mock_models cfg) ≡ some m
      → Fits k m (spawn route rs)
  build-Fits cfg rs k m e =
      let (sem, used) = build-fresh cfg k m e in
      let slots = total-spawn (holds k) rs (λ r. none-held (str_eq (route r) k)) in
      let cache = total-spawn (keeps k m) rs (λ r. none-held (str_eq (route r) k)) in
      record {
        slots = omega (arith, sem, slots);
        enough_slots = omega (arith, sem);
        cache = omega (arith, used, cache);
        enough_cache = omega (arith, used);
      }

  -- In every state of a benchmark of models as they are built, whatever the order in which its
  -- requests run: a model's taken slots are exactly those of the requests that it works on, and not
  -- more than it has; and its used cache is exactly what its answering requests reserved, and not more
  -- than its size.
  pub Reach-Fits :
      (cfg : List (String × ModelProfile)) (requests : List Request) {n : ℕ} {s : Benchmark route}
      → Reach route (build_mock_models cfg) requests n s
      → (k : String) (m : MockModel) → lookup k s.world.models ≡ some m
      → Fits k m s.jobs
  Reach-Fits cfg requests start k m e = build-Fits cfg requests k m e
  Reach-Fits cfg requests (then_step {s} r (act before after q {p} {p'} {w} here a)) k m e =
      Act-AllFit before after q a (λ k m e. subst (Fits k m) here (Reach-Fits cfg requests r k m e))
        k m e
