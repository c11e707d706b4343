-- ===== src/Config/Replicas/Routed.antt =====
-- The replica list of a configuration that passes `validate`: every classification is routed, by a
-- matching tier or by the one fallback tier, and never by size.
use prompt_response.Common.{
  ℕ, ◌≡◌, refl, ap, ◌∙◌, false, String, List, [], ◌∷◌, ◌++◌, none, some, if◌then◌else◌, str_eq,
  str_eq_refl, Float, All, All-append, Bool-cases, inl, inr, ◌⊎◌, arith, map, ltb_ℤ,
}
use prompt_response.Types.{TierRouting, Replica, ClassifierResult}
use prompt_response.Types.Tiers.{first_fallback, tier_for_classification, or_else, largest_tier}
use prompt_response.Types.Select.{first_explicit, Agrees, tier_for_classification_lem}
use prompt_response.Scorer.Maximum.{Any, All-zip}
use prompt_response.Scorer.Picks.{IsNamed}
use prompt_response.Config.{Config, ModelTier, ReplicaConfig}
use prompt_response.Config.Check.{validate, has_name, lacks_models}
use prompt_response.Config.Replicas.{
  insert_tier, sort_tiers, tier_config, replica_of, flatten, to_replica_list,
}
use prompt_response.Config.Replicas.Distinct.{
  IsComplete, IsFallback, Fresh, Checked, validate-Checked,
}

pub All-map_of :
    {A B : Type 0} (P : B → Type 0) (f : A → B) (xs : List A)
    → All (λ x. P (f x)) xs
    → All P (map f xs)
All-map_of P f [] h = tt
All-map_of P f (x ∷ xs) h = (h.0, All-map_of P f xs h.1)

pub All-imply :
    {A : Type 0} (P Q : A → Type 0) (xs : List A) → ((x : A) → P x → Q x) → All P xs → All Q xs
All-imply P Q [] f h = tt
All-imply P Q (x ∷ xs) f h = (f x h.0, All-imply P Q xs f h.1)

Any-with-All :
    {A : Type 0} (P Q : A → Type 0) (xs : List A) → All P xs → Any Q xs → Any (λ x. P x × Q x) xs
Any-with-All P Q [] p q = q
Any-with-All P Q (x ∷ xs) p (inl q) = inl (p.0, q)
Any-with-All P Q (x ∷ xs) p (inr q) = inr (Any-with-All P Q xs p.1 q)

All-models :
    (P : ReplicaConfig → Type 0) (ms : List ReplicaConfig) → ((m : ReplicaConfig) → P m) → All P ms
All-models P [] h = tt
All-models P (m ∷ ms) h = (h m, All-models P ms h)

module _ {N : Type 0} where
  -- Sorting keeps what holds of all the tiers, and of one of them.
  pub insert_tier-All :
      (P : ModelTier N → Type 0) (t : ModelTier N) (ts : List (ModelTier N))
      → P t
      → All P ts
      → All P (insert_tier t ts)
  unfolding insert_tier
  insert_tier-All P t [] p h = (p, tt)
  insert_tier-All P t (u ∷ us) p h = elim (Bool-cases (ltb_ℤ u.priority t.priority)) [
    | inl less ↦ rw less (h.0, insert_tier-All P t us p h.1)
    | inr more ↦ rw more (p, h)
  ]

  pub sort_tiers-All :
      (P : ModelTier N → Type 0) (ts : List (ModelTier N)) → All P ts → All P (sort_tiers ts)
  unfolding sort_tiers
  sort_tiers-All P [] h = tt
  sort_tiers-All P (t ∷ ts) h = insert_tier-All P t (sort_tiers ts) h.0 (sort_tiers-All P ts h.1)

  insert_tier-Any :
      (P : ModelTier N → Type 0) (t : ModelTier N) (ts : List (ModelTier N))
      → P t ⊎ Any P ts
      → Any P (insert_tier t ts)
  unfolding insert_tier
  insert_tier-Any P t [] h = h
  insert_tier-Any P t (u ∷ us) h = elim (Bool-cases (ltb_ℤ u.priority t.priority)) [
    | inl less ↦ rw less (elim h [
      | inl p ↦ inr (insert_tier-Any P t us (inl p))
      | inr (inl q) ↦ inl q
      | inr (inr r) ↦ inr (insert_tier-Any P t us (inr r))
    ])
    | inr more ↦ rw more h
  ]

  sort_tiers-Any :
      (P : ModelTier N → Type 0) (ts : List (ModelTier N)) → Any P ts → Any P (sort_tiers ts)
  unfolding sort_tiers
  sort_tiers-Any P [] h = h
  sort_tiers-Any P (t ∷ ts) (inl p) = insert_tier-Any P t (sort_tiers ts) (inl p)
  sort_tiers-Any P (t ∷ ts) (inr q) =
      insert_tier-Any P t (sort_tiers ts) (inr (sort_tiers-Any P ts q))

  pub flatten-All :
      (P : Replica N → Type 0) (size_of : String → ℕ) (ts : List (ModelTier N))
      → All (λ t. All (λ m. P (replica_of size_of t m)) t.models) ts
      → All P (flatten size_of ts)
  unfolding flatten
  flatten-All P size_of [] h = tt
  flatten-All P size_of (t ∷ ts) h =
      All-append P (map (replica_of size_of t) t.models) (flatten size_of ts)
        (All-map_of P (replica_of size_of t) t.models h.0) (flatten-All P size_of ts h.1)

  blank_routing : TierRouting N
  blank_routing = record { rules = []; task_types = []; code_signals = false; fallback = false }

  -- The routing of the tier with a name.
  abbrev routing_for : List (ModelTier N) → String → TierRouting N
  routing_for [] name = blank_routing
  routing_for (t ∷ ts) name = if str_eq t.name name then t.routing else routing_for ts name

module _ {N : Type 0} ⦃F : Float N⦄ where
  -- A fallback tier is found.
  abbrev Found : List (Replica N) → Type 0
  Found reps = (name : String) × (first_fallback reps ≡ some name)

  first_fallback-skip :
      (size_of : String → ℕ) (t : ModelTier N) (ms : List ReplicaConfig) (rest : List (Replica N))
      → Found rest
      → Found (map (replica_of size_of t) ms ++ rest)
  unfolding first_fallback replica_of tier_config
  first_fallback-skip size_of t [] rest found = found
  first_fallback-skip size_of t (m ∷ ms) rest found = elim (Bool-cases t.routing.fallback) [
    | inl here ↦ (t.name, rw here refl)
    | inr other ↦ let (name, e) = first_fallback-skip size_of t ms rest found in (name, rw other e)
  ]

  first_fallback-here :
      (size_of : String → ℕ) (t : ModelTier N) (ms : List ReplicaConfig) (rest : List (Replica N))
      → lacks_models ms ≡ false
      → IsFallback t
      → Found (map (replica_of size_of t) ms ++ rest)
  unfolding first_fallback replica_of tier_config lacks_models
  first_fallback-here size_of t [] rest has_one fallback = cc has_one
  first_fallback-here size_of t (m ∷ ms) rest has_one fallback = (t.name, rw fallback refl)

  flatten-Found :
      (size_of : String → ℕ) (ts : List (ModelTier N))
      → Any (λ t. (lacks_models t.models ≡ false) × IsFallback t) ts
      → Found (flatten size_of ts)
  unfolding flatten
  flatten-Found size_of [] h = absurd h
  flatten-Found size_of (t ∷ ts) (inl h) =
      first_fallback-here size_of t t.models (flatten size_of ts) h.0 h.1
  flatten-Found size_of (t ∷ ts) (inr h) =
      first_fallback-skip size_of t t.models (flatten size_of ts) (flatten-Found size_of ts h)

  -- The names are not among the first ones.
  Fresh-apart :
      (ns : List String) (ts : List (ModelTier N))
      → Fresh ns ts
      → All (λ t. has_name ns t.name ≡ false) ts
  unfolding has_name
  Fresh-apart ns [] h = tt
  Fresh-apart ns (t ∷ ts) h = (
    h.0,
    All-imply (λ u. has_name (t.name ∷ ns) u.name ≡ false) (λ u. has_name ns u.name ≡ false) ts
        (λ u e. ground arith) (Fresh-apart (t.name ∷ ns) ts h.1),
  )

  routing_for-own :
      (ns : List String) (ts : List (ModelTier N))
      → Fresh ns ts
      → All (λ t. t.routing ≡ routing_for ts t.name) ts
  unfolding has_name
  routing_for-own ns [] h = tt
  routing_for-own ns (t ∷ ts) h = (
    rw (str_eq_refl t.name) refl,
    All-zip (λ u. has_name (t.name ∷ ns) u.name ≡ false) (λ u. u.routing ≡ routing_for ts u.name)
        (λ u. u.routing ≡ routing_for (t ∷ ts) u.name) ts (λ u e same. ground arith)
        (Fresh-apart (t.name ∷ ns) ts h.1) (routing_for-own (t.name ∷ ns) ts h.1),
  )

module _ {N : Type 0} ⦃F : Float N⦄ (size_of : String → ℕ) where
  replicas-IsNamed :
      (cfg : Config N)
      → Checked [] false cfg.models
      → All IsNamed (to_replica_list size_of cfg.models)
  unfolding to_replica_list replica_of
  replicas-IsNamed cfg c = flatten-All IsNamed size_of (sort_tiers cfg.models) (
      sort_tiers-All (λ t. All (λ m. IsNamed (replica_of size_of t m)) t.models) cfg.models
        (All-imply IsComplete (λ t. All (λ m. IsNamed (replica_of size_of t m)) t.models) cfg.models
          (λ t complete. complete.ids) c.complete))

  replicas-Agrees :
      (cfg : Config N)
      → Checked [] false cfg.models
      → Agrees (routing_for cfg.models) (to_replica_list size_of cfg.models)
  unfolding to_replica_list replica_of tier_config
  replicas-Agrees cfg c =
      let Own : Replica N → Type 0 =
        λ rep. rep.tier_cfg.routing ≡ routing_for cfg.models rep.tier_cfg.name in
      flatten-All Own size_of (sort_tiers cfg.models) (
        sort_tiers-All (λ t. All (λ m. Own (replica_of size_of t m)) t.models) cfg.models
          (All-imply (λ t. t.routing ≡ routing_for cfg.models t.name)
            (λ t. All (λ m. Own (replica_of size_of t m)) t.models) cfg.models
            (λ t own. All-models (λ m. Own (replica_of size_of t m)) t.models (λ m. own))
            (routing_for-own [] cfg.models c.fresh)))

  replicas-Found :
      (cfg : Config N) → Checked [] false cfg.models → Found (to_replica_list size_of cfg.models)
  unfolding to_replica_list
  replicas-Found cfg c =
      let Good : ModelTier N → Type 0 = λ t. (lacks_models t.models ≡ false) × IsFallback t in
      let some_good : Any Good cfg.models = elim c.one_fallback [
        | inl before ↦ cc before
        | inr here ↦
            Any-with-All (λ t. lacks_models t.models ≡ false) IsFallback cfg.models
              (All-imply IsComplete (λ t. lacks_models t.models ≡ false) cfg.models
                (λ t complete. complete.has_models) c.complete)
              here
      ] in
      flatten-Found size_of (sort_tiers cfg.models) (sort_tiers-Any Good cfg.models some_good)

  -- In the replica list of a configuration that passes `validate`, every replica has an id, and
  -- there is a fallback tier: every classification gets the first tier in the list that is not a
  -- fallback and matches it, or else that fallback tier, and never the largest tier for want of
  -- one.
  pub validate-routes :
      (cfg : Config N)
      → validate cfg ≡ none
      → let reps = to_replica_list size_of cfg.models in
        All IsNamed reps
        × (fallback : String) × (first_fallback reps ≡ some fallback)
        × ((result : ClassifierResult N)
            → tier_for_classification reps result
              ≡ or_else (first_explicit result reps) (some fallback))
  unfolding or_else
  validate-routes cfg e =
      let c = (validate-Checked cfg e).0 in
      let reps = to_replica_list size_of cfg.models in
      let (fallback, found) = replicas-Found cfg c in
      (
        replicas-IsNamed cfg c,
        fallback,
        found,
        λ result.
            tier_for_classification_lem (routing_for cfg.models) result reps (replicas-Agrees cfg c)
            ∙ ap (λ f. or_else (first_explicit result reps) (or_else f (largest_tier reps))) found,
      )
