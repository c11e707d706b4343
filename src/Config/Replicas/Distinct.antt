-- ===== src/Config/Replicas/Distinct.antt =====
-- What a configuration that passes `validate` is like: its tiers have names of their own and models
-- with ids, and one of them is a fallback.
use prompt_response.Common.{
  ◌≡◌, refl, Bool, true, false, ◌||◌, String, List, [], ◌∷◌, Option, none, str_eq, Float, ℤ, All,
  Bool-cases, inl, inr, ◌⊎◌,
}
use prompt_response.Types.{RoutingRule}
use prompt_response.Config.{Config, ModelTier, ReplicaConfig}
use prompt_response.Config.Check.{
  Problem, no_fallback, check_settings, refuse, has_name, lacks_models, check_models, check_rules,
  check_tiers, validate, check_listed,
}
use prompt_response.Scorer.Maximum.{Any}

pub refuse-none :
    (c : Bool) (p : Problem) (next : Option Problem)
    → refuse c p next ≡ none
    → (c ≡ false) × (next ≡ none)
unfolding refuse
refuse-none true p next e = cc e
refuse-none false p next e = (refl, e)

-- The replica has an id.
abbrev pub HasId : ReplicaConfig → Type 0
HasId m = str_eq m.id "" ≡ false

check_models-none :
    (ms : List ReplicaConfig) (next : Option Problem)
    → check_models ms next ≡ none
    → All HasId ms × (next ≡ none)
unfolding check_models
check_models-none [] next e = (tt, e)
check_models-none (m ∷ ms) next e =
    let (has_id, e₁) = refuse-none (str_eq m.id "") _ _ e in
    let (has_url, e₂) = refuse-none (str_eq m.url "") _ _ e₁ in
    let (has_model, e₃) = refuse-none (str_eq m.model "") _ _ e₂ in
    let (all, rest) = check_models-none ms next e₃ in ((has_id, all), rest)

module _ {N : Type 0} ⦃F : Float N⦄ where
  check_rules-none :
      (rs : List (RoutingRule N)) (next : Option Problem) → check_rules rs next ≡ none → next ≡ none
  unfolding check_rules
  check_rules-none [] next e = e
  check_rules-none (r ∷ rs) next e =
      let (a, e₁) = refuse-none _ _ _ e in
      let (b, e₂) = refuse-none _ _ _ e₁ in
      let (c, e₃) = refuse-none _ _ _ e₂ in
      let (d, e₄) = refuse-none _ _ _ e₃ in
      let (f, e₅) = refuse-none _ _ _ e₄ in check_rules-none rs next e₅

  -- A tier that has models, all with ids.
  pub record IsComplete (t : ModelTier N) : Type 0 where
    pub has_models : lacks_models t.models ≡ false
    pub ids : All HasId t.models

  abbrev pub IsFallback : ModelTier N → Type 0
  IsFallback t = t.routing.fallback ≡ true

  -- No name stands twice, and none of them is among the first ones.
  abbrev pub Fresh : List String → List (ModelTier N) → Type 0
  Fresh ns [] = Unit
  Fresh ns (t ∷ ts) = (has_name ns t.name ≡ false) × Fresh (t.name ∷ ns) ts

  -- What the loop over the tiers has established when it finds no problem.
  pub record Checked (ns : List String) (fallback : Bool) (ts : List (ModelTier N)) : Type 0 where
    pub complete : All IsComplete ts
    pub fresh : Fresh ns ts
    pub one_fallback : (fallback ≡ true) ⊎ Any IsFallback ts

  Checked-cons :
      (ns : List String) (fallback : Bool) (t : ModelTier N) (ts : List (ModelTier N))
      → IsComplete t
      → has_name ns t.name ≡ false
      → Checked (t.name ∷ ns) (fallback || t.routing.fallback) ts
      → Checked ns fallback (t ∷ ts)
  Checked-cons ns fallback t ts complete new c = record {
    complete = (complete, c.complete);
    fresh = (new, c.fresh);
    one_fallback = elim c.one_fallback [
      | inl some_before ↦ elim (Bool-cases fallback) [
        | inl before ↦ inl before
        | inr first ↦ inr (inl (rw first at some_before))
      ]
      | inr later ↦ inr (inr later)
    ];
  }

  -- A loop that finds no problem goes on to what follows, which finds none either.
  check_tiers-Checked :
      (ts : List (ModelTier N)) (ps : List ℤ) (ns : List String) (fallback : Bool)
      (next : Option Problem)
      → check_tiers ps ns fallback ts next ≡ none
      → Checked ns fallback ts × (next ≡ none)
  unfolding check_tiers
  check_tiers-Checked [] ps ns true next e = (
    record { complete = tt; fresh = tt; one_fallback = inl refl },
    (refuse-none false no_fallback next e).1,
  )
  check_tiers-Checked [] ps ns false next e = cc (refuse-none true no_fallback next e).0
  check_tiers-Checked (t ∷ ts) ps ns fallback next e =
      let (named, e₁) = refuse-none _ _ _ e in
      let (positive, e₂) = refuse-none _ _ _ e₁ in
      let (models, e₃) = refuse-none _ _ _ e₂ in
      let (own, e₄) = refuse-none _ _ _ e₃ in
      let (new, e₅) = refuse-none _ _ _ e₄ in
      let (single, e₆) = refuse-none _ _ _ e₅ in
      let (ids, e₇) = check_models-none t.models _ (check_rules-none t.routing.rules _ e₆) in
      let (later, after) =
        check_tiers-Checked ts (t.priority ∷ ps) (t.name ∷ ns) (fallback || t.routing.fallback) next
          e₇ in
      (Checked-cons ns fallback t ts (record { has_models = models; ids = ids }) new later, after)

  check_listed-Checked :
      (ts : List (ModelTier N)) (next : Option Problem)
      → check_listed ts next ≡ none
      → Checked [] false ts × (next ≡ none)
  unfolding check_listed
  check_listed-Checked [] next e = cc e
  check_listed-Checked (t ∷ ts) next e = check_tiers-Checked (t ∷ ts) [] [] false next e

  pub validate-Checked :
      (cfg : Config N)
      → validate cfg ≡ none
      → Checked [] false cfg.models × (check_settings cfg ≡ none)
  unfolding validate
  validate-Checked cfg e = check_listed-Checked cfg.models _ e
