-- ===== src/Proxy/Pages/Models.antt =====
-- The models that the page lists.
use prompt_response.Common.{
  ◌≡◌, Bool, false, ◌||◌, String, List, [], ◌∷◌, if◌then◌else◌, str_eq, str_eq_iff, str_eq_refl,
  arith, ◌∙◌, Bool-cases, inl, inr, refl,
}
use prompt_response.Types.{Replica}
use prompt_response.Proxy.Retry.{member}
use prompt_response.Proxy.Retry.Attempts.{Distinct}
use prompt_response.Proxy.Pages.{models_after, handle_models}

module _ {N : Type 0} where
  -- Some replica serves the model.
  abbrev pub serves : List (Replica N) → String → Bool
  serves [] model = false
  serves (r ∷ rs) model = str_eq r.model model || serves rs model

  -- The loop lists what the replicas serve and was not seen before.
  member-models_after :
      (seen : List String) (rs : List (Replica N)) (model : String)
      → member (models_after seen rs) model ≡ (if member seen model then false else serves rs model)
  unfolding models_after member
  member-models_after seen [] model = ground arith
  member-models_after seen (r ∷ rs) model = elim (Bool-cases (member seen r.model)) [
    | inl old ↦
        rw old (ground (arith, member-models_after seen rs model, str_eq_iff r.model model, old))
    | inr new ↦ rw new (
        ground
          (arith, member-models_after (r.model ∷ seen) rs model, str_eq_iff r.model model, new))
  ]

  models_after-Distinct :
      (seen : List String) (rs : List (Replica N)) → Distinct (models_after seen rs)
  unfolding models_after member
  models_after-Distinct seen [] = tt
  models_after-Distinct seen (r ∷ rs) = elim (Bool-cases (member seen r.model)) [
    | inl old ↦ rw old (models_after-Distinct seen rs)
    | inr new ↦ rw new (
      member-models_after (r.model ∷ seen) rs r.model ∙ rw (str_eq_refl r.model) refl,
      models_after-Distinct (r.model ∷ seen) rs,
    )
  ]

  -- The page lists each model once, and it lists exactly the models that some replica serves.
  pub handle_models_lem :
      (rs : List (Replica N))
      → Distinct (handle_models rs)
        × ((model : String) → member (handle_models rs) model ≡ serves rs model)
  unfolding handle_models member
  handle_models_lem rs = (models_after-Distinct [] rs, λ model. member-models_after [] rs model)
