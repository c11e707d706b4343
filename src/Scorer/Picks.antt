-- ===== src/Scorer/Picks.antt =====
-- What `Pick` returns: of the replicas that may be used, one of the wanted tier with the highest
-- score, or else one of another tier with the highest score, or else none.
use prompt_response.Common.{
  Bool, true, false, String, List, [], ◌∷◌, Option, none, some, if◌then◌else◌, str_eq, Float, ◌≡◌,
  sym, ap, ◌∙◌, ◌⊎◌, inl, inr, All, subst,
}
use prompt_response.Types.{ModelTier, Replica}
use prompt_response.Scorer.{View, score_in, usable, no_choice, named, pick}
use prompt_response.Scorer.Maximum.{Any, Any-map, best_of, best_of_lem, Unbeaten}
use prompt_response.Scorer.Best.{
  candidates, matched, unmatched, choose-best_of, pick_loop-choose, candidates-All,
}

abbrev pub IsNamed : {N : Type 0} → Replica N → Type 0
IsNamed r = str_eq r.id "" ≡ false

some-ne-none : {A : Type 0} (x : A) → some x ≡ none → ⊥
some-ne-none x e = cc e

All-fst : {A : Type 0} (P Q : A → Type 0) (xs : List A) → All (λ x. P x × Q x) xs → All P xs
All-fst P Q [] h = tt
All-fst P Q (x ∷ xs) h = (h.0.0, All-fst P Q xs h.1)

Any-and-All :
    {A : Type 0} (P Q : A → Type 0) (xs : List A) → Any P xs → All Q xs → Any (λ x. P x × Q x) xs
Any-and-All P Q [] a q = a
Any-and-All P Q (x ∷ xs) (inl h) q = inl (h, q.0)
Any-and-All P Q (x ∷ xs) (inr h) q = inr (Any-and-All P Q xs h q.1)

module _ {N : Type 0} ⦃F : Float N⦄ (v : View N) (tier : ModelTier) (cs : List (Replica N)) where
  -- One of the candidates that pass a test is returned, and no candidate that passes it has a higher
  -- score.
  abbrev pub Best : (Replica N → Bool) → Option (Replica N) → Type 0
  Best p out =
      Any (λ r. (out ≡ some r) × (p r ≡ true) × Unbeaten (score_in v) p (score_in v r) cs) cs

  -- No candidate that passes a test scores above -1.
  abbrev pub NoneAbove : (Replica N → Bool) → Type 0
  NoneAbove p = Unbeaten (score_in v) p (F.neg (F.of_int 1)) cs

  -- The best candidate of the tier; or, if none of the tier scores above -1, the best of another; or,
  -- if none at all does, no replica.
  abbrev pub Picked : Option (Replica N) → Type 0
  Picked out =
      Best (matched v tier) out
      ⊎ ((NoneAbove (matched v tier) × Best (unmatched v tier) out)
          ⊎ (NoneAbove (matched v tier) × NoneAbove (unmatched v tier) × (out ≡ none)))

  Best-found :
      (p : Replica N → Bool) (b : Option (Replica N) × N)
      → Any
          (λ q.
            (b ≡ (some q, score_in v q))
            × (p q ≡ true)
            × (F.lt (F.neg (F.of_int 1)) (score_in v q) ≡ true))
          cs
      → Unbeaten (score_in v) p b.1 cs
      → Best p b.0
  Best-found p b found unbeaten =
      Any-map
        (λ q.
          (b ≡ (some q, score_in v q))
          × (p q ≡ true)
          × (F.lt (F.neg (F.of_int 1)) (score_in v q) ≡ true))
        (λ r. (b.0 ≡ some r) × (p r ≡ true) × Unbeaten (score_in v) p (score_in v r) cs) cs
        (λ q h. (
          ap (λ t. t.0) h.0,
          h.1,
          subst (λ s. Unbeaten (score_in v) p s cs) (ap (λ t. t.1) h.0) unbeaten,
        ))
        found

  Any-absurd :
      (R : Type 0) (P : Replica N → Type 0)
      → ((x : Replica N) → P x → R)
      → (xs : List (Replica N)) → Any P xs
      → R
  Any-absurd R P f [] a = absurd a
  Any-absurd R P f (x ∷ xs) (inl h) = f x h
  Any-absurd R P f (x ∷ xs) (inr h) = Any-absurd R P f xs h

  Best-named :
      (p : Replica N → Bool) (out : Option (Replica N))
      → All IsNamed cs
      → Best p out
      → named out ≡ true
  unfolding named
  Best-named p out ids best =
      Any-absurd (named out ≡ true)
        (λ r.
          ((out ≡ some r) × (p r ≡ true) × Unbeaten (score_in v) p (score_in v r) cs) × IsNamed r)
        (λ r h. rw h.0.0 (rw h.1)) cs
        (Any-and-All
          (λ r. (out ≡ some r) × (p r ≡ true) × Unbeaten (score_in v) p (score_in v r) cs) IsNamed
          cs best ids)

  -- The result of one of the two searches.
  abbrev Searched : (Replica N → Bool) → Option (Replica N) × N → Type 0
  Searched p b = Best p b.0 ⊎ ((b.0 ≡ none) × NoneAbove p)

  pub searched :
      (p : Replica N → Bool) → Searched p (best_of (score_in v) p (none, F.neg (F.of_int 1)) cs)
  searched p =
      let start : Option (Replica N) × N = (none, F.neg (F.of_int 1)) in
      let (found, unbeaten) = best_of_lem (score_in v) p cs start in
      elim found [
        | inl same ↦ inr (
          ap (λ t. t.0) same,
          subst (λ s. Unbeaten (score_in v) p s cs) (ap (λ t. t.1) same) unbeaten,
        )
        | inr one ↦ inl (Best-found p (best_of (score_in v) p start cs) one unbeaten)
      ]

  no_name : (b f : Option (Replica N) × N) → b.0 ≡ none → (if named b.0 then b.0 else f.0) ≡ f.0
  unfolding named
  no_name b f e = rw e

  pub settle :
      (b f : Option (Replica N) × N)
      → All IsNamed cs
      → Searched (matched v tier) b
      → Searched (unmatched v tier) f
      → Picked (if named b.0 then b.0 else f.0)
  settle b f ids (inl best) other = rw (Best-named (matched v tier) b.0 ids best) (inl best)
  settle b f ids (inr (no_best, low)) other = subst Picked (sym (no_name b f no_best)) (elim other [
    | inl best ↦ inr (inl (low, best))
    | inr (no_other, low') ↦ inr (inr (low, low', no_other))
  ])

module _ {N C : Type 0} ⦃F : Float N⦄ (ask : C → String → Bool × C) where
  -- For replicas with ids, `Pick` returns either a candidate of the wanted tier that no candidate
  -- of that tier outscores; or, and then none of that tier scores above -1, a candidate of another
  -- tier that none of another tier outscores; or no replica, and then no candidate at all scores
  -- above -1. The candidates are the replicas that are known to the poller, healthy, not excluded
  -- and allowed by the checker. The scores may be any, NaN included.
  pub pick_lem :
      (v : View N) (tier : ModelTier) (excluded : String → Bool) (cc : C) (rs : List (Replica N))
      → All IsNamed rs
      → Picked v tier (candidates ask v excluded cc rs).0 (pick ask v tier excluded cc rs).0
  unfolding pick no_choice
  pick_lem v tier excluded cc rs ids =
      let cs = (candidates ask v excluded cc rs).0 in
      let (b, f) = choose-best_of v tier cs no_choice in
      let kept = candidates-All ask IsNamed v excluded rs cc ids in
      rw (pick_loop-choose ask v tier excluded rs cc no_choice) (
        rw (ap (λ t. t.0) b, ap (λ t. t.0) f)
          (settle v tier cs (best_of (score_in v) (matched v tier) (none, F.neg (F.of_int 1)) cs)
            (best_of (score_in v) (unmatched v tier) (none, F.neg (F.of_int 1)) cs)
            (All-fst IsNamed (λ r. usable v excluded r ≡ true) cs kept)
            (searched v tier cs (matched v tier)) (searched v tier cs (unmatched v tier))))

  candidate-usable :
      (v : View N) (excluded : String → Bool) (out : Option (Replica N)) (r : Replica N)
      → (P : Replica N → Type 0) → (cs : List (Replica N))
      → All (λ q. IsNamed q × (usable v excluded q ≡ true)) cs
      → Any (λ q. (out ≡ some q) × P q) cs
      → out ≡ some r
      → IsNamed r × (usable v excluded r ≡ true)
  candidate-usable v excluded out r P [] all one e = absurd one
  candidate-usable v excluded out r P (c ∷ cs) all (inl (is_c, h)) e =
      let same : c ≡ r = cc (is_c, e) in
      subst (λ q. IsNamed q × (usable v excluded q ≡ true)) same all.0
  candidate-usable v excluded out r P (c ∷ cs) all (inr later) e =
      candidate-usable v excluded out r P cs all.1 later e

  -- For replicas with ids, a replica that `Pick` returns has an id, is known to the poller and
  -- healthy, and is not excluded.
  pub pick-usable :
      (v : View N) (tier : ModelTier) (excluded : String → Bool) (cc : C) (rs : List (Replica N))
      (r : Replica N)
      → All IsNamed rs
      → (pick ask v tier excluded cc rs).0 ≡ some r
      → IsNamed r × (usable v excluded r ≡ true)
  pick-usable v tier excluded cc rs r ids e =
      let cs = (candidates ask v excluded cc rs).0 in
      let out = (pick ask v tier excluded cc rs).0 in
      let all = candidates-All ask IsNamed v excluded rs cc ids in
      elim (pick_lem v tier excluded cc rs ids) [
        | inl best ↦
            candidate-usable v excluded out r
              (λ q.
                (matched v tier q ≡ true)
                × Unbeaten (score_in v) (matched v tier) (score_in v q) cs)
              cs all
              (Any-map
                (λ q.
                  (out ≡ some q)
                  × (matched v tier q ≡ true)
                  × Unbeaten (score_in v) (matched v tier) (score_in v q) cs)
                (λ q.
                  (out ≡ some q)
                  × ((matched v tier q ≡ true)
                      × Unbeaten (score_in v) (matched v tier) (score_in v q) cs))
                cs (λ q h. (h.0, (h.1, h.2))) best)
              e
        | inr (inl (low, best)) ↦
            candidate-usable v excluded out r
              (λ q.
                (unmatched v tier q ≡ true)
                × Unbeaten (score_in v) (unmatched v tier) (score_in v q) cs)
              cs all
              (Any-map
                (λ q.
                  (out ≡ some q)
                  × (unmatched v tier q ≡ true)
                  × Unbeaten (score_in v) (unmatched v tier) (score_in v q) cs)
                (λ q.
                  (out ≡ some q)
                  × ((unmatched v tier q ≡ true)
                      × Unbeaten (score_in v) (unmatched v tier) (score_in v q) cs))
                cs (λ q h. (h.0, (h.1, h.2))) best)
              e
        | inr (inr (low, low', nothing)) ↦ absurd (some-ne-none r (sym e ∙ nothing))
      ]
