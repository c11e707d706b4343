-- ===== src/Scorer/Maximum.antt =====
-- The loop that keeps the best of a list: what it keeps beats all that it leaves. It needs no more
-- of `<` than IEEE 754 grants, so it holds with NaN among the scores.
use prompt_response.Common.{
  Bool, true, false, ◌&&◌, List, [], ◌∷◌, Option, some, if◌then◌else◌, Float, ◌≡◌, refl, ◌⊎◌, inl,
  inr, arith, All, Bool-cases, subst,
}

-- One of a list has a property, by recursion.
abbrev pub Any : {A : Type 0} → (A → Type 0) → List A → Type 0
Any P [] = ⊥
Any P (x ∷ xs) = P x ⊎ Any P xs

pub Any-map :
    {A : Type 0} (P Q : A → Type 0) (xs : List A) → ((x : A) → P x → Q x) → Any P xs → Any Q xs
Any-map P Q [] f a = a
Any-map P Q (x ∷ xs) f (inl h) = inl (f x h)
Any-map P Q (x ∷ xs) f (inr h) = inr (Any-map P Q xs f h)

pub All-zip :
    {A : Type 0} (P Q R : A → Type 0) (xs : List A)
    → ((x : A) → P x → Q x → R x)
    → All P xs
    → All Q xs
    → All R xs
All-zip P Q R [] f p q = tt
All-zip P Q R (x ∷ xs) f p q = (f x p.0 q.0, All-zip P Q R xs f p.1 q.1)

-- The highest score so far, of the elements that pass a test: the earliest one that has it.
module _ {N A : Type 0} ⦃F : Float N⦄ (score : A → N) (p : A → Bool) where
  unfoldable pub improve : Option A × N → A → Option A × N
  improve (o, s) r = if p r && F.lt s (score r) then (some r, score r) else (o, s)

  unfoldable pub best_of : Option A × N → List A → Option A × N
  unfolding improve
  best_of o [] = o
  best_of o (r ∷ rs) = best_of (improve o r) rs

  -- What is found is what was there, or one of the list that passes the test and beats it.
  abbrev pub Found : Option A × N → List A → Option A × N → Type 0
  Found o cs out =
      (out ≡ o)
      ⊎ Any (λ q. (out ≡ (some q, score q)) × (p q ≡ true) × (F.lt o.1 (score q) ≡ true)) cs

  abbrev pub Unbeaten : N → List A → Type 0
  Unbeaten s cs = All (λ q. (p q && F.lt s (score q)) ≡ false) cs

  improve-Found :
      (o : Option A × N) (r : A)
      → (improve o r ≡ o)
        ⊎ ((improve o r ≡ (some r, score r)) × (p r ≡ true) × (F.lt o.1 (score r) ≡ true))
  unfolding improve
  improve-Found (o, s) r = ground arith

  improve-unbeaten : (o : Option A × N) (r : A) → (p r && F.lt (improve o r).1 (score r)) ≡ false
  unfolding improve
  improve-unbeaten (o, s) r = ground (arith, F.lt_irrefl (score r))

  -- A score that is not beaten stays so when the bar rises.
  still_unbeaten :
      (o out : Option A × N) (cs : List A) (x : N)
      → Found o cs out
      → F.lt o.1 x ≡ false
      → F.lt out.1 x ≡ false
  still_unbeaten o out cs x (inl same) h = rw same h
  still_unbeaten o out [] x (inr none_found) h = absurd none_found
  still_unbeaten o out (c ∷ cs) x (inr (inl (e, passes, beats))) h =
      rw e (ground (arith, F.lt_trans o.1 (score c) x))
  still_unbeaten o out (c ∷ cs) x (inr (inr later)) h = still_unbeaten o out cs x (inr later) h

  Found-cons :
      (o out : Option A × N) (r : A) (rs : List A)
      → Found (improve o r) rs out
      → Found o (r ∷ rs) out
  Found-cons o out r rs found = elim (improve-Found o r) [
    | inl kept ↦ elim (subst (λ t. Found t rs out) kept found) [
      | inl same ↦ inl same
      | inr later ↦ inr (inr later)
    ]
    | inr (taken, passes, beats) ↦ elim (subst (λ t. Found t rs out) taken found) [
      | inl same ↦ inr (inl (same, passes, beats))
      | inr later ↦ inr (
          inr (
            Any-map
              (λ q. (out ≡ (some q, score q)) × (p q ≡ true) × (F.lt (score r) (score q) ≡ true))
              (λ q. (out ≡ (some q, score q)) × (p q ≡ true) × (F.lt o.1 (score q) ≡ true)) rs
              (λ q h. (h.0, h.1, F.lt_trans o.1 (score r) (score q) beats h.2)) later))
    ]
  ]

  unbeaten_head :
      (o out : Option A × N) (r : A) (rs : List A)
      → Found (improve o r) rs out
      → (p r && F.lt out.1 (score r)) ≡ false
  unbeaten_head o out r rs found = elim (Bool-cases (p r)) [
    | inl passes ↦
        rw passes (
          still_unbeaten (improve o r) out rs (score r) found (rw passes at (improve-unbeaten o r)))
    | inr fails ↦ rw fails refl
  ]

  pub best_of_lem :
      (cs : List A) (o : Option A × N) → Found o cs (best_of o cs) × Unbeaten (best_of o cs).1 cs
  unfolding best_of
  best_of_lem [] o = (inl refl, tt)
  best_of_lem (r ∷ rs) o =
      let (found, unbeaten) = best_of_lem rs (improve o r) in
      (
        Found-cons o (best_of (improve o r) rs) r rs found,
        (unbeaten_head o (best_of (improve o r) rs) r rs found, unbeaten),
      )
