-- ===== src/LoadTest/Categories.antt =====
-- test/router_bench.go: the counts for each category.
use prompt_response.Common.{
  ℕ, ◌+◌, ◌≡◌, refl, ap, ap₂, ◌∙◌, String, List, [], ◌∷◌, if◌then◌else◌, str_eq, str_eq_iff, length,
  lookup_or, lookup_or-insert, string_eq, arith, Bool-cases, inl, inr,
}
use prompt_response.LoadTest.{
  GenerateResult, correct_of, count_category, categories_after, accuracy_by_category, misrouted,
}

-- The results of one category.
abbrev pub in_category : String → List GenerateResult → List GenerateResult
in_category c [] = []
in_category c (s ∷ ss) = if str_eq s.category c then s ∷ in_category c ss else in_category c ss

-- What the results add to an entry.
abbrev added : ℕ × ℕ → List GenerateResult → ℕ × ℕ
added e ss = (e.0 + correct_of ss, e.1 + length ss)

count_category-lookup :
    (s : GenerateResult) (c : String) (m : List (String × (ℕ × ℕ)))
    → lookup_or (0, 0) c (count_category m s) ≡ (
        if str_eq s.category c
        then (
          (lookup_or (0, 0) c m).0 + (if s.is_correct then 1 else 0),
          (lookup_or (0, 0) c m).1 + 1,
        )
        else lookup_or (0, 0) c m)
unfolding count_category
count_category-lookup s c m = elim (Bool-cases (str_eq s.category c)) [
  | inl same ↦ rw (lookup_or-insert, same) (rw ((str_eq_iff s.category c).0 same) refl)
  | inr other ↦ rw (lookup_or-insert, other) refl
]

categories_after-added :
    (ss : List GenerateResult) (c : String) (m : List (String × (ℕ × ℕ)))
    → lookup_or (0, 0) c (categories_after m ss) ≡ added (lookup_or (0, 0) c m) (in_category c ss)
unfolding categories_after correct_of
categories_after-added [] c m = ap₂ (λ a b. (a, b)) (omega arith) (omega arith)
categories_after-added (s ∷ ss) c m =
    categories_after-added ss c (count_category m s)
    ∙ ap (λ e. added e (in_category c ss)) (count_category-lookup s c m)
    ∙ elim (Bool-cases (str_eq s.category c)) [
      | inl same ↦ rw same (ap₂ (λ a b. (a, b)) (omega arith) (omega arith))
      | inr other ↦ rw other refl
    ]

-- For every category, `AccuracyByCategory` holds the number of its correct results and of all its
-- results, none and none for a category without results.
pub accuracy_by_category_lem :
    (ss : List GenerateResult) (c : String)
    → lookup_or (0, 0) c (accuracy_by_category ss)
      ≡ (correct_of (in_category c ss), length (in_category c ss))
unfolding accuracy_by_category lookup_or
accuracy_by_category_lem ss c =
    categories_after-added ss c [] ∙ ap₂ (λ a b. (a, b)) (omega arith) (omega arith)

-- Each result is misrouted or correct.
misrouted_correct : (ss : List GenerateResult) → length (misrouted ss) + correct_of ss ≡ length ss
unfolding misrouted correct_of
misrouted_correct [] = omega arith
misrouted_correct (s ∷ ss) = ground (arith, misrouted_correct ss)
