-- ===== src/Audit/Newest.antt =====
-- The trail holds the newest records, and `Recent` returns them newest first.
use prompt_response.Common.{
  ℕ, zero, suc, ◌+◌, ◌%◌, ◌≤◌, ◌<◌, min, ◌≡◌, refl, sym, ap, ap₂, subst, ◌∙◌, List, [], ◌∷◌, ◌++◌,
  reverse, some, ltb, if◌then◌else◌, length, get_or, set, take, drop, take-drop, arith, length-set,
  length-replicate, get_or-set_self, get_or-set_ne, lt→ltb,
}
use mathlib.Core.List.{reverse-append, append_assoc, append-nil}
use prompt_response.Audit.{Trail, new_trail, record_in, slot, collect, recent, record_all}
use prompt_response.Audit.Slots.{next-lt, slot-ne_head, slot-next_zero, slot-next_suc}

reverse_cons-append {ℓ} :
    {A : Type ℓ} (x : A) (xs ys : List A) → reverse (x ∷ xs) ++ ys ≡ reverse xs ++ (x ∷ ys)
reverse_cons-append x xs ys =
    rw (reverse-append (x ∷ []) xs) (append_assoc (reverse xs) (x ∷ []) ys)

-- Numbers that differ past the end of a list take the same of it.
take-min {ℓ} :
    {A : Type ℓ} (xs : List A) (j k : ℕ)
    → min j (length xs) ≡ min k (length xs)
    → take j xs ≡ take k xs
take-min [] zero zero h = refl
take-min [] zero (suc k) h = refl
take-min [] (suc j) zero h = refl
take-min [] (suc j) (suc k) h = refl
take-min (x ∷ xs) zero zero h = refl
take-min (x ∷ xs) zero (suc k) h = absurd (omega arith)
take-min (x ∷ xs) (suc j) zero h = absurd (omega arith)
take-min (x ∷ xs) (suc j) (suc k) h = ap (λ t. x ∷ t) (take-min xs j k (omega arith))

module _ {R : Type 0} (blank : R) where
  -- The trail keeps the newest of `log`, which is newest first.
  record Holds (log : List R) (t : Trail R) : Type 0 where
    head_in : t.head < length t.records
    counted : t.count ≡ min (length log) (length t.records)
    kept :
        (i : ℕ)
        → i < t.count
        → get_or t.records (slot t.head (length t.records) i) blank ≡ get_or log i blank

  kept_after :
      (log : List R) (t : Trail R) (r : R)
      → Holds log t
      → (i : ℕ) → i < length t.records
      → i < suc t.count
      → get_or
          (set t.records t.head r)
          (slot ((t.head + 1) % length t.records) (length t.records) i)
          blank
        ≡ get_or (r ∷ log) i blank
  kept_after log t r h zero il ic =
      rw (slot-next_zero t.head (length t.records) h.head_in)
        (get_or-set_self t.records t.head r blank h.head_in)
  kept_after log t r h (suc i) il ic = rw (slot-next_suc t.head (length t.records) i h.head_in il) (
      get_or-set_ne t.records r blank (slot-ne_head t.head (length t.records) i h.head_in il)
      ∙ h.kept i (omega arith))

  record_in-Holds :
      (log : List R) (t : Trail R) (r : R)
      → Holds log t
      → (t' : Trail R) × (record_in blank t r ≡ some t')
        × Holds (r ∷ log) t'
        × (length t'.records ≡ length t.records)
  unfolding record_in
  record_in-Holds log t r h =
      let same = length-set t.records t.head r in
      (
        record {
          records = set t.records t.head r;
          head = (t.head + 1) % length t.records;
          count = if ltb t.count (length t.records) then t.count + 1 else t.count;
        },
        rw (lt→ltb t.head (length t.records) h.head_in),
        record {
          head_in = rw same (next-lt t.head (length t.records) h.head_in);
          counted = rw same (ground (arith, h.counted));
          kept =
              λ i ic. rw same (kept_after log t r h i (ground (arith, h.counted)) (ground arith));
        },
        same,
      )

  record_all-Holds :
      (rs log : List R) (t : Trail R)
      → Holds log t
      → (t' : Trail R) × (record_all blank t rs ≡ some t')
        × Holds (reverse rs ++ log) t'
        × (length t'.records ≡ length t.records)
  unfolding record_all
  record_all-Holds [] log t h = (t, refl, h, refl)
  record_all-Holds (r ∷ rs) log t h =
      let (t₁, e₁, h₁, l₁) = record_in-Holds log t r h in
      let (t₂, e₂, h₂, l₂) = record_all-Holds rs (r ∷ log) t₁ h₁ in
      (t₂, rw e₁ e₂, subst (λ l. Holds l t₂) (sym (reverse_cons-append r rs log)) h₂, l₂ ∙ l₁)

  -- From round `i` on the loop reads the log from its place `i` on.
  collect-eq :
      (rounds i : ℕ) (log : List R) (t : Trail R)
      → Holds log t
      → i + rounds ≤ t.count
      → collect blank t i rounds ≡ take rounds (drop i log)
  unfolding collect
  collect-eq zero i log t h fits = refl
  collect-eq (suc rounds) i log t h fits =
      let next : i + 1 ≡ suc i = omega arith in
      ap₂ ◌∷◌ (h.kept i (omega arith))
        (collect-eq rounds (i + 1) log t h (omega arith) ∙ ap (λ j. take rounds (drop j log)) next)
      ∙ sym (take-drop rounds i log blank (omega (arith, h.counted)))

  recent-eq :
      (n : ℕ) (log : List R) (t : Trail R)
      → Holds log t
      → recent blank t n ≡ take (min n (length t.records)) log
  unfolding recent
  recent-eq n log t h =
      let k = if ltb t.count n then t.count else n in
      collect-eq k 0 log t h (ground arith)
      ∙ take-min log k (min n (length t.records)) (ground (arith, h.counted))

  new-Holds : (capacity : ℕ) → 0 < capacity → Holds [] (new_trail blank capacity)
  unfolding new_trail
  new-Holds capacity h = record {
    head_in = rw (length-replicate capacity blank) h;
    counted = omega arith;
    kept = λ i below. absurd (omega arith);
  }

  -- However many decisions are recorded in a new trail whose capacity is not zero, no call panics,
  -- and `Recent(n)` then returns the newest of them, newest first: as many as `n` asks for, as the
  -- capacity holds, and as there are.
  pub recent_newest :
      (capacity n : ℕ) (rs : List R)
      → 0 < capacity
      → (t : Trail R) × (record_all blank (new_trail blank capacity) rs ≡ some t)
        × (recent blank t n ≡ take (min n capacity) (reverse rs))
  unfolding new_trail
  recent_newest capacity n rs h =
      let (t, e, holds, same) =
        record_all-Holds rs [] (new_trail blank capacity) (new-Holds capacity h) in
      (
        t,
        e,
        recent-eq n (reverse rs ++ []) t holds
            ∙ ap₂ (λ c l. take (min n c) l) (same ∙ length-replicate capacity blank)
                (append-nil (reverse rs)),
      )
