-- ===== src/Proxy/Stream/Drain.antt =====
-- The complete events among some bytes, and that more bytes do not change them.
use prompt_response.Common.{
  ℕ, zero, suc, ◌≤◌, ◌≡◌, refl, sym, ap, ◌∙◌, ◌&&◌, List, [], ◌∷◌, ◌++◌, Option, none, some, ◌==◌,
  length, length-append, Bool-cases, inl, inr, arith,
}
use prompt_response.Proxy.Stream.{cut_before, split_event}

-- The complete events of some bytes, and the bytes of an event that is not complete yet, in at most
-- so many rounds.
unfoldable pub collect_event :
    (List ℕ → List (List ℕ) × List ℕ) → List ℕ → Option (List ℕ × List ℕ) → List (List ℕ) × List ℕ
collect_event next buf none = ([], buf)
collect_event next buf (some (event, rest)) = (event ∷ (next rest).0, (next rest).1)

unfoldable pub drain : ℕ → List ℕ → List (List ℕ) × List ℕ
unfolding collect_event
drain zero buf = ([], buf)
drain (suc n) buf = collect_event (drain n) buf (split_event buf)

abbrev rest_of : Option (List ℕ × List ℕ) → List ℕ
rest_of none = []
rest_of (some (event, rest)) = rest

rest_of-cut_before : (a : ℕ) (o : Option (List ℕ × List ℕ)) → rest_of (cut_before a o) ≡ rest_of o
unfolding cut_before
rest_of-cut_before a none = refl
rest_of-cut_before a (some (event, rest)) = refl

split_event-shorter : (a : ℕ) (xs : List ℕ) → length (rest_of (split_event (a ∷ xs))) ≤ length xs
unfolding split_event
split_event-shorter a [] = omega arith
split_event-shorter a (b ∷ cs) = elim (Bool-cases (a == 10 && b == 10)) [
  | inl ends ↦ rw ends (omega arith)
  | inr goes ↦ rw (goes, rest_of-cut_before) (omega (arith, split_event-shorter b cs))
]

-- An event that is complete stays what it is when more bytes follow.
abbrev append_to :
    List ℕ → Option (List ℕ × List ℕ) → Option (List ℕ × List ℕ) → Option (List ℕ × List ℕ)
append_to ys none other = other
append_to ys (some (event, rest)) other = some (event, rest ++ ys)

cut_before-append_to :
    (a : ℕ) (ys : List ℕ) (o whole : Option (List ℕ × List ℕ))
    → whole ≡ append_to ys o whole
    → cut_before a whole ≡ append_to ys (cut_before a o) (cut_before a whole)
unfolding cut_before
cut_before-append_to a ys none whole e = refl
cut_before-append_to a ys (some (event, rest)) whole e = ap (cut_before a) e

split_event-append :
    (xs ys : List ℕ)
    → split_event (xs ++ ys) ≡ append_to ys (split_event xs) (split_event (xs ++ ys))
unfolding split_event
split_event-append [] ys = refl
split_event-append (a ∷ []) ys = refl
split_event-append (a ∷ (b ∷ cs)) ys = elim (Bool-cases (a == 10 && b == 10)) [
  | inl ends ↦ rw ends refl
  | inr goes ↦ rw goes (
      cut_before-append_to a ys (split_event (b ∷ cs)) (split_event (b ∷ (cs ++ ys)))
        (split_event-append (b ∷ cs) ys))
]

collect_event-cong :
    (f g : List ℕ → List (List ℕ) × List ℕ) (buf : List ℕ) (o : Option (List ℕ × List ℕ))
    → f (rest_of o) ≡ g (rest_of o)
    → collect_event f buf o ≡ collect_event g buf o
unfolding collect_event
collect_event-cong f g buf none e = refl
collect_event-cong f g buf (some (event, rest)) e = ap (λ d. (event ∷ d.0, d.1)) e

drain-nil : (n : ℕ) → drain n [] ≡ ([], [])
unfolding drain split_event
drain-nil zero = refl
drain-nil (suc n) = refl

-- As many rounds as there are bytes are enough.
drain-enough : (n m : ℕ) (xs : List ℕ) → length xs ≤ n → length xs ≤ m → drain n xs ≡ drain m xs
unfolding drain
drain-enough n m [] hn hm = drain-nil n ∙ sym (drain-nil m)
drain-enough zero m (a ∷ xs) hn hm = absurd (omega arith)
drain-enough (suc n) zero (a ∷ xs) hn hm = absurd (omega arith)
drain-enough (suc n) (suc m) (a ∷ xs) hn hm =
    let shorter = split_event-shorter a xs in
    collect_event-cong (drain n) (drain m) (a ∷ xs) (split_event (a ∷ xs)) (
      drain-enough n m (rest_of (split_event (a ∷ xs))) (omega (arith, shorter, hn))
        (omega (arith, shorter, hm)))

-- What is drained of `d`'s bytes and then of the left ones together with `ys`.
abbrev then_drain : List (List ℕ) × List ℕ → List ℕ → ℕ → List (List ℕ) × List ℕ
then_drain d ys m = (d.0 ++ (drain m (d.1 ++ ys)).0, (drain m (d.1 ++ ys)).1)

abbrev Joins : List ℕ → (List (List ℕ) × List ℕ) → List ℕ → Type 0
Joins zs d ys = (k m : ℕ) → length zs ≤ k → length (d.1 ++ ys) ≤ m → drain k zs ≡ then_drain d ys m

collect_event-Joins :
    (n : ℕ) (xs ys : List ℕ) (o : Option (List ℕ × List ℕ))
    → split_event (xs ++ ys) ≡ append_to ys o (split_event (xs ++ ys))
    → suc (length (rest_of o ++ ys)) ≤ length (xs ++ ys)
    → Joins (rest_of o ++ ys) (drain n (rest_of o)) ys
    → Joins (xs ++ ys) (collect_event (drain n) xs o) ys
unfolding drain collect_event
collect_event-Joins n xs ys none e shorter ih k m hk hm = drain-enough k m (xs ++ ys) hk hm
collect_event-Joins n xs ys (some (event, rest)) e shorter ih zero m hk hm = absurd (omega arith)
collect_event-Joins n xs ys (some (event, rest)) e shorter ih (suc k) m hk hm =
    ap (collect_event (drain k) (xs ++ ys)) e
    ∙ ap (λ d. (event ∷ d.0, d.1)) (ih k m (omega arith) hm)

pub drain-append : (n : ℕ) (xs ys : List ℕ) → length xs ≤ n → Joins (xs ++ ys) (drain n xs) ys
unfolding drain split_event
drain-append zero [] ys h k m hk hm = drain-enough k m ys hk hm
drain-append zero (a ∷ xs) ys h k m hk hm = absurd (omega arith)
drain-append (suc n) [] ys h k m hk hm = drain-enough k m ys hk hm
drain-append (suc n) (a ∷ xs) ys h k m hk hm =
    let shorter = split_event-shorter a xs in
    let o = split_event (a ∷ xs) in
    collect_event-Joins n (a ∷ xs) ys o (split_event-append (a ∷ xs) ys)
      (omega (arith, shorter, length-append (rest_of o) ys, length-append xs ys))
      (drain-append n (rest_of o) ys (omega (arith, shorter, h))) k m hk hm
