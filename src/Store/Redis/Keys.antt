-- ===== src/Store/Redis/Keys.antt =====
-- Keys of different numbers, or of different kinds, are different.
use prompt_response.Common.{
  ℕ, zero, suc, ◌/◌, ◌%◌, ◌*◌, ◌^◌, ◌<◌, ◌≡◌, ◌≢◌, refl, sym, ap, ◌∙◌, List, [], ◌∷◌, ◌++◌, arith,
  hex_digit, hex_digit-injective, drop, get_or,
}
use prompt_response.Store.Redis.{format_x, affinity_key, conv_key}

last_of : List ℕ → ℕ
last_of [] = 0
last_of (c ∷ []) = c
last_of (c ∷ (d ∷ cs)) = last_of (d ∷ cs)

front_of : List ℕ → List ℕ
front_of [] = []
front_of (c ∷ []) = []
front_of (c ∷ (d ∷ cs)) = c ∷ front_of (d ∷ cs)

last-append : (xs : List ℕ) (c : ℕ) → last_of (xs ++ (c ∷ [])) ≡ c
unfolding last_of
last-append [] c = refl
last-append (x ∷ []) c = refl
last-append (x ∷ (y ∷ ys)) c = last-append (y ∷ ys) c

front-append : (xs : List ℕ) (c : ℕ) → front_of (xs ++ (c ∷ [])) ≡ xs
unfolding front_of
front-append [] c = refl
front-append (x ∷ []) c = refl
front-append (x ∷ (y ∷ ys)) c = ap (λ l. x ∷ l) (front-append (y ∷ ys) c)

-- The power of sixteen.
abbrev limit_of : ℕ → ℕ
limit_of zero = 1
limit_of (suc width) = 16 * limit_of width

-- So many digits tell numbers apart below that power of sixteen.
format_x-injective :
    (width n m : ℕ)
    → n < limit_of width
    → m < limit_of width
    → format_x width n ≡ format_x width m
    → n ≡ m
unfolding format_x
format_x-injective zero n m hn hm e = omega arith
format_x-injective (suc width) n m hn hm e =
    let low : hex_digit (n % 16) ≡ hex_digit (m % 16) =
      sym (last-append (format_x width (n / 16)) (hex_digit (n % 16)))
      ∙ ap last_of e
      ∙ last-append (format_x width (m / 16)) (hex_digit (m % 16)) in
    let high : format_x width (n / 16) ≡ format_x width (m / 16) =
      sym (front-append (format_x width (n / 16)) (hex_digit (n % 16)))
      ∙ ap front_of e
      ∙ front-append (format_x width (m / 16)) (hex_digit (m % 16)) in
    let same_low = hex_digit-injective (n % 16) (m % 16) (omega arith) (omega arith) low in
    let same_high : n / 16 ≡ m / 16 =
      format_x-injective width (n / 16) (m / 16) (omega arith) (omega arith) high in
    omega (arith, same_low, same_high)

abbrev pub IsHash : ℕ → Type 0
IsHash n = n < 2 ^ 64

pub affinity_key-injective :
    (a b : ℕ) → IsHash a → IsHash b → affinity_key a ≡ affinity_key b → a ≡ b
unfolding affinity_key
affinity_key-injective a b ha hb e =
    format_x-injective 16 a b (omega arith) (omega arith) (ap (drop 4) e)

pub conv_key-injective : (a b : ℕ) → IsHash a → IsHash b → conv_key a ≡ conv_key b → a ≡ b
unfolding conv_key
conv_key-injective a b ha hb e =
    format_x-injective 16 a b (omega arith) (omega arith) (ap (drop 5) e)

pub affinity_key-ne_conv : (a b : ℕ) → affinity_key a ≢ conv_key b
unfolding affinity_key conv_key
affinity_key-ne_conv a b e = absurd (omega (arith, ap (λ l. get_or l 0 0) e))
