-- ===== src/Router/Ids.antt =====
-- The request ids: of sixteen characters, and different when the random bytes are.
use prompt_response.Common.{
  ℕ, ◌*◌, ◌/◌, ◌%◌, ◌<◌, ◌≡◌, refl, ap, ap₂, List, [], ◌∷◌, some, length, All, arith,
  hex_digit-injective,
}
use prompt_response.Router.{encode_to_string, generate_request_id}

-- The first of a text, and the rest.
first_of : List ℕ → ℕ
first_of [] = 0
first_of (c ∷ cs) = c

rest_of : List ℕ → List ℕ
rest_of [] = []
rest_of (c ∷ cs) = cs

abbrev IsByte : ℕ → Type 0
IsByte b = b < 256

encode-injective :
    (bs cs : List ℕ)
    → All IsByte bs
    → All IsByte cs
    → encode_to_string bs ≡ encode_to_string cs
    → bs ≡ cs
unfolding encode_to_string first_of rest_of
encode-injective [] [] hb hc e = refl
encode-injective [] (c ∷ cs) hb hc e = cc e
encode-injective (b ∷ bs) [] hb hc e = cc e
encode-injective (b ∷ bs) (c ∷ cs) (hb, bb) (hc, bc) e =
    let high = hex_digit-injective (b / 16) (c / 16) (omega arith) (omega arith) (ap first_of e) in
    let low =
      hex_digit-injective (b % 16) (c % 16) (omega arith) (omega arith)
        (ap (λ l. first_of (rest_of l)) e) in
    ap₂ ◌∷◌ (omega (arith, high, low))
      (encode-injective bs cs bb bc (ap (λ l. rest_of (rest_of l)) e))

length-encode : (bs : List ℕ) → length (encode_to_string bs) ≡ 2 * length bs
unfolding encode_to_string
length-encode [] = refl
length-encode (b ∷ bs) = omega (arith, length-encode bs)

-- When the random bytes can be read, an id has two characters for each of them, the counter stays
-- what it was, and ids of different bytes are different.
generate-injective :
    (decimal : ℕ → List ℕ) (bs cs : List ℕ) (n m : ℕ)
    → All IsByte bs
    → All IsByte cs
    → let (id, counter) = generate_request_id decimal (some bs) n in
      (length id ≡ 2 * length bs)
      × (counter ≡ n)
      × (id ≡ (generate_request_id decimal (some cs) m).0 → bs ≡ cs)
unfolding generate_request_id
generate-injective decimal bs cs n m hb hc =
    (length-encode bs, refl, λ e. encode-injective bs cs hb hc e)
