-- ===== src/Mock/Words.antt =====
-- cmd/mock/main.go, `splitTokens`: the pieces are the text's words, with one space between them.
use mathlib.Core.List.{append_assoc, append-nil}
use prompt_response.Common.{
  ℕ, ◌≡◌, refl, ap, ◌∙◌, false, List, [], ◌∷◌, ◌++◌, codes, All, Bool-cases, inl, inr,
}
use prompt_response.Mock.{words_from, flush_word, fields, spaced, split_tokens}
use prompt_response.Proxy.Stream.{is_space}

abbrev pub NoSpace : List ℕ → Type 0
NoSpace = All (λ c. is_space c ≡ false)

-- A word has at least one character, and no white space.
abbrev pub IsWord : List ℕ → Type 0
IsWord [] = ⊥
IsWord (c ∷ cs) = NoSpace (c ∷ cs)

flush_word-IsWord :
    (w : List ℕ) (ws : List (List ℕ)) → NoSpace w → All IsWord ws → All IsWord (flush_word w ws)
flush_word-IsWord [] ws h k = k
flush_word-IsWord (c ∷ cs) ws h k = (h, k)

words_from-IsWord : (text : List ℕ) → NoSpace (words_from text).0 × All IsWord (words_from text).1
unfolding words_from
words_from-IsWord [] = (tt, tt)
words_from-IsWord (c ∷ cs) =
    let (w, ws) = words_from-IsWord cs in
    elim (Bool-cases (is_space c)) [
      | inl ends ↦ rw ends (tt, flush_word-IsWord (words_from cs).0 (words_from cs).1 w ws)
      | inr goes ↦ rw goes ((goes, w), ws)
    ]

pub fields-IsWord : (text : List ℕ) → All IsWord (fields text)
unfolding fields
fields-IsWord text =
    let (w, ws) = words_from-IsWord text in
    flush_word-IsWord (words_from text).0 (words_from text).1 w ws

-- Words with one space between them.
abbrev pub joined : List (List ℕ) → List ℕ
joined [] = []
joined (w ∷ []) = w
joined (w ∷ (v ∷ ws)) = w ++ (codes " " ++ joined (v ∷ ws))

abbrev pub concat : List (List ℕ) → List ℕ
concat [] = []
concat (p ∷ ps) = p ++ concat ps

concat-spaced : (ws : List (List ℕ)) → concat (spaced ws) ≡ joined ws
unfolding spaced
concat-spaced [] = refl
concat-spaced (w ∷ []) = append-nil w
concat-spaced (w ∷ (v ∷ ws)) =
    append_assoc w (codes " ") (concat (spaced (v ∷ ws)))
    ∙ ap (λ q. w ++ (codes " " ++ q)) (concat-spaced (v ∷ ws))

-- The pieces are together the words with one space between them.
pub concat-split_tokens : (text : List ℕ) → concat (split_tokens text) ≡ joined (fields text)
unfolding split_tokens
concat-split_tokens text = concat-spaced (fields text)

-- No piece is empty.
abbrev pub IsFilled : List ℕ → Type 0
IsFilled [] = ⊥
IsFilled (c ∷ cs) = Unit

IsFilled-append : (w v : List ℕ) → IsWord w → IsFilled (w ++ v)
IsFilled-append [] v h = absurd h
IsFilled-append (c ∷ cs) v h = tt

IsWord-IsFilled : (w : List ℕ) → IsWord w → IsFilled w
IsWord-IsFilled [] h = absurd h
IsWord-IsFilled (c ∷ cs) h = tt

spaced-IsFilled : (ws : List (List ℕ)) → All IsWord ws → All IsFilled (spaced ws)
unfolding spaced
spaced-IsFilled [] h = tt
spaced-IsFilled (w ∷ []) h = (IsWord-IsFilled w h.0, tt)
spaced-IsFilled (w ∷ (v ∷ ws)) h = (IsFilled-append w (codes " ") h.0, spaced-IsFilled (v ∷ ws) h.1)

pub split_tokens-IsFilled : (text : List ℕ) → All IsFilled (split_tokens text)
unfolding split_tokens
split_tokens-IsFilled text = spaced-IsFilled (fields text) (fields-IsWord text)
