-- ===== src/Mock/Framing.antt =====
-- The events of a stream, as internal/proxy/stream.go and cmd/cli/client.go cut them: each is one line
-- that two line feeds end.
use mathlib.Core.List.{reverse-append, reverse-reverse}
use prompt_response.Common.{
  ℕ, zero, suc, ◌≤◌, ◌≡◌, refl, sym, ap, ◌∙◌, false, List, [], ◌∷◌, ◌++◌, reverse, some, All, ◌==◌,
  length, length-append, arith,
}
use prompt_response.Cli.{scan_lines, drop_cr, without_first_cr}
use prompt_response.Proxy.Stream.{is_space, split_event, trim_space, trim_left}
use prompt_response.Proxy.Stream.Drain.{drain}

-- No line feed.
abbrev pub IsLine : List ℕ → Type 0
IsLine = All (λ c. (c == 10) ≡ false)

pub scan_lines-line :
    (line rest : List ℕ) → IsLine line → scan_lines (line ++ (10 ∷ rest)) ≡ line ∷ scan_lines rest
unfolding scan_lines
scan_lines-line [] rest h = refl
scan_lines-line (c ∷ cs) rest h = rw (h.0, scan_lines-line cs rest h.1) refl

-- A complete event is two lines for the client, the second one empty.
pub scan_lines-event :
    (line rest : List ℕ)
    → IsLine line
    → scan_lines (line ++ (10 ∷ (10 ∷ rest))) ≡ line ∷ ([] ∷ scan_lines rest)
scan_lines-event line rest h =
    scan_lines-line line (10 ∷ rest) h ∙ ap (λ q. line ∷ q) (scan_lines-line [] rest tt)

split_event-line :
    (line rest : List ℕ)
    → IsLine line
    → split_event (line ++ (10 ∷ (10 ∷ rest))) ≡ some (line, rest)
unfolding split_event
split_event-line [] rest h = refl
split_event-line (c ∷ []) rest h = rw h.0 refl
split_event-line (c ∷ (d ∷ cs)) rest h = rw (h.0, split_event-line (d ∷ cs) rest h.1) refl

-- The bytes of some events.
abbrev pub framed : List (List ℕ) → List ℕ
framed [] = []
framed (line ∷ lines) = line ++ (10 ∷ (10 ∷ framed lines))

-- The interceptor's loop takes all events off the bytes and leaves none.
pub drain-framed :
    (n : ℕ) (lines : List (List ℕ))
    → All IsLine lines
    → length (framed lines) ≤ n
    → drain n (framed lines) ≡ (lines, [])
unfolding drain split_event
drain-framed zero [] h k = refl
drain-framed (suc n) [] h k = refl
drain-framed zero (line ∷ lines) h k =
    absurd (omega (arith, length-append line (10 ∷ (10 ∷ framed lines))))
drain-framed (suc n) (line ∷ lines) h k =
    let shorter : length (framed lines) ≤ n =
      omega (arith, length-append line (10 ∷ (10 ∷ framed lines))) in
    rw (split_event-line line (framed lines) h.0, drain-framed n lines h.1 shorter) refl

pub trim_left-word : (b : ℕ) (bs : List ℕ) → is_space b ≡ false → trim_left (b ∷ bs) ≡ b ∷ bs
trim_left-word b bs h = rw h refl

-- A line between two characters that are not white space.
pub trim_space-line :
    (a b : ℕ) (middle : List ℕ)
    → is_space a ≡ false
    → is_space b ≡ false
    → let line = (a ∷ middle) ++ (b ∷ []) in trim_space line ≡ line
trim_space-line a b middle ha hb =
    let line = (a ∷ middle) ++ (b ∷ []) in
    let backwards : reverse line ≡ b ∷ reverse (a ∷ middle) =
      reverse-append (a ∷ middle) (b ∷ []) in
    let left : trim_left line ≡ line = trim_left-word a (middle ++ (b ∷ [])) ha in
    ap (λ q. reverse (trim_left (reverse q))) left
    ∙ ap (λ q. reverse (trim_left q)) backwards
    ∙ ap reverse (trim_left-word b (reverse (a ∷ middle)) hb)
    ∙ ap reverse (sym backwards)
    ∙ reverse-reverse line

without_first_cr-other :
    (b : ℕ) (bs : List ℕ) → (b == 13) ≡ false → without_first_cr (b ∷ bs) ≡ b ∷ bs
unfolding without_first_cr
without_first_cr-other b bs h = rw h refl

pub drop_cr-line :
    (b : ℕ) (front : List ℕ) → (b == 13) ≡ false → drop_cr (front ++ (b ∷ [])) ≡ front ++ (b ∷ [])
unfolding drop_cr
drop_cr-line b front h =
    let line = front ++ (b ∷ []) in
    let backwards : reverse line ≡ b ∷ reverse front = reverse-append front (b ∷ []) in
    ap (λ q. reverse (without_first_cr q)) backwards
    ∙ ap reverse (without_first_cr-other b (reverse front) h)
    ∙ ap reverse (sym backwards)
    ∙ reverse-reverse line
