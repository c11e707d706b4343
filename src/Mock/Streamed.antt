-- ===== src/Mock/Streamed.antt =====
-- The mock's stream, as the proxy's interceptor (internal/proxy/stream.go) and the terminal client
-- (cmd/cli/client.go) read it.
use mathlib.Core.List.{append_assoc}
use prompt_response.Common.{
  ℕ, ◌+◌, ◌<◌, ◌≡◌, refl, sym, ap, ap₂, ◌∙◌, Bool, true, false, List, [], ◌∷◌, ◌++◌, map, Option,
  none, some, codes, ◌%◌, get_or, All, All-append, ◌==◌, length, leb, has_prefix, list_eq, arith,
}
use prompt_response.Cli.{delta, max_line, drop_cr, read_lines, parse_sse_stream, scan_lines}
use prompt_response.Mock.{
  write_sse_chunk, write_pieces, handle_stream, stream, bump, split_tokens, fields,
}
use prompt_response.Mock.Words.{
  IsFilled, split_tokens-IsFilled, concat, joined, concat-split_tokens,
}
use prompt_response.Mock.Framing.{
  IsLine, framed, scan_lines-event, drain-framed, trim_space-line, drop_cr-line,
}
use prompt_response.Proxy.Stream.{tokens_of, new_stream_interceptor, trim_space}
use prompt_response.Proxy.Stream.Drain.{drain}
use prompt_response.Proxy.Stream.Fragments.{
  Counts, counts_of, tally, tally_all, write_all, all_bytes, write_all_lem,
}

-- What JSON documents: a chunk is an object on one line, and its content is read back, if it is valid
-- UTF-8, which `IsUtf8` stands for.
pub record IsJson (IsUtf8 : List ℕ → Type 0) (encode : Bool → List ℕ → List ℕ)
    (decode : List ℕ → Option (List (List ℕ))) : Type 0 where
  pub decoded :
      (first : Bool) (piece : List ℕ)
      → IsUtf8 piece
      → decode (encode first piece) ≡ some (piece ∷ [])
  pub one_line : (first : Bool) (piece : List ℕ) → IsLine (encode first piece)
  pub is_object :
      (first : Bool) (piece : List ℕ)
      → (middle : List ℕ) × (encode first piece ≡ (b'{' ∷ middle) ++ (b'}' ∷ []))

abbrev done_line : List ℕ
done_line = codes "data: [DONE]"

label : IsLine (codes "data: ")
label = (refl, (refl, (refl, (refl, (refl, (refl, tt))))))

done_mark : IsLine (codes "[DONE]")
done_mark = (refl, (refl, (refl, (refl, (refl, (refl, tt))))))

-- The tokens that the interceptor counts of some pieces.
abbrev pub tokens_of_all : List (List ℕ) → ℕ
tokens_of_all [] = 0
tokens_of_all (p ∷ ps) = tokens_of p + tokens_of_all ps

module _ (encode : Bool → List ℕ → List ℕ) (decode : List ℕ → Option (List (List ℕ))) where
  abbrev event_line : Bool → List ℕ → List ℕ
  event_line first piece = codes "data: " ++ encode first piece

  abbrev event_lines : Bool → List (List ℕ) → List (List ℕ)
  event_lines first [] = done_line ∷ []
  event_lines first (piece ∷ pieces) = event_line first piece ∷ event_lines false pieces

  -- Every event's line is below the client's limit.
  abbrev pub Fits : Bool → List (List ℕ) → Type 0
  Fits first [] = Unit
  Fits first (piece ∷ pieces) = (length (event_line first piece) < max_line) × Fits false pieces

  write_pieces-framed :
      (gone : ℕ → Bool) (n : ℕ) (first : Bool) (pieces : List (List ℕ))
      → ((k : ℕ) → gone k ≡ false)
      → write_pieces encode gone n first pieces ≡ framed (event_lines first pieces)
  unfolding write_pieces write_sse_chunk
  write_pieces-framed gone n first [] stays = refl
  write_pieces-framed gone n first (piece ∷ pieces) stays =
      rw (stays n, stays (n + 1), write_pieces-framed gone (n + 2) false pieces stays)
        (append_assoc (event_line first piece) (10 ∷ (10 ∷ [])) (framed (event_lines false pieces)))

  module _ {IsUtf8 : List ℕ → Type 0} (json : IsJson IsUtf8 encode decode) where
    event_lines-IsLine :
        (first : Bool) (pieces : List (List ℕ)) → All IsLine (event_lines first pieces)
    event_lines-IsLine first [] =
        (All-append (λ c. (c == 10) ≡ false) (codes "data: ") (codes "[DONE]") label done_mark, tt)
    event_lines-IsLine first (piece ∷ pieces) = (
      All-append (λ c. (c == 10) ≡ false) (codes "data: ") (encode first piece) label
          (json.one_line first piece),
      event_lines-IsLine false pieces,
    )

    -- The line as it stands between its first and its last character.
    ends_with :
        (first : Bool) (piece : List ℕ)
        → (middle : List ℕ) × (event_line first piece
            ≡ (codes "data: " ++ (b'{' ∷ middle)) ++ (b'}' ∷ []))
    ends_with first piece =
        let (middle, e) = json.is_object first piece in (middle, ap (λ q. codes "data: " ++ q) e)

    not_done :
        (first : Bool) (piece : List ℕ) → list_eq (encode first piece) (codes "[DONE]") ≡ false
    unfolding list_eq
    not_done first piece = rw (json.is_object first piece).1 refl

    drop_cr-event :
        (first : Bool) (piece : List ℕ) → drop_cr (event_line first piece) ≡ event_line first piece
    drop_cr-event first piece =
        let (middle, e) = ends_with first piece in
        ap drop_cr e ∙ drop_cr-line b'}' (codes "data: " ++ (b'{' ∷ middle)) refl ∙ sym e

    trim_space-event :
        (first : Bool) (piece : List ℕ)
        → trim_space (event_line first piece) ≡ event_line first piece
    trim_space-event first piece =
        let (middle, e) = ends_with first piece in
        ap trim_space e
        ∙ trim_space-line b'd' b'}' (codes "ata: " ++ (b'{' ∷ middle)) refl refl
        ∙ sym e

    tally-event :
        (c : Counts) (first : Bool) (p : ℕ) (ps : List ℕ)
        → IsUtf8 (p ∷ ps)
        → tally decode c (event_line first (p ∷ ps)) ≡ (c.0 + tokens_of (p ∷ ps), c.1 + 1, c.2)
    unfolding has_prefix
    tally-event c first p ps valid =
        rw
          (
            trim_space-event first (p ∷ ps),
            not_done first (p ∷ ps),
            json.decoded first (p ∷ ps) valid,
          )
          refl

    tally_all-events :
        (c : Counts) (first : Bool) (pieces : List (List ℕ))
        → All IsFilled pieces
        → All IsUtf8 pieces
        → tally_all decode c (event_lines first pieces)
          ≡ (c.0 + tokens_of_all pieces, c.1 + length pieces, true)
    unfolding has_prefix list_eq
    tally_all-events c first [] h valid = ap₂ (λ t n. (t, n, true)) (omega arith) (omega arith)
    tally_all-events c first ([] ∷ pieces) h valid = absurd h.0
    tally_all-events c first ((p ∷ ps) ∷ pieces) h valid =
        ap (λ d. tally_all decode d (event_lines false pieces)) (tally-event c first p ps valid.0)
        ∙ tally_all-events (c.0 + tokens_of (p ∷ ps), c.1 + 1, c.2) false pieces h.1 valid.1
        ∙ ap₂ (λ t n. (t, n, true)) (omega arith) (omega arith)

    read_lines-event :
        (err : Option (List ℕ)) (too_long : List ℕ) (first : Bool) (p : ℕ) (ps : List ℕ)
        (lines : List (List ℕ))
        → IsUtf8 (p ∷ ps)
        → length (event_line first (p ∷ ps)) < max_line
        → read_lines decode too_long err (event_line first (p ∷ ps) ∷ ([] ∷ lines))
          ≡ delta (p ∷ ps) ∷ read_lines decode too_long err lines
    unfolding read_lines has_prefix
    read_lines-event err too_long first p ps lines valid h =
        let small : leb max_line (length (event_line first (p ∷ ps))) ≡ false = ground arith in
        rw
          (
            small,
            drop_cr-event first (p ∷ ps),
            not_done first (p ∷ ps),
            json.decoded first (p ∷ ps) valid,
          )
          refl

    read_lines-events :
        (too_long : List ℕ) (first : Bool) (pieces : List (List ℕ))
        → All IsFilled pieces
        → All IsUtf8 pieces
        → Fits first pieces
        → read_lines decode too_long none (scan_lines (framed (event_lines first pieces)))
          ≡ map delta pieces
    unfolding read_lines scan_lines has_prefix list_eq
    read_lines-events too_long first [] h valid fits = refl
    read_lines-events too_long first ([] ∷ pieces) h valid fits = absurd h.0
    read_lines-events too_long first ((p ∷ ps) ∷ pieces) h valid fits =
        let rest = framed (event_lines false pieces) in
        ap (read_lines decode too_long none) (
          scan_lines-event (event_line first (p ∷ ps)) rest
            (event_lines-IsLine first ((p ∷ ps) ∷ [])).0)
        ∙ read_lines-event none too_long first p ps (scan_lines rest) valid.0 fits.0
        ∙ ap (λ q. delta (p ∷ ps) ∷ q) (read_lines-events too_long false pieces h.1 valid.1 fits.1)

    -- The interceptor's counts of the mock's bytes.
    counted :
        (pieces : List (List ℕ)) (ws : List (ℕ × List ℕ))
        → all_bytes ws ≡ framed (event_lines true pieces)
        → All IsUtf8 pieces
        → All IsFilled pieces
        → counts_of (write_all decode new_stream_interceptor ws).stats
          ≡ (tokens_of_all pieces, length pieces, true)
    counted pieces ws e valid filled =
        let lines = event_lines true pieces in
        (write_all_lem decode ws).0
        ∙ ap (λ b. tally_all decode (0, 0, false) (drain (length b) b).0) e
        ∙ ap (λ (d : List (List ℕ) × List ℕ). tally_all decode (0, 0, false) d.0)
            (drain-framed (length (framed lines)) lines (event_lines-IsLine true pieces)
              (omega arith))
        ∙ tally_all-events (0, 0, false) true pieces filled valid
        ∙ ap₂ (λ t n. (t, n, true)) (omega arith) (omega arith)

    -- The mock's reply to a request that it can read, when its text is valid UTF-8, the client stays
    -- and no line reaches the client's limit: the client reads exactly the pieces of the canned text,
    -- in their order and with no error; the proxy's interceptor, however the bytes are cut into
    -- writes, counts one chunk for each piece, their tokens, and the end; and the pieces are together
    -- the text's words with one space between them.
    pub handle_stream-read :
        {B : Type 0} (decodes : B → Bool) (canned_replies : List (List ℕ)) (gone : ℕ → Bool)
        (counter : ℕ) (body : B) (too_long : List ℕ)
        → decodes body ≡ true
        → ((k : ℕ) → gone k ≡ false)
        → let reply = get_or canned_replies (bump counter % length canned_replies) [] in
          let pieces = split_tokens reply in
          All IsUtf8 pieces
          → Fits true pieces
          → (bytes : List ℕ) × (handle_stream encode decodes canned_replies true gone counter "POST"
                body
              ≡ (stream bytes, bump counter))
            × (parse_sse_stream decode too_long bytes none ≡ map delta pieces)
            × ((ws : List (ℕ × List ℕ))
                → all_bytes ws ≡ bytes
                → counts_of (write_all decode new_stream_interceptor ws).stats
                  ≡ (tokens_of_all pieces, length pieces, true))
            × (concat pieces ≡ joined (fields reply))
    unfolding handle_stream parse_sse_stream
    handle_stream-read decodes canned_replies gone counter body too_long readable stays valid fits =
        let reply = get_or canned_replies (bump counter % length canned_replies) [] in
        let pieces = split_tokens reply in
        let filled = split_tokens-IsFilled reply in
        let lines = event_lines true pieces in
        (
          framed lines,
          rw (readable, write_pieces-framed gone 0 true pieces stays) refl,
          read_lines-events too_long true pieces filled valid fits,
          λ ws e. counted pieces ws e valid filled,
          concat-split_tokens reply,
        )
