-- ===== src/Mock/Kept.antt =====
-- A turn of the terminal client with the mock router keeps the whole reply.
use mathlib.Core.List.{append_assoc, reverse-append, reverse-reverse}
use prompt_response.Common.{
  ℕ, ◌%◌, length, get_or, String, Option, none, ◌≡◌, refl, sym, ap, ap₂, ◌∙◌, Bool, true, false,
  List, [], ◌∷◌, ◌++◌, map, reverse, codes, All, All-append, ◌==◌, contains, has_prefix, arith,
}
use prompt_response.Cli.{StreamMsg, delta, sent, response, send}
use prompt_response.Cli.Tui.{Model, run, persist, user_message, blank_line}
use prompt_response.Cli.Tui.Saved.{shown, shown_all, turn, turn-keeps}
use prompt_response.Mock.{fields, split_tokens, handle_stream, stream, bump}
use prompt_response.Mock.Streamed.{IsJson, Fits, handle_stream-read}
use prompt_response.Mock.Words.{NoSpace, IsWord, fields-IsWord, joined, concat}
use prompt_response.Mock.Framing.{IsLine, trim_left-word}
use prompt_response.Proxy.Stream.{is_space, trim_space, trim_left}

NoSpace-IsLine : (w : List ℕ) → NoSpace w → IsLine w
NoSpace-IsLine [] h = tt
NoSpace-IsLine (c ∷ cs) h = (ground (arith, h.0), NoSpace-IsLine cs h.1)

IsWord-IsLine : (w : List ℕ) → IsWord w → IsLine w
IsWord-IsLine [] h = absurd h
IsWord-IsLine (c ∷ cs) h = NoSpace-IsLine (c ∷ cs) h

joined-IsLine : (ws : List (List ℕ)) → All IsWord ws → IsLine (joined ws)
joined-IsLine [] h = tt
joined-IsLine (w ∷ []) h = IsWord-IsLine w h.0
joined-IsLine (w ∷ (v ∷ ws)) h =
    All-append (λ c. (c == 10) ≡ false) w (codes " " ++ joined (v ∷ ws)) (IsWord-IsLine w h.0)
      (refl, joined-IsLine (v ∷ ws) h.1)

contains-line : (xs : List ℕ) → IsLine xs → contains xs blank_line ≡ false
unfolding contains has_prefix
contains-line [] h = refl
contains-line (x ∷ xs) h = rw (h.0, contains-line xs h.1) refl

-- The last character, which is no white space.
Last : List ℕ → Type 0
Last xs = (front : List ℕ) × (b : ℕ) × (xs ≡ front ++ (b ∷ [])) × (is_space b ≡ false)

NoSpace-Last : (c : ℕ) (cs : List ℕ) → NoSpace (c ∷ cs) → Last (c ∷ cs)
unfolding Last
NoSpace-Last c [] h = ([], c, refl, h.0)
NoSpace-Last c (d ∷ ds) h =
    let (front, b, e, word) = NoSpace-Last d ds h.1 in (c ∷ front, b, ap (λ q. c ∷ q) e, word)

joined-Last : (w : List ℕ) (ws : List (List ℕ)) → All IsWord (w ∷ ws) → Last (joined (w ∷ ws))
unfolding Last
joined-Last [] ws h = absurd h.0
joined-Last (c ∷ cs) [] h = NoSpace-Last c cs h.0
joined-Last (c ∷ cs) (v ∷ ws) h =
    let (front, b, e, word) = joined-Last v ws h.1 in
    (
      (c ∷ cs) ++ (codes " " ++ front),
      b,
      ap (λ q. (c ∷ cs) ++ (codes " " ++ q)) e
          ∙ sym (append_assoc (c ∷ cs) (codes " " ++ front) (b ∷ [])),
      word,
    )

trim_space-Last :
    (c : ℕ) (cs : List ℕ) → is_space c ≡ false → Last (c ∷ cs) → trim_space (c ∷ cs) ≡ c ∷ cs
unfolding Last
trim_space-Last c cs word (front, b, e, ends) =
    let backwards : reverse (c ∷ cs) ≡ b ∷ reverse front =
      ap reverse e ∙ reverse-append front (b ∷ []) in
    ap (λ q. reverse (trim_left (reverse q))) (trim_left-word c cs word)
    ∙ ap (λ q. reverse (trim_left q)) backwards
    ∙ ap reverse (trim_left-word b (reverse front) ends)
    ∙ ap reverse (sym backwards)
    ∙ reverse-reverse (c ∷ cs)

trim_space-joined : (ws : List (List ℕ)) → All IsWord ws → trim_space (joined ws) ≡ joined ws
trim_space-joined [] h = refl
trim_space-joined ([] ∷ ws) h = absurd h.0
trim_space-joined ((c ∷ cs) ∷ []) h = trim_space-Last c cs h.0.0 (joined-Last (c ∷ cs) [] h)
trim_space-joined ((c ∷ cs) ∷ (v ∷ ws)) h =
    trim_space-Last c (cs ++ (codes " " ++ joined (v ∷ ws))) h.0.0 (joined-Last (c ∷ cs) (v ∷ ws) h)

shown_all-deltas :
    (pieces : List (List ℕ)) (es : List (ℕ × StreamMsg))
    → map (λ (e : ℕ × StreamMsg). e.1) es ≡ map delta pieces
    → shown_all es ≡ concat pieces
shown_all-deltas [] [] e = refl
shown_all-deltas [] (x ∷ es) e = cc e
shown_all-deltas (p ∷ ps) [] e = cc e
shown_all-deltas (p ∷ ps) ((t, x) ∷ es) e =
    let same : x ≡ delta p = cc e in ap₂ ◌++◌ (ap shown same) (shown_all-deltas ps es (cc e))

-- A turn that shows a text's words, with one space between them, keeps them.
kept_whole :
    (text : List ℕ) (m : Model) (entered started : ℕ) (es : List (ℕ × StreamMsg)) (ended c : ℕ)
    (cs : List ℕ)
    → m.streaming ≡ false
    → trim_space m.input ≡ c ∷ cs
    → shown_all es ≡ joined (fields text)
    → (run m (turn entered started es ended)).msgs
      ≡ persist (m.msgs ++ (user_message m.input ∷ [])) (joined (fields text))
kept_whole text m entered started es ended c cs idle typed e =
    let words = fields-IsWord text in
    let prompted = m.msgs ++ (user_message m.input ∷ []) in
    (turn-keeps m entered started es ended c cs idle typed).0 (
      ap (λ q. contains q blank_line) e
      ∙ contains-line (joined (fields text)) (joined-IsLine (fields text) words))
    ∙ ap (persist prompted) (ap trim_space e ∙ trim_space-joined (fields text) words)

-- A turn of an idle client whose prompt is not blank, when the mock router can read its request and
-- the conditions of the mock's stream hold: `Send` gives messages, and if they come in their order
-- until the stream ends, then the turn adds the prompt to the conversation and after it the whole
-- canned reply, its words with one space between them (nothing, if it has none).
module _ (encode : Bool → List ℕ → List ℕ) (decode : List ℕ → Option (List (List ℕ)))
    {IsUtf8 : List ℕ → Type 0} (json : IsJson IsUtf8 encode decode) where
  pub turn-keeps_reply :
      {B : Type 0} (decodes : B → Bool) (canned_replies : List (List ℕ)) (gone : ℕ → Bool)
      (counter : ℕ) (body : B) (too_long : List ℕ) (name : String) (m : Model)
      (entered started ended c : ℕ) (cs : List ℕ)
      → decodes body ≡ true
      → ((k : ℕ) → gone k ≡ false)
      → let reply = get_or canned_replies (bump counter % length canned_replies) [] in
        All IsUtf8 (split_tokens reply)
        → Fits encode decode true (split_tokens reply)
        → m.streaming ≡ false
        → trim_space m.input ≡ c ∷ cs
        → let prompted = m.msgs ++ (user_message m.input ∷ []) in
          (bytes : List ℕ) × (handle_stream encode decodes canned_replies true gone counter "POST"
              body
            ≡ (stream bytes, bump counter))
          × ((es : List (ℕ × StreamMsg))
              → send decode too_long (λ r. response 200 bytes none) name prompted
                ≡ sent (map (λ (e : ℕ × StreamMsg). e.1) es)
              → (run m (turn entered started es ended)).msgs
                ≡ persist prompted (joined (fields reply)))
  unfolding send
  turn-keeps_reply decodes canned_replies gone counter body too_long name m entered started ended c
        cs readable stays valid fits idle typed =
      let reply = get_or canned_replies (bump counter % length canned_replies) [] in
      let (bytes, replied, read, counted, whole) =
        handle_stream-read encode decode json decodes canned_replies gone counter body too_long
          readable stays valid fits in
      (
        bytes,
        replied,
        λ es e.
            kept_whole reply m entered started es ended c cs idle typed
              (shown_all-deltas (split_tokens reply) es (cc (e, read)) ∙ whole),
      )
