-- ===== src/Tests/Clients.antt =====
-- Concrete sessions of the terminal client, and streams of the mock router.
use mathlib.Core.List.{reverse-append, reverse-reverse}
use prompt_response.Common.{
  ℕ, ◌+◌, ◌-◌, ◌%◌, ◌≡◌, refl, ap, ap₂, ◌∙◌, Bool, true, false, String, List, [], ◌∷◌, ◌++◌, map,
  reverse, Option, none, some, if◌then◌else◌, codes, length, get_or, list_eq, contains, arith,
}
use prompt_response.Cli.{StreamMsg, delta, send, sent, response, parse_sse_stream}
use prompt_response.Cli.Tui.{
  Model, Msg, new_model, key, runes, enter, send_started, stream_delta, stream_done, run, persist,
  user_message, blank_line,
}
use prompt_response.Cli.Tui.Pinned.{requests, OneConversation, first_of, requests-new_model}
use prompt_response.Cli.Tui.Saved.{shown_all, turn, turn-keeps}
use prompt_response.Mock.{handle_stream, stream, bump, split_tokens, fields}
use prompt_response.Mock.Words.{concat, joined}
use prompt_response.Mock.Framing.{IsLine}
use prompt_response.Mock.Streamed.{IsJson, tokens_of_all, handle_stream-read}
use prompt_response.Mock.Kept.{turn-keeps_reply}
use prompt_response.Proxy.Stream.{new_stream_interceptor, trim_space}
use prompt_response.Proxy.Stream.Fragments.{all_bytes, counts_of, write_all}

-- Two prompts, with a reply to the first one.
abbrev session : List (ℕ × Msg)
session =
    (0, key (runes (codes "hi")))
    ∷ (1, key enter)
    ∷ (2, send_started)
    ∷ (3, stream_delta (codes "ok"))
    ∷ (4, stream_done)
    ∷ (5, key (runes (codes "more")))
    ∷ (6, key enter)
    ∷ []

abbrev read_text : List ℕ → String
read_text text = if list_eq text (codes "hi") then "hi" else "more"

abbrev hash_of : String → ℕ
hash_of text = length (codes text)

abbrev prefixed : String → String
prefixed text = "cid"

requests-new_model_example :
    let rs = requests (new_model (codes "be brief")) session in
    OneConversation read_text hash_of prefixed (hash_of (first_of read_text rs)) 0 rs
requests-new_model_example =
    requests-new_model read_text hash_of prefixed (codes "be brief") session

-- An idle client with a prompt.
abbrev idle : Model
idle = record (new_model (codes "be brief")) { input = codes "hi" }

-- A reply of two paragraphs, which breaks off.
abbrev paragraphs : List (ℕ × StreamMsg)
paragraphs = (3, delta (codes "one")) ∷ (4, delta (blank_line ++ codes "two")) ∷ []

turn-keeps_example :
    let msgs = (run idle (turn 1 2 paragraphs 5)).msgs in
    let prompted = idle.msgs ++ (user_message idle.input ∷ []) in
    (contains (shown_all paragraphs) blank_line ≡ false
      → msgs ≡ persist prompted (trim_space (shown_all paragraphs)))
    × ((a b : List ℕ)
        → shown_all paragraphs ≡ a ++ (blank_line ++ b)
        → contains b blank_line ≡ false
        → msgs ≡ persist prompted (trim_space b))
unfolding new_model
turn-keeps_example = turn-keeps idle 1 2 paragraphs 5 b'h' (codes "i") refl refl

-- A JSON that moves each character away from the line feed.
abbrev shifted : List ℕ → List ℕ
shifted = map (λ c. c + 11)

encode : Bool → List ℕ → List ℕ
encode first piece = (b'{' ∷ shifted piece) ++ (b'}' ∷ [])

abbrev tail_of : List ℕ → List ℕ
tail_of [] = []
tail_of (c ∷ cs) = cs

decode : List ℕ → Option (List (List ℕ))
decode line = some (map (λ c. c - 11) (reverse (tail_of (reverse (tail_of line)))) ∷ [])

abbrev AnyText : List ℕ → Type 0
AnyText piece = Unit {0}

shifted-back : (xs : List ℕ) → map (λ c. c - 11) (shifted xs) ≡ xs
shifted-back [] = refl
shifted-back (x ∷ xs) = ap₂ (λ a rest. a ∷ rest) (omega arith) (shifted-back xs)

shifted-IsLine : (xs : List ℕ) → IsLine (shifted xs ++ (b'}' ∷ []))
shifted-IsLine [] = (refl, tt)
shifted-IsLine (x ∷ xs) = (ground arith, shifted-IsLine xs)

decode-encode : (first : Bool) (piece : List ℕ) → decode (encode first piece) ≡ some (piece ∷ [])
unfolding decode encode
decode-encode first piece =
    ap (λ q. some (map (λ c. c - 11) (reverse (tail_of q)) ∷ []))
      (reverse-append (shifted piece) (b'}' ∷ []))
    ∙ ap (λ q. some (map (λ c. c - 11) q ∷ [])) (reverse-reverse (shifted piece))
    ∙ ap (λ q. some (q ∷ [])) (shifted-back piece)

json : IsJson AnyText encode decode
unfolding encode decode
json = record {
  decoded = λ first piece valid. decode-encode first piece;
  one_line = λ first piece. (refl, shifted-IsLine piece);
  is_object = λ first piece. (shifted piece, refl);
}

abbrev replies : List (List ℕ)
replies = codes "Sure! Here" ∷ (codes "Great question." ∷ [])

abbrev decodes : ℕ → Bool
decodes body = true

abbrev stays : ℕ → Bool
stays n = false

handle_stream-read_example :
    let reply = get_or replies (bump 7 % length replies) [] in
    let pieces = split_tokens reply in
    (bytes : List ℕ) × (handle_stream encode decodes replies true stays 7 "POST" 0
      ≡ (stream bytes, bump 7))
    × (parse_sse_stream decode (codes "too long") bytes none ≡ map delta pieces)
    × ((ws : List (ℕ × List ℕ))
        → all_bytes ws ≡ bytes
        → counts_of (write_all decode new_stream_interceptor ws).stats
          ≡ (tokens_of_all pieces, length pieces, true))
    × (concat pieces ≡ joined (fields reply))
unfolding split_tokens encode
handle_stream-read_example =
    handle_stream-read encode decode json decodes replies stays 7 0 (codes "too long") refl
      (λ k. refl) (tt, (tt, tt)) (omega arith, (omega arith, tt))

turn-keeps_reply_example :
    let prompted = idle.msgs ++ (user_message idle.input ∷ []) in
    let reply = get_or replies (bump 7 % length replies) [] in
    (bytes : List ℕ) × (handle_stream encode decodes replies true stays 7 "POST" 0
      ≡ (stream bytes, bump 7))
    × ((es : List (ℕ × StreamMsg))
        → send decode (codes "too long") (λ r. response 200 bytes none) "auto" prompted
          ≡ sent (map (λ (e : ℕ × StreamMsg). e.1) es)
        → (run idle (turn 1 2 es 5)).msgs ≡ persist prompted (joined (fields reply)))
unfolding split_tokens encode new_model
turn-keeps_reply_example =
    turn-keeps_reply encode decode json decodes replies stays 7 0 (codes "too long") "auto" idle 1 2
      5 b'h' (codes "i") refl (λ k. refl) (tt, (tt, tt)) (omega arith, (omega arith, tt)) refl refl
