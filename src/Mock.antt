-- ===== src/Mock.antt =====
-- cmd/mock/main.go: the chat stream of the mock router. Texts are lists of bytes. JSON is an argument,
-- and so is whether the client has left. `Fields` is modelled for ASCII white space.
pub mod Words
pub mod Framing
pub mod Kept
pub mod Streamed
use prompt_response.Common.{
  ℕ, suc, ◌+◌, ◌*◌, ◌%◌, ◌^◌, Bool, true, false, not, String, List, [], ◌∷◌, ◌++◌, Option, none,
  some, if◌then◌else◌, str_eq, codes, length, get_or,
}
use prompt_response.Proxy.Stream.{is_space}

-- The words of a text, and the word at its start, which white space ends.
after_byte : ℕ → List ℕ × List (List ℕ) → List ℕ × List (List ℕ)
after_byte c (word, words) = (c ∷ word, words)

abbrev pub flush_word : List ℕ → List (List ℕ) → List (List ℕ)
flush_word [] words = words
flush_word (c ∷ cs) words = (c ∷ cs) ∷ words

pub words_from : List ℕ → List ℕ × List (List ℕ)
unfolding after_byte
words_from [] = ([], [])
words_from (c ∷ cs) =
    let rest = words_from cs in
    if is_space c then ([], flush_word rest.0 rest.1) else after_byte c rest

-- `Fields`.
unfoldable pub fields : List ℕ → List (List ℕ)
unfolding words_from
fields text = flush_word (words_from text).0 (words_from text).1

-- Each word but the last with a space behind it.
unfoldable pub spaced : List (List ℕ) → List (List ℕ)
spaced [] = []
spaced (word ∷ []) = word ∷ []
spaced (word ∷ (next ∷ words)) = (word ++ codes " ") ∷ spaced (next ∷ words)

unfoldable pub split_tokens : List ℕ → List (List ℕ)
unfolding fields spaced
split_tokens text = spaced (fields text)

-- `encode` is the JSON of a chunk with a content, which has a role too if it is the first.
module _ (encode : Bool → List ℕ → List ℕ) where
  unfoldable pub write_sse_chunk : Bool → List ℕ → List ℕ
  write_sse_chunk first piece = codes "data: " ++ (encode first piece ++ (10 ∷ (10 ∷ [])))

  -- The loop over the pieces. The client is looked for before and after each write: `gone` tells, by
  -- how often it was looked for, whether it has left.
  unfoldable pub write_pieces : (ℕ → Bool) → ℕ → Bool → List (List ℕ) → List ℕ
  unfolding write_sse_chunk
  write_pieces gone n first [] = codes "data: [DONE]" ++ (10 ∷ (10 ∷ []))
  write_pieces gone n first (piece ∷ pieces) =
      let rest = write_pieces gone (n + 2) false pieces in
      if gone n then [] else write_sse_chunk first piece ++ (if gone (n + 1) then [] else rest)

pub data Reply : Type 0 where
  error_body : ℕ → String → String → Reply
  stream : List ℕ → Reply

-- A number that wraps at 2 ^ 64.
abbrev pub bump : ℕ → ℕ
bump n = (n + 1) % 2 ^ 64

module _ {B : Type 0} (encode : Bool → List ℕ → List ℕ) (decodes : B → Bool)
    (canned_replies : List (List ℕ)) where
  -- The reply, and `replyCounter` after it. `flushes` tells whether the writer is a `Flusher`.
  unfoldable pub handle_stream : Bool → (ℕ → Bool) → ℕ → String → B → Reply × ℕ
  unfolding write_pieces split_tokens
  handle_stream flushes gone counter method body =
      if not (str_eq method "POST")
      then (error_body 405 "method not allowed" "invalid_request_error", counter)
      else if not (decodes body)
      then (error_body 400 "invalid JSON body" "invalid_request_error", counter)
      else if not flushes
      then (error_body 500 "streaming unsupported" "server_error", counter)
      else let reply = get_or canned_replies (bump counter % length canned_replies) [] in
        (stream (write_pieces encode gone 0 true (split_tokens reply)), bump counter)
