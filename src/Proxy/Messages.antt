-- ===== src/Proxy/Messages.antt =====
-- internal/proxy/handler.go: what is read off the messages of a request. A hash (xxhash) and the
-- texts' lengths in bytes are arguments.
use prompt_response.Common.{
  ℕ, suc, ◌/◌, Bool, ◌||◌, String, List, [], ◌∷◌, if◌then◌else◌, str_eq, codes, contains,
}

pub record Message : Type 0 where
  pub role : String
  pub content : String

extract_from : String → String → List Message → String × String
extract_from system user [] = (system, user)
extract_from system user (m ∷ ms) =
    extract_from (if str_eq m.role "system" then m.content else system)
      (if str_eq m.role "user" then m.content else user) ms

-- The last system prompt and the last user message.
unfoldable pub extract_messages : List Message → String × String
unfolding extract_from
extract_messages ms = extract_from "" "" ms

unfoldable pub first_user_message : List Message → String
first_user_message [] = ""
first_user_message (m ∷ ms) = if str_eq m.role "user" then m.content else first_user_message ms

unfoldable pub count_turns : List Message → ℕ
count_turns [] = 0
count_turns (m ∷ ms) = if str_eq m.role "user" then suc (count_turns ms) else count_turns ms

-- `header` is the value of X-Conversation-Id, and `prefixed` puts "cid:" in front of a text.
unfoldable pub conversation_hash : (String → ℕ) → (String → String) → String → String → ℕ
conversation_hash hash prefixed header first_user =
    if str_eq header "" then hash first_user else hash (prefixed header)

unfoldable pub estimate_tokens : ℕ → ℕ
estimate_tokens bytes = bytes / 4

unfoldable pub has_code_block : String → Bool
has_code_block text =
    contains (codes text) (codes "```")
    || (contains (codes text) (codes "func ")
        || (contains (codes text) (codes "def ") || contains (codes text) (codes "class ")))
