-- ===== src/Cli/Tui/Pinned.antt =====
-- cmd/cli/tui.go, and `conversationHash` of internal/proxy/handler.go: the requests of a session belong
-- to one conversation.
use mathlib.Core.List.{map-append}
use prompt_response.Common.{
  ℕ, suc, ◌+◌, ◌≡◌, refl, sym, ap, ◌∙◌, subst, Bool, true, false, String, List, [], ◌∷◌, ◌++◌, map,
  arith, if◌then◌else◌,
}
use prompt_response.Cli.{Message}
use prompt_response.Cli.Tui.{
  Model, Msg, Cmd, nothing, quit, start_send, wait_for_stream, update, new_model, persist,
  user_message, assistant_message, on_enter, idle_key, Key, streaming_key, esc, ctrl_c, enter, key,
  window_size, send_started, send_failed, stream_delta, stream_error, stream_done,
  last_assistant_content,
}
use prompt_response.Proxy.Messages
use prompt_response.Proxy.Messages.{first_user_message, count_turns, conversation_hash}
use prompt_response.Proxy.Stream.{trim_space}

-- The messages that a command sends.
abbrev pub sent_by : Cmd → List (List Message) → List (List Message)
sent_by (start_send msgs) rest = msgs ∷ rest
sent_by nothing rest = rest
sent_by quit rest = rest
sent_by wait_for_stream rest = rest

-- The requests of a run.
unfoldable pub requests : Model → List (ℕ × Msg) → List (List Message)
requests m [] = []
requests m ((now, msg) ∷ rest) = let u = update m now msg in sent_by u.cmd (requests u.model rest)

-- `read` is the text that the proxy reads of some bytes.
module _ (read : List ℕ → String) where
  abbrev pub as_read : List Message → List Messages.Message
  as_read msgs =
      map
        (λ (m : Message).
          let r : Messages.Message = record { role = m.role; content = read m.content } in r)
        msgs

  as_read-append : (xs ys : List Message) → as_read (xs ++ ys) ≡ as_read xs ++ as_read ys
  as_read-append xs ys = map-append _ xs ys

  -- The first user message stays, once there is one.
  first_user-append :
      (xs ys : List Messages.Message) (n : ℕ)
      → count_turns xs ≡ suc n
      → first_user_message (xs ++ ys) ≡ first_user_message xs
  unfolding count_turns first_user_message
  first_user-append [] ys n e = cc
  first_user-append (x ∷ xs) ys n e = ground (arith, first_user-append xs ys n)

  count_turns-append :
      (xs ys : List Messages.Message) → count_turns (xs ++ ys) ≡ count_turns xs + count_turns ys
  unfolding count_turns
  count_turns-append [] ys = omega arith
  count_turns-append (x ∷ xs) ys = ground (arith, count_turns-append xs ys)

  -- What a message of `Update` does to the conversation: nothing, or it adds a reply, or it adds a
  -- prompt, which is sent.
  data Grows (msgs : List Message) : List Message → Cmd → Type 0 where
    same :
        {msgs' : List Message} {cmd : Cmd}
        → msgs' ≡ msgs
        → ((r : List (List Message)) → sent_by cmd r ≡ r)
        → Grows msgs msgs' cmd
    replied :
        {msgs' : List Message} {cmd : Cmd} (text : List ℕ)
        → msgs' ≡ persist msgs text
        → ((r : List (List Message)) → sent_by cmd r ≡ r)
        → Grows msgs msgs' cmd
    prompted :
        {msgs' : List Message} {cmd : Cmd} (text : List ℕ)
        → msgs' ≡ msgs ++ (user_message text ∷ [])
        → cmd ≡ start_send msgs'
        → Grows msgs msgs' cmd

  on_enter-Grows :
      (m : Model) (now : ℕ) (text : List ℕ)
      → Grows m.msgs (on_enter m now text).model.msgs (on_enter m now text).cmd
  unfolding on_enter
  on_enter-Grows m now [] = same refl (λ r. refl)
  on_enter-Grows m now (c ∷ cs) = prompted m.input refl refl

  key-Grows :
      (streaming : Bool) (m : Model) (now : ℕ) (k : Key)
      → let u = if streaming then streaming_key m k else idle_key m now k in
        Grows m.msgs u.model.msgs u.cmd
  unfolding idle_key streaming_key
  key-Grows true m now esc = same refl (λ r. refl)
  key-Grows true m now ctrl_c = same refl (λ r. refl)
  key-Grows true m now _ = same refl (λ r. refl)
  key-Grows false m now enter = on_enter-Grows m now (trim_space m.input)
  key-Grows false m now _ = same refl (λ r. refl)

  update-Grows :
      (m : Model) (now : ℕ) (msg : Msg)
      → let u = update m now msg in Grows m.msgs u.model.msgs u.cmd
  unfolding update idle_key streaming_key
  update-Grows m now (window_size w h) = same refl (λ r. refl)
  update-Grows m now (send_failed e) = same refl (λ r. refl)
  update-Grows m now send_started = same refl (λ r. refl)
  update-Grows m now (stream_delta d) = same refl (λ r. refl)
  update-Grows m now (stream_error e) = same refl (λ r. refl)
  update-Grows m now stream_done = replied (last_assistant_content m) refl (λ r. refl)
  update-Grows m now (key k) = key-Grows m.streaming m now k

  -- The session so far has so many prompts, and this is the first of them.
  abbrev Holds : String → ℕ → List Message → Type 0
  Holds first n msgs =
      (count_turns (as_read msgs) ≡ n) × (first_user_message (as_read msgs) ≡ first)

  count_turns-then :
      (msgs more : List Message)
      → count_turns (as_read (msgs ++ more))
        ≡ count_turns (as_read msgs) + count_turns (as_read more)
  count_turns-then msgs more =
      ap count_turns (as_read-append msgs more) ∙ count_turns-append (as_read msgs) (as_read more)

  first-then :
      (n : ℕ) (msgs more : List Message)
      → count_turns (as_read msgs) ≡ suc n
      → first_user_message (as_read (msgs ++ more)) ≡ first_user_message (as_read msgs)
  first-then n msgs more count =
      ap first_user_message (as_read-append msgs more)
      ∙ first_user-append (as_read msgs) (as_read more) n count

  count_turns-persist :
      (msgs : List Message) (text : List ℕ)
      → count_turns (as_read (persist msgs text)) ≡ count_turns (as_read msgs)
  unfolding count_turns
  count_turns-persist msgs [] = refl
  count_turns-persist msgs (c ∷ cs) =
      omega (arith, count_turns-then msgs (assistant_message (c ∷ cs) ∷ []))

  count_turns-prompt :
      (msgs : List Message) (text : List ℕ)
      → count_turns (as_read (msgs ++ (user_message text ∷ []))) ≡ suc (count_turns (as_read msgs))
  unfolding count_turns
  count_turns-prompt msgs text = omega (arith, count_turns-then msgs (user_message text ∷ []))

  Holds-persist :
      (first : String) (n : ℕ) (msgs : List Message) (text : List ℕ)
      → Holds first (suc n) msgs
      → Holds first (suc n) (persist msgs text)
  Holds-persist first n msgs [] h = h
  Holds-persist first n msgs (c ∷ cs) (count, here) = (
    count_turns-persist msgs (c ∷ cs) ∙ count,
    first-then n msgs (assistant_message (c ∷ cs) ∷ []) count ∙ here,
  )

  Holds-prompt :
      (first : String) (n : ℕ) (msgs : List Message) (text : List ℕ)
      → Holds first (suc n) msgs
      → Holds first (suc (suc n)) (msgs ++ (user_message text ∷ []))
  Holds-prompt first n msgs text (count, here) = (
    count_turns-prompt msgs text ∙ ap suc count,
    first-then n msgs (user_message text ∷ []) count ∙ here,
  )

  -- The requests of one conversation, from a turn on.
  abbrev pub Session : String → ℕ → List (List Message) → Type 0
  Session first n [] = Unit
  Session first n (r ∷ rs) = Holds first (suc n) r × Session first (suc n) rs

  after-Grows :
      (first : String) (n : ℕ) {msgs msgs' : List Message} {cmd : Cmd} (rest : List (List Message))
      → Grows msgs msgs' cmd
      → Holds first (suc n) msgs
      → ((k : ℕ) → Holds first (suc k) msgs' → Session first (suc k) rest)
      → Session first (suc n) (sent_by cmd rest)
  after-Grows first n rest (same e quiet) h ih =
      rw (quiet rest) (ih n (subst (Holds first (suc n)) (sym e) h))
  after-Grows first n {msgs} rest (replied text e quiet) h ih =
      rw (quiet rest)
        (ih n (subst (Holds first (suc n)) (sym e) (Holds-persist first n msgs text h)))
  after-Grows first n {msgs} rest (prompted text e c) h ih =
      let now = subst (Holds first (suc (suc n))) (sym e) (Holds-prompt first n msgs text h) in
      rw c (now, ih (suc n) now)

  requests-later :
      (first : String) (es : List (ℕ × Msg)) (m : Model) (n : ℕ)
      → Holds first (suc n) m.msgs
      → Session first (suc n) (requests m es)
  unfolding requests
  requests-later first [] m n h = tt
  requests-later first ((now, msg) ∷ es) m n h =
      let u = update m now msg in
      after-Grows first n (requests u.model es) (update-Grows m now msg) h
        (requests-later first es u.model)

  -- Before the first prompt.
  abbrev pub first_of : List (List Message) → String
  first_of [] = ""
  first_of (r ∷ rs) = first_user_message (as_read r)

  before-Grows :
      {msgs msgs' : List Message} {cmd : Cmd} (rest : List (List Message))
      → Grows msgs msgs' cmd
      → count_turns (as_read msgs) ≡ 0
      → (count_turns (as_read msgs') ≡ 0 → Session (first_of rest) 0 rest)
      → ((first : String) → Holds first 1 msgs' → Session first 1 rest)
      → Session (first_of (sent_by cmd rest)) 0 (sent_by cmd rest)
  before-Grows rest (same e quiet) none_yet quiet_ih ih =
      rw (quiet rest) (quiet_ih (subst (λ l. count_turns (as_read l) ≡ 0) (sym e) none_yet))
  before-Grows {msgs} rest (replied text e quiet) none_yet quiet_ih ih = rw (quiet rest) (
      quiet_ih (
        subst (λ l. count_turns (as_read l) ≡ 0) (sym e)
          (count_turns-persist msgs text ∙ none_yet)))
  before-Grows {msgs} {msgs'} rest (prompted text e c) none_yet quiet_ih ih =
      let now : Holds (first_user_message (as_read msgs')) 1 msgs' = (
        ap (λ l. count_turns (as_read l)) e ∙ count_turns-prompt msgs text ∙ ap suc none_yet,
        refl,
      ) in
      rw c (now, ih (first_user_message (as_read msgs')) now)

  requests-Session :
      (es : List (ℕ × Msg)) (m : Model)
      → count_turns (as_read m.msgs) ≡ 0
      → Session (first_of (requests m es)) 0 (requests m es)
  unfolding requests
  requests-Session [] m none_yet = tt
  requests-Session ((now, msg) ∷ es) m none_yet =
      let u = update m now msg in
      before-Grows (requests u.model es) (update-Grows m now msg) none_yet
        (requests-Session es u.model) (λ first. requests-later first es u.model 0)

  count_turns-new_model : (system : List ℕ) → count_turns (as_read (new_model system).msgs) ≡ 0
  unfolding new_model count_turns
  count_turns-new_model [] = refl
  count_turns-new_model (c ∷ cs) = refl

  module _ (hash : String → ℕ) (prefixed : String → String) where
    -- The requests have this conversation hash, and one turn more each than the one before.
    abbrev pub OneConversation : ℕ → ℕ → List (List Message) → Type 0
    OneConversation h n [] = Unit
    OneConversation h n (r ∷ rs) =
        (conversation_hash hash prefixed "" (first_user_message (as_read r)) ≡ h)
        × (count_turns (as_read r) ≡ suc n)
        × OneConversation h (suc n) rs

    Session-OneConversation :
        (first : String) (n : ℕ) (rs : List (List Message))
        → Session first n rs
        → OneConversation (hash first) n rs
    unfolding conversation_hash
    Session-OneConversation first n [] h = tt
    Session-OneConversation first n (r ∷ rs) h =
        (ap hash h.0.1, h.0.0, Session-OneConversation first (suc n) rs h.1)

    -- Whatever a session of the client gets, in any order, the requests that it sends all have the
    -- proxy's conversation hash of the first of them, without a conversation id in the header, and
    -- the n-th of them has n turns.
    pub requests-new_model :
        (system : List ℕ) (es : List (ℕ × Msg))
        → let rs = requests (new_model system) es in OneConversation (hash (first_of rs)) 0 rs
    requests-new_model system es =
        Session-OneConversation _ 0 _
          (requests-Session es (new_model system) (count_turns-new_model system))
