-- ===== src/Cli/Tui/Busy.antt =====
-- cmd/cli/tui.go: when the client sends. While it streams, no key makes it send or edit; between Enter
-- and the start of the stream nothing holds it back.
use prompt_response.Common.{
  ℕ, ◌≡◌, refl, sym, ap, subst, ◌∙◌, true, false, List, [], ◌∷◌, ◌++◌, if◌then◌else◌, All,
}
use prompt_response.Cli.{Message}
use prompt_response.Cli.Tui.{
  Model, Msg, Key, esc, ctrl_c, enter, runes, key, window_size, send_started, send_failed,
  stream_delta, stream_error, stream_done, update, run, idle_key, streaming_key, on_enter,
  user_message,
}
use prompt_response.Cli.Tui.Pinned.{requests, sent_by}
use prompt_response.Cli.Tui.Saved.{update-enter}
use prompt_response.Proxy.Stream.{trim_space}

-- Not the end of the stream.
abbrev pub Goes : ℕ × Msg → Type 0
Goes (now, stream_done) = ⊥
Goes (now, window_size w h) = Unit
Goes (now, key k) = Unit
Goes (now, send_failed e) = Unit
Goes (now, send_started) = Unit
Goes (now, stream_delta d) = Unit
Goes (now, stream_error e) = Unit

-- The client streams, with this conversation and this input.
pub record Streams (msgs : List Message) (input : List ℕ) (m : Model) : Type 0 where
  pub on : m.streaming ≡ true
  pub same_msgs : m.msgs ≡ msgs
  pub same_input : m.input ≡ input

-- A message leaves it so, and sends nothing.
abbrev Quiet : List Message → List ℕ → Model → ℕ → Msg → Type 0
Quiet msgs input m now msg =
    let u = update m now msg in
    Streams msgs input u.model × ((r : List (List Message)) → sent_by u.cmd r ≡ r)

module _ {msgs : List Message} {input : List ℕ} where
  streaming_key-Quiet :
      (m : Model) (k : Key)
      → Streams msgs input m
      → let u = streaming_key m k in
        Streams msgs input u.model × ((r : List (List Message)) → sent_by u.cmd r ≡ r)
  unfolding streaming_key
  streaming_key-Quiet m esc s = (s, λ r. refl)
  streaming_key-Quiet m ctrl_c s = (s, λ r. refl)
  streaming_key-Quiet m _ s = (s, λ r. refl)

  update-Quiet :
      (m : Model) (now : ℕ) (msg : Msg)
      → Goes (now, msg)
      → Streams msgs input m
      → Quiet msgs input m now msg
  unfolding update
  update-Quiet m now stream_done g s = absurd g
  update-Quiet m now (key k) g s =
      subst
        (λ b.
          let u = if b then streaming_key m k else idle_key m now k in
          Streams msgs input u.model × ((r : List (List Message)) → sent_by u.cmd r ≡ r))
        (sym s.on) (streaming_key-Quiet m k s)
  update-Quiet m now send_started g s =
      (record { on = refl; same_msgs = s.same_msgs; same_input = s.same_input }, λ r. refl)
  update-Quiet m now _ g s =
      (record { on = s.on; same_msgs = s.same_msgs; same_input = s.same_input }, λ r. refl)

  -- Until the end of a stream, whatever else the client gets, it sends no request, goes on streaming,
  -- and neither its conversation nor its input changes.
  pub run-Streams :
      (m : Model) (es : List (ℕ × Msg))
      → Streams msgs input m
      → All Goes es
      → (requests m es ≡ []) × Streams msgs input (run m es)
  unfolding requests run
  run-Streams m [] s g = (refl, s)
  run-Streams m ((now, msg) ∷ es) s g =
      let (s', quiet) = update-Quiet m now msg g.0 s in
      let (none_sent, after) = run-Streams (update m now msg).model es s' g.1 in
      (quiet (requests (update m now msg).model es) ∙ none_sent, after)

update-idle :
    (m : Model) (now : ℕ) (k : Key) → m.streaming ≡ false → update m now (key k) ≡ idle_key m now k
unfolding update
update-idle m now k idle = ap (λ b. if b then streaming_key m k else idle_key m now k) idle

-- An idle client whose input is not blank sends it at Enter; if another text that is not blank is
-- typed and entered before the stream starts, then that is sent too, in a second request next to the
-- first, in which no reply stands between the two prompts.
pub requests-entered_twice :
    (m : Model) (text : List ℕ) (t t' t'' c d : ℕ) (cs ds : List ℕ)
    → m.streaming ≡ false
    → trim_space m.input ≡ c ∷ cs
    → trim_space text ≡ d ∷ ds
    → let first = m.msgs ++ (user_message m.input ∷ []) in
      requests m ((t, key enter) ∷ ((t', key (runes text)) ∷ ((t'', key enter) ∷ [])))
      ≡ first ∷ ((first ++ (user_message text ∷ [])) ∷ [])
unfolding requests on_enter idle_key
requests-entered_twice m text t t' t'' c d cs ds idle typed again =
    let m₁ = (on_enter m t (c ∷ cs)).model in
    let m₂ = (idle_key m₁ t' (runes text)).model in
    let last = (t'', key enter) ∷ [] in
    let first = m.msgs ++ (user_message m.input ∷ []) in
    ap (λ u. sent_by u.cmd (requests u.model ((t', key (runes text)) ∷ last)))
      (update-enter m t c cs idle typed)
    ∙ ap (λ u. first ∷ sent_by u.cmd (requests u.model last)) (update-idle m₁ t' (runes text) idle)
    ∙ ap (λ u. first ∷ sent_by u.cmd []) (update-enter m₂ t'' d ds idle again)
