-- ===== src/Cli/Tui/Saved.antt =====
-- cmd/cli/tui.go: what a turn adds to the conversation that is sent with the next prompt.
use mathlib.Core.List.{append-nil, append_assoc}
use prompt_response.Common.{
  ℕ, ◌≡◌, refl, sym, ap, ◌∙◌, true, false, List, [], ◌∷◌, ◌++◌, none, some, ◌==◌, if◌then◌else◌,
  codes, contains, has_prefix, arith, Bool-cases, inl, inr,
}
use prompt_response.Cli.{StreamMsg, delta, failed}
use prompt_response.Cli.Tui.{
  Model, Msg, key, enter, send_started, stream_done, blank_line, after_last_blank, part_or_whole,
  last_assistant_content, prompt_of, on_enter, idle_key, streaming_key, persist, user_message,
  update, run, waited,
}
use prompt_response.Proxy.Stream.{trim_space, is_space}

-- What the client shows of what comes over the channel.
abbrev pub shown : StreamMsg → List ℕ
shown (delta d) = d
shown (failed e) = 10 ∷ (codes "[stream error] " ++ (e ++ (10 ∷ [])))

abbrev pub shown_all : List (ℕ × StreamMsg) → List ℕ
shown_all [] = []
shown_all ((now, e) ∷ es) = shown e ++ shown_all es

-- The stream's messages and its end.
abbrev pub stream_of : List (ℕ × StreamMsg) → ℕ → List (ℕ × Msg)
stream_of [] ended = (ended, waited none) ∷ []
stream_of ((now, e) ∷ es) ended = (now, waited (some e)) ∷ stream_of es ended

-- A turn: Enter, the start of the stream, its messages, and its end.
abbrev pub turn : ℕ → ℕ → List (ℕ × StreamMsg) → ℕ → List (ℕ × Msg)
turn entered started es ended =
    (entered, key enter) ∷ ((started, send_started) ∷ stream_of es ended)

after_last_blank-append :
    (xs ys r : List ℕ) → after_last_blank ys ≡ some r → after_last_blank (xs ++ ys) ≡ some r
unfolding after_last_blank
after_last_blank-append [] ys r e = e
after_last_blank-append (x ∷ xs) ys r e = rw (after_last_blank-append xs ys r e) refl

after_last_blank-none : (xs : List ℕ) → contains xs blank_line ≡ false → after_last_blank xs ≡ none
unfolding after_last_blank contains
after_last_blank-none [] e = refl
after_last_blank-none (x ∷ xs) e = ground (arith, after_last_blank-none xs)

-- White space at the start makes no difference.
trim_space-space : (c : ℕ) (cs : List ℕ) → is_space c ≡ true → trim_space (c ∷ cs) ≡ trim_space cs
trim_space-space c cs e = rw e refl

-- The text after a blank line, as the client cuts it.
after_blank :
    (reply : List ℕ)
    → contains reply blank_line ≡ false
    → (r : List ℕ) × (after_last_blank (blank_line ++ reply) ≡ some r)
      × (trim_space r ≡ trim_space reply)
unfolding after_last_blank has_prefix
after_blank [] plain = ([], refl, refl)
after_blank (c ∷ cs) plain = elim (Bool-cases (c == 10)) [
  | inl feed ↦ (
    cs,
    rw (after_last_blank-none (c ∷ cs) plain, feed) refl,
    sym (trim_space-space c cs (ground arith)),
  )
  | inr other ↦ (c ∷ cs, rw (after_last_blank-none (c ∷ cs) plain, other) refl, refl)
]

cut_at_blank :
    (before reply : List ℕ)
    → contains reply blank_line ≡ false
    → let out = before ++ (blank_line ++ reply) in
      trim_space (part_or_whole (after_last_blank out) out) ≡ trim_space reply
cut_at_blank before reply plain =
    let (r, e, same) = after_blank reply plain in
    rw (after_last_blank-append before (blank_line ++ reply) r e) same

run-stream_of :
    (es : List (ℕ × StreamMsg)) (ended : ℕ) (m : Model)
    → run m (stream_of es ended)
      ≡ (update (record m { output = m.output ++ shown_all es }) ended stream_done).model
unfolding run update
run-stream_of [] ended m = rw append-nil refl
run-stream_of ((now, delta d) ∷ es) ended m =
    run-stream_of es ended (record m { output = m.output ++ d })
    ∙ rw (append_assoc m.output d (shown_all es)) refl
run-stream_of ((now, failed e) ∷ es) ended m =
    run-stream_of es ended (record m { output = m.output ++ shown (failed e) })
    ∙ rw (append_assoc m.output (shown (failed e)) (shown_all es)) refl

-- What is shown by the end of a turn, cut where a blank line stands.
shown_by :
    (out input reply : List ℕ)
    → (before : List ℕ) × ((out ++ prompt_of input) ++ reply ≡ before ++ (blank_line ++ reply))
shown_by out input reply =
    let typed = (10 ∷ codes "> ") ++ input in
    (
      out ++ typed,
      ap (λ q. (out ++ q) ++ reply) (sym (append_assoc (10 ∷ codes "> ") input blank_line))
          ∙ ap (λ q. q ++ reply) (sym (append_assoc out typed blank_line))
          ∙ append_assoc (out ++ typed) blank_line reply,
    )

after_start :
    (m : Model) (started : ℕ) (es : List (ℕ × StreamMsg)) (ended : ℕ)
    → let out = m.output ++ shown_all es in
      (run (update m started send_started).model (stream_of es ended)).msgs
      ≡ persist m.msgs (trim_space (part_or_whole (after_last_blank out) out))
unfolding update last_assistant_content
after_start m started es ended =
    ap (λ u. u.msgs) (run-stream_of es ended (update m started send_started).model)

-- Enter at a prompt that is not blank.
pub update-enter :
    (m : Model) (now c : ℕ) (cs : List ℕ)
    → m.streaming ≡ false
    → trim_space m.input ≡ c ∷ cs
    → update m now (key enter) ≡ on_enter m now (c ∷ cs)
unfolding update
update-enter m now c cs idle typed =
    ap (λ b. if b then streaming_key m enter else idle_key m now enter) idle
    ∙ ap (on_enter m now) typed

run-turn :
    (m : Model) (entered started : ℕ) (es : List (ℕ × StreamMsg)) (ended c : ℕ) (cs : List ℕ)
    → m.streaming ≡ false
    → trim_space m.input ≡ c ∷ cs
    → let out = (m.output ++ prompt_of m.input) ++ shown_all es in
      (run m (turn entered started es ended)).msgs
      ≡ persist
          (m.msgs ++ (user_message m.input ∷ []))
          (trim_space (part_or_whole (after_last_blank out) out))
unfolding run on_enter
run-turn m entered started es ended c cs idle typed =
    ap (λ u. (run (update u.model started send_started).model (stream_of es ended)).msgs)
      (update-enter m entered c cs idle typed)
    ∙ after_start (on_enter m entered (c ∷ cs)).model started es ended

-- For a client that is not streaming, with a prompt that is not blank: a turn, whose stream may fail
-- underway, adds the prompt to the conversation and then the reply, without white space around it, if
-- that is not empty. The reply is all that was shown of the stream, its errors included, if there is no
-- blank line in it; otherwise it is only what was shown after the last blank line.
pub turn-keeps :
    (m : Model) (entered started : ℕ) (es : List (ℕ × StreamMsg)) (ended c : ℕ) (cs : List ℕ)
    → m.streaming ≡ false
    → trim_space m.input ≡ c ∷ cs
    → let msgs = (run m (turn entered started es ended)).msgs in
      let prompted = m.msgs ++ (user_message m.input ∷ []) in
      (contains (shown_all es) blank_line ≡ false
        → msgs ≡ persist prompted (trim_space (shown_all es)))
      × ((a b : List ℕ)
          → shown_all es ≡ a ++ (blank_line ++ b)
          → contains b blank_line ≡ false
          → msgs ≡ persist prompted (trim_space b))
unfolding shown_by
turn-keeps m entered started es ended c cs idle typed =
    let kept = run-turn m entered started es ended c cs idle typed in
    let prompted = m.msgs ++ (user_message m.input ∷ []) in
    let (before, cut) = shown_by m.output m.input (shown_all es) in
    (
      λ plain. kept ∙ rw cut (ap (persist prompted) (cut_at_blank before (shown_all es) plain)),
      λ a b e plain.
          kept
          ∙ rw (cut, e)
              (ap (λ q. persist prompted (trim_space (part_or_whole (after_last_blank q) q)))
                  (sym (append_assoc before (blank_line ++ a) (blank_line ++ b)))
                ∙ ap (persist prompted) (cut_at_blank (before ++ (blank_line ++ a)) b plain)),
    )
