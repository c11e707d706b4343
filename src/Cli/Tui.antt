-- ===== src/Cli/Tui.antt =====
-- cmd/cli/tui.go: the state of the terminal client and its `Update`. Texts are lists of bytes; the
-- clock and the context's `cancel` are outside, the call of it is an effect. What `View` draws is left
-- out, but for the lines that it shows.
pub mod Busy
pub mod Pinned
pub mod Saved
use prompt_response.Common.{
  ℕ, suc, ◌-◌, ◌/◌, Bool, true, false, String, List, [], ◌∷◌, ◌++◌, Option, none, some,
  if◌then◌else◌, str_eq, codes, length, has_prefix, list_eq, drop, take, ltb,
}
use prompt_response.Cli.{Message, StreamMsg, delta, failed}
use prompt_response.Proxy.Stream.{trim_space}

pub data Key : Type 0 where
  esc ctrl_c enter backspace ctrl_h other_key : Key
  runes : List ℕ → Key
  space : List ℕ → Key

-- The messages of `Update`: a key, `sendStartedMsg` and `streamEventMsg` with and without their error,
-- and the end of the stream.
pub data Msg : Type 0 where
  window_size : ℕ → ℕ → Msg
  key : Key → Msg
  send_failed : List ℕ → Msg
  send_started : Msg
  stream_delta : List ℕ → Msg
  stream_error : List ℕ → Msg
  stream_done : Msg

-- `waitForStream`: the message for what comes over the channel, `none` if it is closed.
abbrev pub waited : Option StreamMsg → Msg
waited none = stream_done
waited (some (delta d)) = stream_delta d
waited (some (failed e)) = stream_error e

-- The command that `Update` returns.
pub data Cmd : Type 0 where
  nothing : Cmd
  quit : Cmd
  start_send : List Message → Cmd
  wait_for_stream : Cmd

-- `streaming` and `can_cancel` tell whether `streamCh` and `cancel` are not nil.
pub record Model : Type 0 where
  pub msgs : List Message
  pub input : List ℕ
  pub output : List ℕ
  pub status : String
  pub width : ℕ
  pub height : ℕ
  pub streaming : Bool
  pub can_cancel : Bool
  pub started : ℕ
  pub last_ms : ℕ

-- A model, a command, and whether the stream's context was cancelled.
pub record Updated : Type 0 where
  pub model : Model
  pub cmd : Cmd
  pub cancels : Bool

abbrev pub user_message : List ℕ → Message
user_message text = record { role = "user"; content = text }

abbrev pub assistant_message : List ℕ → Message
assistant_message text = record { role = "assistant"; content = text }

system_message : List ℕ → List Message
system_message [] = []
system_message (c ∷ cs) = record { role = "system"; content = c ∷ cs } ∷ []

unfoldable pub new_model : List ℕ → Model
unfolding system_message
new_model system = record {
  msgs = system_message system;
  input = [];
  output = [];
  status = "ready — type a prompt and press Enter (Esc to quit)";
  width = 0;
  height = 0;
  streaming = false;
  can_cancel = false;
  started = 0;
  last_ms = 0;
}

abbrev pub blank_line : List ℕ
blank_line = 10 ∷ (10 ∷ [])

-- `out[idx+2:]`, at the last blank line, if there is one.
abbrev pub or_after : Option (List ℕ) → Bool → List ℕ → Option (List ℕ)
or_after (some rest) here after = some rest
or_after none here after = if here then some after else none

unfoldable pub after_last_blank : List ℕ → Option (List ℕ)
after_last_blank [] = none
after_last_blank (c ∷ cs) =
    or_after (after_last_blank cs) (has_prefix (c ∷ cs) blank_line) (drop 1 cs)

abbrev pub part_or_whole : Option (List ℕ) → List ℕ → List ℕ
part_or_whole none out = out
part_or_whole (some rest) out = rest

unfoldable pub last_assistant_content : Model → List ℕ
last_assistant_content m = trim_space (part_or_whole (after_last_blank m.output) m.output)

unfoldable pub append_output : Model → List ℕ → Model
append_output m s = record m { output = m.output ++ s }

-- `m.input[:n-1]`.
without_last : List ℕ → List ℕ
without_last input = take (length input - 1) input

abbrev pub just : Model → Cmd → Updated
just m cmd = record { model = m; cmd = cmd; cancels = false }

-- What Enter writes of a prompt.
abbrev pub prompt_of : List ℕ → List ℕ
prompt_of input = (10 ∷ codes "> ") ++ (input ++ blank_line)

pub on_enter : Model → ℕ → List ℕ → Updated
unfolding append_output
on_enter m now [] = just m nothing
on_enter m now (c ∷ cs) =
    let msgs = m.msgs ++ (user_message m.input ∷ []) in
    just
      (record (append_output m (prompt_of m.input)) {
        msgs = msgs;
        input = [];
        status = "sending...";
        started = now;
      })
      (start_send msgs)

-- A key while nothing is streamed.
pub idle_key : Model → ℕ → Key → Updated
unfolding on_enter without_last
idle_key m now esc = just m quit
idle_key m now ctrl_c = just m quit
idle_key m now enter = on_enter m now (trim_space m.input)
idle_key m now backspace = just (record m { input = without_last m.input }) nothing
idle_key m now ctrl_h = just (record m { input = without_last m.input }) nothing
idle_key m now (runes text) = just (record m { input = m.input ++ text }) nothing
idle_key m now (space text) = just (record m { input = m.input ++ text }) nothing
idle_key m now other_key = just m nothing

-- While streaming, these two keys cancel, and no other key does anything.
pub streaming_key : Model → Key → Updated
streaming_key m esc = record { model = m; cmd = nothing; cancels = m.can_cancel }
streaming_key m ctrl_c = record { model = m; cmd = nothing; cancels = m.can_cancel }
streaming_key m _ = just m nothing

-- The reply is kept if it is not empty.
abbrev pub persist : List Message → List ℕ → List Message
persist msgs [] = msgs
persist msgs (c ∷ cs) = msgs ++ (assistant_message (c ∷ cs) ∷ [])

error_line : String → List ℕ → List ℕ
error_line label e = codes label ++ (e ++ (10 ∷ []))

unfoldable pub update : Model → ℕ → Msg → Updated
unfolding last_assistant_content append_output idle_key streaming_key error_line
update m now (window_size w h) = just (record m { width = w; height = h }) nothing
update m now (key k) = if m.streaming then streaming_key m k else idle_key m now k
update m now (send_failed e) =
    just (record (append_output m (error_line "[error] " e)) { status = "ready" }) nothing
update m now send_started =
    just (record m { streaming = true; can_cancel = true; status = "streaming... (Esc to cancel)" })
      wait_for_stream
update m now (stream_delta d) = just (append_output m d) wait_for_stream
update m now (stream_error e) =
    just (append_output m (10 ∷ error_line "[stream error] " e)) wait_for_stream
update m now stream_done = record {
  model = record m {
    msgs = persist m.msgs (last_assistant_content m);
    can_cancel = false;
    streaming = false;
    last_ms = (now - m.started) / 1000000;
    status = "ready";
  };
  cmd = nothing;
  cancels = m.can_cancel;
}

-- The messages of a run, each at its time.
unfoldable pub run : Model → List (ℕ × Msg) → Model
run m [] = m
run m ((now, msg) ∷ rest) = run (update m now msg).model rest
