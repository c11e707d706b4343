-- ===== src/Cli.antt =====
-- cmd/cli/client.go: the terminal client's request and the events it reads. Texts are lists of bytes.
-- JSON and the HTTP call are arguments. The channel between the reader and its caller is the list of
-- the messages in their order.
pub mod Tui
use prompt_response.Common.{
  ℕ, ◌^◌, Bool, true, false, String, List, [], ◌∷◌, ◌++◌, Option, none, some, if◌then◌else◌, leb,
  ◌==◌, codes, length, drop, has_prefix, list_eq, reverse,
}
use prompt_response.Proxy.Stream.{trim_space}

pub record Message : Type 0 where
  pub role : String
  pub content : List ℕ

pub record ChatRequest : Type 0 where
  pub model : String
  pub messages : List Message
  pub stream : Bool

-- `StreamMsg`, with a delta or with an error.
pub data StreamMsg : Type 0 where
  delta : List ℕ → StreamMsg
  failed : List ℕ → StreamMsg

-- The scanner's limit, in bytes.
abbrev pub max_line : ℕ
max_line = 2 ^ 20

-- `bufio.ScanLines`: the lines without their line feeds. Bytes after the last line feed are a line
-- too, if there are any.
first_byte : ℕ → List (List ℕ) → List (List ℕ)
first_byte c [] = (c ∷ []) ∷ []
first_byte c (line ∷ lines) = (c ∷ line) ∷ lines

unfoldable pub scan_lines : List ℕ → List (List ℕ)
unfolding first_byte
scan_lines [] = []
scan_lines (c ∷ cs) = let rest = scan_lines cs in if c == 10 then [] ∷ rest else first_byte c rest

-- One carriage return at a line's end is dropped.
unfoldable pub without_first_cr : List ℕ → List ℕ
without_first_cr [] = []
without_first_cr (c ∷ cs) = if c == 13 then cs else c ∷ cs

unfoldable pub drop_cr : List ℕ → List ℕ
unfolding without_first_cr
drop_cr line = reverse (without_first_cr (reverse line))

-- The deltas that are not empty.
unfoldable pub deltas_of : List (List ℕ) → List StreamMsg
deltas_of [] = []
deltas_of ([] ∷ contents) = deltas_of contents
deltas_of ((c ∷ cs) ∷ contents) = delta (c ∷ cs) ∷ deltas_of contents

-- A line that JSON cannot read is passed over.
unfoldable pub chunk_deltas : Option (List (List ℕ)) → List StreamMsg
unfolding deltas_of
chunk_deltas none = []
chunk_deltas (some contents) = deltas_of contents

-- The scanner's error, if it has one.
scanner_err : Option (List ℕ) → List StreamMsg
scanner_err none = []
scanner_err (some e) = failed e ∷ []

module _ (decode : List ℕ → Option (List (List ℕ))) (too_long : List ℕ) where
  -- The loop over the lines; `err` is the reader's error, if the body breaks off. `bufio.ErrTooLong`
  -- is an argument.
  unfoldable pub read_lines : Option (List ℕ) → List (List ℕ) → List StreamMsg
  unfolding drop_cr chunk_deltas scanner_err
  read_lines err [] = scanner_err err
  read_lines err (raw ∷ lines) =
      let rest = read_lines err lines in
      let line = drop_cr raw in
      let payload = drop 6 line in
      if leb max_line (length raw)
      then scanner_err (some too_long)
      else if has_prefix line (codes "data: ")
      then if list_eq payload (codes "[DONE]") then [] else chunk_deltas (decode payload) ++ rest
      else rest

  unfoldable pub parse_sse_stream : List ℕ → Option (List ℕ) → List StreamMsg
  unfolding read_lines scan_lines
  parse_sse_stream body err = read_lines err (scan_lines body)

-- What the HTTP call gives: an error, or a status, a body, and the error with which it breaks off.
pub data Response : Type 0 where
  no_response : List ℕ → Response
  response : ℕ → List ℕ → Option (List ℕ) → Response

-- `Send`'s error, or the messages that come over its channel.
pub data Sent : Type 0 where
  send_failed : List ℕ → Sent
  http_error : ℕ → List ℕ → Sent
  sent : List StreamMsg → Sent

module _ (decode : List ℕ → Option (List (List ℕ))) (too_long : List ℕ) where
  receive : Response → Sent
  receive (no_response e) = send_failed e
  receive (response status body err) =
      if leb 400 status
      then http_error status (trim_space body)
      else sent (parse_sse_stream decode too_long body err)

  -- `post` is the HTTP call to the router with the request as its JSON body.
  unfoldable pub send : (ChatRequest → Response) → String → List Message → Sent
  unfolding receive
  send post model msgs = receive (post (record { model = model; messages = msgs; stream = true }))
