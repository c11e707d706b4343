-- ===== src/Proxy/Stream.antt =====
-- internal/proxy/stream.go: the interceptor that reads the events of a response on their way to the
-- client. Bytes are numbers and times are nanoseconds. What `json.Unmarshal` reads of an event is an
-- argument: `none` is its error, and else the contents of the choices. `TrimSpace` is modelled for
-- ASCII white space. The write to the client, and its result, are outside.
pub mod Drain
pub mod Fragments
use prompt_response.Common.{
  ℕ, zero, suc, ◌+◌, ◌-◌, ◌/◌, Bool, true, false, ◌&&◌, ◌||◌, String, List, [], ◌∷◌, ◌++◌, Option,
  none, some, if◌then◌else◌, leb, ltb, ◌==◌, codes, length, drop, has_prefix, list_eq, reverse,
}

pub record StreamStats : Type 0 where
  pub first_byte_at : ℕ
  pub last_token_at : ℕ
  pub output_tokens : ℕ
  pub chunk_count : ℕ
  pub inter_token_sum : ℕ
  pub wrote : Bool
  pub done_seen : Bool

pub record StreamInterceptor : Type 0 where
  pub stats : StreamStats
  pub buf : List ℕ
  pub last_activity : ℕ

unfoldable pub new_stream_interceptor : StreamInterceptor
new_stream_interceptor = record {
  stats = record {
    first_byte_at = 0;
    last_token_at = 0;
    output_tokens = 0;
    chunk_count = 0;
    inter_token_sum = 0;
    wrote = false;
    done_seen = false;
  };
  buf = [];
  last_activity = 0;
}

abbrev pub is_space : ℕ → Bool
is_space c = c == b' ' || (leb 9 c && leb c 13)

abbrev pub trim_left : List ℕ → List ℕ
trim_left [] = []
trim_left (c ∷ cs) = let rest = trim_left cs in if is_space c then rest else c ∷ cs

abbrev pub trim_space : List ℕ → List ℕ
trim_space line = reverse (trim_left (reverse (trim_left line)))

-- The event up to the first two line feeds, and what follows them.
cut_before : ℕ → Option (List ℕ × List ℕ) → Option (List ℕ × List ℕ)
cut_before c none = none
cut_before c (some (event, rest)) = some (c ∷ event, rest)

unfoldable pub split_event : List ℕ → Option (List ℕ × List ℕ)
unfolding cut_before
split_event [] = none
split_event (a ∷ []) = none
split_event (a ∷ (b ∷ cs)) =
    let later = split_event (b ∷ cs) in
    if a == 10 && b == 10 then some ([], cs) else cut_before a later

-- The tokens of a content that is not empty.
unfoldable pub tokens_of : List ℕ → ℕ
tokens_of content = let n = length content / 4 in if ltb n 1 then 1 else n

abbrev pub count_content : StreamStats → ℕ → List ℕ → StreamStats
count_content st now [] = st
count_content st now (c ∷ cs) = record st {
  output_tokens = st.output_tokens + tokens_of (c ∷ cs);
  chunk_count = st.chunk_count + 1;
  inter_token_sum =
      if ltb 1 (st.chunk_count + 1)
      then st.inter_token_sum + (now - st.last_token_at)
      else st.inter_token_sum;
  last_token_at = now;
}

-- The first choice counts.
abbrev pub count_chunk : StreamStats → ℕ → Option (List (List ℕ)) → StreamStats
count_chunk st now none = st
count_chunk st now (some []) = st
count_chunk st now (some (content ∷ contents)) = count_content st now content

module _ (decode : List ℕ → Option (List (List ℕ))) where
  unfoldable pub process_event : StreamStats → List ℕ → ℕ → StreamStats
  process_event st event now =
      let line = trim_space event in
      let payload = drop 6 line in
      if has_prefix line (codes "data: ")
      then if list_eq payload (codes "[DONE]")
        then record st { done_seen = true }
        else count_chunk st now (decode payload)
      else st

  after_split :
      (StreamStats → List ℕ → StreamStats × List ℕ)
      → ℕ
      → StreamStats
      → List ℕ
      → Option (List ℕ × List ℕ)
      → StreamStats × List ℕ
  after_split next now st buf none = (st, buf)
  after_split next now st buf (some (event, rest)) = next (process_event st event now) rest

  -- The loop of `parseSSE`, for at most so many rounds.
  unfoldable pub parse_sse : ℕ → ℕ → StreamStats → List ℕ → StreamStats × List ℕ
  unfolding after_split
  parse_sse zero now st buf = (st, buf)
  parse_sse (suc rounds) now st buf =
      after_split (parse_sse rounds now) now st buf (split_event buf)

  -- Each round takes at least two bytes off the buffer, so its length is enough rounds.
  unfoldable pub write : StreamInterceptor → ℕ → List ℕ → StreamInterceptor
  write si now b =
      let st =
        if si.stats.wrote
        then si.stats
        else record si.stats { first_byte_at = now; wrote = true } in
      let buf = si.buf ++ b in
      let (st', left) = parse_sse (length buf) now st buf in
      record { stats = st'; buf = left; last_activity = now }
