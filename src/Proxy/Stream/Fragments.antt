-- ===== src/Proxy/Stream/Fragments.antt =====
-- The token counts of a stream do not depend on how its bytes are cut into writes, nor on when they
-- come.
use mathlib.Core.List.{append_assoc, append-nil}
use prompt_response.Common.{
  ℕ, zero, suc, ◌+◌, ◌≡◌, refl, sym, ap, subst, ◌∙◌, Bool, true, false, List, [], ◌∷◌, ◌++◌, Option,
  none, some, if◌then◌else◌, length, codes, has_prefix, list_eq, drop, Bool-cases, inl, inr, arith,
}
use prompt_response.Proxy.Stream.{
  StreamStats, StreamInterceptor, new_stream_interceptor, split_event, tokens_of, count_chunk,
  trim_space, process_event, after_split, parse_sse, write,
}
use prompt_response.Proxy.Stream.Drain.{collect_event, drain, drain-append}

-- The output tokens, the chunks with content, and whether the end was seen.
abbrev pub Counts : Type 0
Counts = ℕ × ℕ × Bool

abbrev pub counts_of : StreamStats → Counts
counts_of st = (st.output_tokens, st.chunk_count, st.done_seen)

abbrev pub add_content : Counts → List ℕ → Counts
add_content c [] = c
add_content (tokens, chunks, ended) (b ∷ bs) = (tokens + tokens_of (b ∷ bs), chunks + 1, ended)

abbrev pub add_chunk : Counts → Option (List (List ℕ)) → Counts
add_chunk c none = c
add_chunk c (some []) = c
add_chunk c (some (content ∷ contents)) = add_content c content

-- The bytes of some writes, each at its time.
abbrev pub all_bytes : List (ℕ × List ℕ) → List ℕ
all_bytes [] = []
all_bytes ((now, b) ∷ ws) = b ++ all_bytes ws

module _ (decode : List ℕ → Option (List (List ℕ))) where
  -- What an event adds to the counts.
  abbrev pub tally : Counts → List ℕ → Counts
  tally c event =
      let line = trim_space event in
      let payload = drop 6 line in
      if has_prefix line (codes "data: ")
      then if list_eq payload (codes "[DONE]")
        then (c.0, c.1, true)
        else add_chunk c (decode payload)
      else c

  abbrev pub tally_all : Counts → List (List ℕ) → Counts
  tally_all c [] = c
  tally_all c (e ∷ es) = tally_all (tally c e) es

  tally_all-append :
      (xs ys : List (List ℕ)) (c : Counts) → tally_all c (xs ++ ys) ≡ tally_all (tally_all c xs) ys
  tally_all-append [] ys c = refl
  tally_all-append (x ∷ xs) ys c = tally_all-append xs ys (tally c x)

  count_chunk-counts :
      (st : StreamStats) (now : ℕ) (o : Option (List (List ℕ)))
      → counts_of (count_chunk st now o) ≡ add_chunk (counts_of st) o
  count_chunk-counts st now none = refl
  count_chunk-counts st now (some []) = refl
  count_chunk-counts st now (some ([] ∷ cs)) = refl
  count_chunk-counts st now (some ((b ∷ bs) ∷ cs)) = refl

  process_event-counts :
      (st : StreamStats) (e : List ℕ) (now : ℕ)
      → counts_of (process_event decode st e now) ≡ tally (counts_of st) e
  unfolding process_event
  process_event-counts st e now = elim (Bool-cases (has_prefix (trim_space e) (codes "data: "))) [
    | inl data_ ↦ elim (Bool-cases (list_eq (drop 6 (trim_space e)) (codes "[DONE]"))) [
      | inl ended ↦ rw (data_, ended) refl
      | inr more ↦ rw (data_, more) (count_chunk-counts st now (decode (drop 6 (trim_space e))))
    ]
    | inr other ↦ rw other refl
  ]

  -- The loop drains the buffer, and tallies what it drains.
  abbrev Drained : Counts → List (List ℕ) × List ℕ → StreamStats × List ℕ → Type 0
  Drained c d out = (counts_of out.0 ≡ tally_all c d.0) × (out.1 ≡ d.1)

  after_split-Drained :
      (n now : ℕ) (st : StreamStats) (buf : List ℕ) (o : Option (List ℕ × List ℕ))
      → ((st' : StreamStats) (rest : List ℕ)
          → Drained (counts_of st') (drain n rest) (parse_sse decode n now st' rest))
      → Drained
          (counts_of st)
          (collect_event (drain n) buf o)
          (after_split decode (parse_sse decode n now) now st buf o)
  unfolding after_split collect_event
  after_split-Drained n now st buf none ih = (refl, refl)
  after_split-Drained n now st buf (some (event, rest)) ih =
      let (counts, left) = ih (process_event decode st event now) rest in
      (counts ∙ ap (λ c. tally_all c (drain n rest).0) (process_event-counts st event now), left)

  parse_sse-Drained :
      (n now : ℕ) (st : StreamStats) (buf : List ℕ)
      → Drained (counts_of st) (drain n buf) (parse_sse decode n now st buf)
  unfolding parse_sse drain
  parse_sse-Drained zero now st buf = (refl, refl)
  parse_sse-Drained (suc n) now st buf =
      after_split-Drained n now st buf (split_event buf) (parse_sse-Drained n now)

  -- The interceptor has read all the complete events of some bytes.
  HasRead : List ℕ → StreamInterceptor → Type 0
  HasRead xs si = Drained (0, 0, false) (drain (length xs) xs) (si.stats, si.buf)

  parse_more :
      (st : StreamStats) (xs ys : List ℕ) (now : ℕ)
      → let d = drain (length xs) xs in
        counts_of st ≡ tally_all (0, 0, false) d.0
        → Drained
            (0, 0, false)
            (drain (length (xs ++ ys)) (xs ++ ys))
            (parse_sse decode (length (d.1 ++ ys)) now st (d.1 ++ ys))
  parse_more st xs ys now counts =
      let d = drain (length xs) xs in
      let more = drain (length (d.1 ++ ys)) (d.1 ++ ys) in
      let joined =
        drain-append (length xs) xs ys (omega arith) (length (xs ++ ys)) (length (d.1 ++ ys))
          (omega arith) (omega arith) in
      let (counted, left) = parse_sse-Drained (length (d.1 ++ ys)) now st (d.1 ++ ys) in
      (
        counted
            ∙ ap (λ c. tally_all c more.0) counts
            ∙ sym (tally_all-append d.0 more.0 (0, 0, false))
            ∙ ap (λ e. tally_all (0, 0, false) e.0) (sym joined),
        left ∙ ap (λ e. e.1) (sym joined),
      )

  write-HasRead :
      (si : StreamInterceptor) (xs ys : List ℕ) (now : ℕ)
      → HasRead xs si
      → HasRead (xs ++ ys) (write decode si now ys)
  unfolding write HasRead
  write-HasRead si xs ys now (counts, left) =
      let st : StreamStats =
        if si.stats.wrote
        then si.stats
        else record si.stats { first_byte_at = now; wrote = true } in
      let same : counts_of st ≡ counts_of si.stats = ground arith in
      subst
        (λ b.
          Drained (0, 0, false) (drain (length (xs ++ ys)) (xs ++ ys))
            (parse_sse decode (length (b ++ ys)) now st (b ++ ys)))
        (sym left) (parse_more st xs ys now (same ∙ counts))

  -- The writes of a stream, each at its time.
  unfoldable pub write_all : StreamInterceptor → List (ℕ × List ℕ) → StreamInterceptor
  write_all si [] = si
  write_all si ((now, b) ∷ ws) = write_all (write decode si now b) ws

  write_all-HasRead :
      (ws : List (ℕ × List ℕ)) (si : StreamInterceptor) (xs : List ℕ)
      → HasRead xs si
      → HasRead (xs ++ all_bytes ws) (write_all si ws)
  unfolding write_all
  write_all-HasRead [] si xs h = subst (λ zs. HasRead zs si) (sym (append-nil xs)) h
  write_all-HasRead ((now, b) ∷ ws) si xs h =
      subst (λ zs. HasRead zs (write_all (write decode si now b) ws))
        (append_assoc xs b (all_bytes ws))
        (write_all-HasRead ws (write decode si now b) (xs ++ b) (write-HasRead si xs b now h))

  -- However a stream's bytes are cut into writes, and whenever these come, the output tokens, the
  -- chunks and the end that the interceptor has counted are those of the complete events among all
  -- the bytes, and its buffer holds the bytes after them.
  pub write_all_lem :
      (ws : List (ℕ × List ℕ))
      → let d = drain (length (all_bytes ws)) (all_bytes ws) in
        let si = write_all new_stream_interceptor ws in
        (counts_of si.stats ≡ tally_all (0, 0, false) d.0) × (si.buf ≡ d.1)
  unfolding HasRead new_stream_interceptor drain
  write_all_lem ws = write_all-HasRead ws new_stream_interceptor [] (refl, refl)
