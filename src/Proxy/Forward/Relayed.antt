-- ===== src/Proxy/Forward/Relayed.antt =====
-- What the interceptor has counted once a response's body has been relayed.
use prompt_response.Common.{
  ℕ, ◌||◌, ◌≡◌, refl, ◌∙◌, true, false, List, [], ◌∷◌, ◌++◌, Option, if◌then◌else◌, length, ap,
  subst, arith, All,
}
use prompt_response.Proxy.Stream.{StreamInterceptor, new_stream_interceptor, write}
use prompt_response.Proxy.Stream.Drain.{drain}
use prompt_response.Proxy.Stream.Fragments.{
  write_all, write_all_lem, all_bytes, counts_of, tally_all,
}
use prompt_response.Proxy.Forward.{Read, wrote_nothing, stream_body}

abbrev pub bytes_of : List Read → List ℕ
bytes_of [] = []
bytes_of (r ∷ rs) = r.bytes ++ bytes_of rs

-- A read after which the loop goes on.
abbrev pub GoesOn : Read → Type 0
GoesOn r = (r.ended ≡ false) × (r.taken ≡ true)

-- A write, unless there is nothing to write.
abbrev write_of : ℕ → List ℕ → List (ℕ × List ℕ) → List (ℕ × List ℕ)
write_of at [] ws = ws
write_of at (c ∷ cs) ws = (at, c ∷ cs) ∷ ws

abbrev writes_of : List Read → List (ℕ × List ℕ)
writes_of [] = []
writes_of (r ∷ rs) = write_of r.at r.bytes (writes_of rs)

module _ (decode : List ℕ → Option (List (List ℕ))) where
  all_bytes-write_of :
      (at : ℕ) (b : List ℕ) (ws : List (ℕ × List ℕ))
      → all_bytes (write_of at b ws) ≡ b ++ all_bytes ws
  all_bytes-write_of at [] ws = refl
  all_bytes-write_of at (c ∷ cs) ws = refl

  all_bytes-writes_of : (rs : List Read) → all_bytes (writes_of rs) ≡ bytes_of rs
  all_bytes-writes_of [] = refl
  all_bytes-writes_of (r ∷ rs) =
      all_bytes-write_of r.at r.bytes (writes_of rs)
      ∙ ap (λ b. r.bytes ++ b) (all_bytes-writes_of rs)

  write_all-write_of :
      (si : StreamInterceptor) (at : ℕ) (b : List ℕ) (ws : List (ℕ × List ℕ))
      → write_all decode (if wrote_nothing b then si else write decode si at b) ws
        ≡ write_all decode si (write_of at b ws)
  unfolding write_all wrote_nothing
  write_all-write_of si at [] ws = refl
  write_all-write_of si at (c ∷ cs) ws = refl

  stream_body-write_all :
      (rs : List Read) (last : Read) (si : StreamInterceptor)
      → All GoesOn rs
      → last.ended ≡ true
      → stream_body decode si (rs ++ (last ∷ []))
        ≡ write_all decode si (writes_of (rs ++ (last ∷ [])))
  unfolding stream_body write_all
  stream_body-write_all [] last si on end = rw end (write_all-write_of si last.at last.bytes [])
  stream_body-write_all (r ∷ rs) last si ((open_, taken), on) end =
      let si' = if wrote_nothing r.bytes then si else write decode si r.at r.bytes in
      let more : wrote_nothing r.bytes || r.taken ≡ true = rw taken (ground arith) in
      rw (open_, more)
        (stream_body-write_all rs last si' on end
          ∙ write_all-write_of si r.at r.bytes (writes_of (rs ++ (last ∷ []))))

  -- When a body's reads go on until one gives its end, and the client takes what is written, the
  -- output tokens, the chunks and the end that the interceptor has counted are those of the complete
  -- events among all the bytes that were read, however the reads cut them.
  pub stream_body_lem :
      (rs : List Read) (last : Read)
      → All GoesOn rs
      → last.ended ≡ true
      → let b = bytes_of (rs ++ (last ∷ [])) in
        counts_of (stream_body decode new_stream_interceptor (rs ++ (last ∷ []))).stats
        ≡ tally_all decode (0, 0, false) (drain (length b) b).0
  stream_body_lem rs last on end =
      let rest = rs ++ (last ∷ []) in
      rw (stream_body-write_all rs last new_stream_interceptor on end) (
        subst
          (λ b.
            counts_of (write_all decode new_stream_interceptor (writes_of rest)).stats
            ≡ tally_all decode (0, 0, false) (drain (length b) b).0)
          (all_bytes-writes_of rest) (write_all_lem decode (writes_of rest)).0)
