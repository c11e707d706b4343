-- ===== src/Poller/Metrics/Readings.antt =====
-- What the lines of a metrics page say, by the words that they are made of.
use mathlib.Core.List.{append_assoc, append-nil}
use prompt_response.Common.{
  ℕ, true, false, List, [], ◌∷◌, ◌++◌, map, Option, none, some, if◌then◌else◌, codes, has_prefix,
  Float, pos, ◌≡◌, refl, sym, ap, ◌∙◌, arith, All, Bool-cases, inl, inr,
}
use prompt_response.Poller.{State, zero_state}
use prompt_response.Poller.Metrics.{
  is_space, flush, fields_from, fields, last_of, number_or_zero, last_number, parse_float,
  parse_line, parse_lines, parse_metrics,
}

-- No character of a word is white space, and all of a gap are.
abbrev pub IsWord : List ℕ → Type 0
IsWord cs = All (λ c. is_space c ≡ false) cs

abbrev pub IsGap : List ℕ → Type 0
IsGap cs = All (λ c. is_space c ≡ true) cs

fields_from-word :
    (value word rest : List ℕ)
    → IsWord value
    → fields_from word (value ++ rest) ≡ fields_from (word ++ value) rest
unfolding fields_from
fields_from-word [] word rest h = ap (λ w. fields_from w rest) (sym (append-nil word))
fields_from-word (c ∷ cs) word rest h = rw h.0 (
    fields_from-word cs (word ++ (c ∷ [])) rest h.1
    ∙ ap (λ w. fields_from w rest) (append_assoc word (c ∷ []) cs))

fields_from-gap : (gap word : List ℕ) → IsGap gap → fields_from word gap ≡ flush word
unfolding fields_from
fields_from-gap [] word h = refl
fields_from-gap (c ∷ cs) word h =
    rw h.0 (ap (λ fs. flush word ++ fs) (fields_from-gap cs [] h.1) ∙ append-nil (flush word))

-- A space ends a field.
fields_from-space :
    (front word rest : List ℕ) (c : ℕ)
    → is_space c ≡ true
    → fields_from word (front ++ (c ∷ rest)) ≡ fields_from word front ++ fields_from [] rest
unfolding fields_from
fields_from-space [] word rest c h = rw h refl
fields_from-space (f ∷ front) word rest c h = elim (Bool-cases (is_space f)) [
  | inl space ↦ rw space (
      ap (λ fs. flush word ++ fs) (fields_from-space front [] rest c h)
      ∙ sym (append_assoc (flush word) (fields_from [] front) (fields_from [] rest)))
  | inr char ↦ rw char (fields_from-space front (word ++ (f ∷ [])) rest c h)
]

-- A word that is begun is a field.
fields_from-begun :
    (rest word : List ℕ) (w : ℕ)
    → (x : List ℕ) × (xs : List (List ℕ)) × (fields_from (w ∷ word) rest ≡ x ∷ xs)
unfolding fields_from
fields_from-begun [] word w = (w ∷ word, [], refl)
fields_from-begun (c ∷ cs) word w = elim (Bool-cases (is_space c)) [
  | inl space ↦ (w ∷ word, fields_from [] cs, rw space refl)
  | inr char ↦ let (x, xs, e) = fields_from-begun cs (word ++ (c ∷ [])) w in (x, xs, rw char e)
]

first_char :
    (f : ℕ) (front : List ℕ)
    → is_space f ≡ false
    → fields_from [] (f ∷ front) ≡ fields_from (f ∷ []) front
unfolding fields_from
first_char f front char = rw char refl

last_of-append : (ps : List (List ℕ)) (p v : List ℕ) → last_of p (ps ++ (v ∷ [])) ≡ v
unfolding last_of
last_of-append [] p v = refl
last_of-append (q ∷ ps) p v = last_of-append ps q v

module _ {N : Type 0} ⦃F : Float N⦄ (to_float : List ℕ → Option N) where
  -- What a line says that does not begin with a gap: the number that its last word is; and zero, if
  -- this is no number, or if no other word stands before it.
  pub data Reads : List ℕ → N → Type 0 where
    last_word :
        (f : ℕ) (front : List ℕ) (c v : ℕ) (value gap : List ℕ)
        → is_space f ≡ false
        → is_space c ≡ true
        → IsWord (v ∷ value)
        → IsGap gap
        → Reads
            ((f ∷ front) ++ (c ∷ ((v ∷ value) ++ gap)))
            (elim (to_float (v ∷ value)) [ none ↦ F.of_int 0 | some n ↦ n ])
    one_word : (word gap : List ℕ) → IsWord word → IsGap gap → Reads (word ++ gap) (F.of_int 0)

  single : (word : List ℕ) → last_number to_float (flush word) ≡ F.of_int 0
  unfolding last_number flush
  single [] = refl
  single (c ∷ cs) = refl

  number_or_zero-eq :
      (o : Option N) → number_or_zero to_float o ≡ elim o [ none ↦ F.of_int 0 | some n ↦ n ]
  unfolding number_or_zero
  number_or_zero-eq none = refl
  number_or_zero-eq (some n) = refl

  last_number-append :
      (x : List ℕ) (xs : List (List ℕ)) (v : List ℕ)
      → last_number to_float (x ∷ (xs ++ (v ∷ []))) ≡ number_or_zero to_float (to_float v)
  unfolding last_number last_of
  last_number-append x [] v = refl
  last_number-append x (q ∷ ps) v =
      ap (λ w. number_or_zero to_float (to_float w)) (last_of-append ps q v)

  parse_float-Reads : (line : List ℕ) (n : N) → Reads line n → parse_float to_float line ≡ n
  unfolding parse_float fields
  parse_float-Reads line n (last_word f front c v value gap char space word blank) =
      let (x, xs, e) = fields_from-begun front [] f in
      let begun : fields_from [] (f ∷ front) ≡ x ∷ xs = first_char f front char ∙ e in
      let ends : fields_from [] ((v ∷ value) ++ gap) ≡ (v ∷ value) ∷ [] =
        fields_from-word (v ∷ value) [] gap word ∙ fields_from-gap gap (v ∷ value) blank in
      let split : fields_from [] line ≡ x ∷ (xs ++ ((v ∷ value) ∷ [])) =
        fields_from-space (f ∷ front) [] ((v ∷ value) ++ gap) c space
        ∙ ap (λ fs. fs ++ fields_from [] ((v ∷ value) ++ gap)) begun
        ∙ ap (λ fs. (x ∷ xs) ++ fs) ends in
      ap (last_number to_float) split
      ∙ last_number-append x xs (v ∷ value)
      ∙ number_or_zero-eq (to_float (v ∷ value))
  parse_float-Reads line n (one_word word gap is_word blank) =
      ap (last_number to_float)
        (fields_from-word word [] gap is_word ∙ fields_from-gap gap word blank)
      ∙ single word

  -- The last reading of the lines that begin as the metric does and are no comments.
  abbrev pub last_reading : {V : Type 0} → (N → V) → List ℕ → V → List (List ℕ × N) → V
  last_reading f metric v [] = v
  last_reading f metric v ((line, n) ∷ page) =
      last_reading f metric
        (if has_prefix line (codes "#") then v else if has_prefix line metric then f n else v) page

  parse_line-eq :
      (s : State N) (line : List ℕ) (n : N)
      → parse_float to_float line ≡ n
      → let out = parse_line to_float s line in
        (out.queue_depth
          ≡ last_reading F.trunc (codes "vllm:num_requests_waiting") s.queue_depth ((line, n) ∷ []))
        × (out.running
            ≡ last_reading F.trunc (codes "vllm:num_requests_running") s.running ((line, n) ∷ []))
        × (out.kv_cache_util
            ≡ last_reading
                (λ v. v)
                (codes "vllm:gpu_cache_usage_perc")
                s.kv_cache_util
                ((line, n) ∷ []))
        × (out.healthy ≡ s.healthy)
  unfolding parse_line
  parse_line-eq s line n e = rw e (ground arith)

  parse_lines-eq :
      (page : List (List ℕ × N)) (s : State N)
      → All (λ (p : List ℕ × N). Reads p.0 p.1) page
      → let out = parse_lines to_float s (map (λ (p : List ℕ × N). p.0) page) in
        (out.queue_depth
          ≡ last_reading F.trunc (codes "vllm:num_requests_waiting") s.queue_depth page)
        × (out.running ≡ last_reading F.trunc (codes "vllm:num_requests_running") s.running page)
        × (out.kv_cache_util
            ≡ last_reading (λ v. v) (codes "vllm:gpu_cache_usage_perc") s.kv_cache_util page)
        × (out.healthy ≡ s.healthy)
  unfolding parse_lines
  parse_lines-eq [] s reads = (refl, refl, refl, refl)
  parse_lines-eq ((line, n) ∷ page) s reads =
      let (queue, running, cache, healthy) =
        parse_lines-eq page (parse_line to_float s line) reads.1 in
      let (q, r, c, h) = parse_line-eq s line n (parse_float-Reads line n reads.0) in
      (
        queue ∙ ap (λ v. last_reading F.trunc (codes "vllm:num_requests_waiting") v page) q,
        running ∙ ap (λ v. last_reading F.trunc (codes "vllm:num_requests_running") v page) r,
        cache ∙ ap (λ v. last_reading (λ x. x) (codes "vllm:gpu_cache_usage_perc") v page) c,
        healthy ∙ h,
      )

  -- Of a page whose lines do not begin with a gap and say these numbers, as `Reads` tells: each figure
  -- that `parseMetrics` returns is what the last line says that begins with its metric and not with
  -- `#`, and zero if there is none. The replica's health is left to the caller: it is false.
  pub parse_metrics-Reads :
      (page : List (List ℕ × N))
      → All (λ (p : List ℕ × N). Reads p.0 p.1) page
      → let s = parse_metrics to_float (map (λ (p : List ℕ × N). p.0) page) in
        (s.queue_depth ≡ last_reading F.trunc (codes "vllm:num_requests_waiting") (pos 0) page)
        × (s.running ≡ last_reading F.trunc (codes "vllm:num_requests_running") (pos 0) page)
        × (s.kv_cache_util
            ≡ last_reading (λ v. v) (codes "vllm:gpu_cache_usage_perc") (F.of_int 0) page)
        × (s.healthy ≡ false)
  unfolding parse_metrics
  parse_metrics-Reads page reads = parse_lines-eq page zero_state reads
