-- ===== src/Poller/Metrics.antt =====
-- internal/poller/poller.go, `parseMetrics`: the lines of a replica's metrics page, each a list of
-- characters. `strconv.ParseFloat` is an argument, `none` its error; the scanner's limit on the
-- length of a line is not modelled.
pub mod Readings
use prompt_response.Common.{
  ℕ, Bool, false, List, [], ◌∷◌, ◌++◌, Option, none, some, leb, ◌==◌, ◌||◌, ◌&&◌, if◌then◌else◌,
  codes, has_prefix, Float, pos, ◌≡◌, refl, ap, ◌∙◌, arith,
}
use prompt_response.Poller.{State, zero_state}

-- ASCII white space, at which `strings.Fields` splits.
unfoldable pub is_space : ℕ → Bool
is_space c = c == b' ' || (leb 9 c && leb c 13)

flush : List ℕ → List (List ℕ)
flush [] = []
flush (c ∷ cs) = (c ∷ cs) ∷ []

-- The fields of a line, with the characters of the one being read.
fields_from : List ℕ → List ℕ → List (List ℕ)
unfolding is_space flush
fields_from word [] = flush word
fields_from word (c ∷ cs) =
    let next = fields_from [] cs in
    let more = fields_from (word ++ (c ∷ [])) cs in if is_space c then flush word ++ next else more

unfoldable pub fields : List ℕ → List (List ℕ)
unfolding fields_from
fields line = fields_from [] line

last_of : List ℕ → List (List ℕ) → List ℕ
last_of part [] = part
last_of part (p ∷ ps) = last_of p ps

module _ {N : Type 0} ⦃F : Float N⦄ (to_float : List ℕ → Option N) where
  number_or_zero : Option N → N
  number_or_zero none = F.of_int 0
  number_or_zero (some v) = v

  last_number : List (List ℕ) → N
  unfolding last_of number_or_zero
  last_number [] = F.of_int 0
  last_number (p ∷ []) = F.of_int 0
  last_number (p ∷ (q ∷ ps)) = number_or_zero (to_float (last_of q ps))

  unfoldable pub parse_float : List ℕ → N
  unfolding last_number
  parse_float line = last_number (fields line)

  unfoldable pub parse_line : State N → List ℕ → State N
  parse_line s line =
      if has_prefix line (codes "#")
      then s
      else let s₁ =
          if has_prefix line (codes "vllm:num_requests_waiting")
          then record s { queue_depth = F.trunc (parse_float line) }
          else s in
        let s₂ =
          if has_prefix line (codes "vllm:num_requests_running")
          then record s₁ { running = F.trunc (parse_float line) }
          else s₁ in
        if has_prefix line (codes "vllm:gpu_cache_usage_perc")
        then record s₂ { kv_cache_util = parse_float line }
        else s₂

  parse_lines : State N → List (List ℕ) → State N
  parse_lines s [] = s
  parse_lines s (line ∷ lines) = parse_lines (parse_line s line) lines

  unfoldable pub parse_metrics : List (List ℕ) → State N
  unfolding parse_lines
  parse_metrics lines = parse_lines zero_state lines
