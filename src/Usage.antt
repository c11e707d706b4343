-- ===== src/Usage.antt =====
-- internal/usage/tracker.go: the token counts of each tenant. An int64 counter is its bit pattern, so
-- it wraps modulo 2 ^ 64. Times are nanoseconds. The mutex makes each call one step.
pub mod Totals
pub mod Sink
pub mod Postgres
pub mod Mirror
pub mod Outages
use prompt_response.Common.{
  ℕ, zero, suc, ◌+◌, ◌%◌, ◌^◌, Bool, true, false, String, List, [], ◌∷◌, Option, none, some,
  if◌then◌else◌, str_eq, length, Table, lookup, insert, delete, string_eq, ℤ, pos, pos_part, ltb_ℤ,
}

abbrev pub i64_mod : ℕ
i64_mod = 2 ^ 64

pub record Usage : Type 0 where
  pub input_tokens : ℕ
  pub output_tokens : ℕ
  pub requests : ℕ
  pub first_seen : ℕ
  pub last_seen : ℕ

abbrev pub Tracker : Type 0
Tracker = Table String Usage

-- A negative count is taken as zero.
unfoldable pub clamp : ℤ → ℕ
clamp n = if ltb_ℤ n (pos 0) then 0 else pos_part n

unfoldable pub add_to : Usage → ℕ → ℕ → ℕ → Usage
add_to u input output now = record u {
  input_tokens = (u.input_tokens + input) % i64_mod;
  output_tokens = (u.output_tokens + output) % i64_mod;
  requests = (u.requests + 1) % i64_mod;
  last_seen = now;
}

unfoldable pub fresh_or : ℕ → Option Usage → Usage
fresh_or now none = record {
  input_tokens = 0;
  output_tokens = 0;
  requests = 0;
  first_seen = now;
  last_seen = 0;
}
fresh_or now (some u) = u

-- `Record`.
unfoldable pub record_usage : Tracker → String → ℤ → ℤ → ℕ → Tracker
unfolding fresh_or
record_usage t tenant input output now =
    insert tenant (add_to (fresh_or now (lookup tenant t)) (clamp input) (clamp output) now) t

unfoldable pub get : Tracker → String → Option Usage
get t tenant = lookup tenant t

-- `Reset`: the tracker after it, and the number of entries removed.
unfoldable pub reset : Tracker → String → Tracker × ℕ
reset t tenant =
    if str_eq tenant ""
    then ([], length t)
    else elim (lookup tenant t) [ none ↦ (t, 0) | some u ↦ (delete tenant t, 1) ]
