-- ===== src/Proxy/Retry.antt =====
-- internal/proxy/handler.go, the retry loop of `ServeHTTP`: one replica after another until one
-- answers. What an attempt meets is an argument: the poller's snapshot and the store at that moment,
-- and the upstream's answer. The circuit registry is an interface; `none` is a panic.
pub mod Attempts
use prompt_response.Common.{
  ℕ, zero, suc, ◌+◌, Bool, true, false, not, ◌&&◌, ◌||◌, String, List, [], ◌∷◌, Option, none, some,
  ltb, if◌then◌else◌, ◌>>=◌, str_eq, Float, ℤ, pos, negsuc, ◌-◌, ◌^◌,
}
use prompt_response.Types.{ModelTier, Replica}
use prompt_response.Scorer.{View, pick}

-- The calls of the circuit registry that the handler makes.
pub record Circuit (C : Type 0) : Type 0 where
  pub allow : C → String → Bool × C
  pub record_success : C → String → Option C
  pub record_failure : C → String → Option C

-- What `doUpstream` and `peekFirstByte` give: an error, or a status, and whether a first byte came
-- within the stall timeout.
pub data Outcome : Type 0 where
  failed : Outcome
  answered : ℕ → Bool → Outcome

-- `maxAttempts`, as the number of rounds of the loop. The sum wraps to a negative one at the largest
-- int.
unfoldable pub max_attempts : ℤ → ℕ
max_attempts (pos n) = if ltb n (2 ^ 63 - 1) then n + 1 else 0
max_attempts (negsuc n) = 0

-- `err == nil && upstream.StatusCode < 500`, and the peek if there is a stall timeout.
unfoldable pub accepted : Bool → Outcome → Option ℕ
accepted stall_check failed = none
accepted stall_check (answered status first_byte) =
    if ltb status 500 && (not stall_check || first_byte) then some status else none

unfoldable pub member : List String → String → Bool
member [] id = false
member (x ∷ xs) id = str_eq x id || member xs id

-- What the loop leaves behind: the response's replica and status, if there is one; the excluded
-- replicas, latest first; and the circuit registry.
pub record Retried (N C : Type 0) : Type 0 where
  pub resp : Option (Replica N × ℕ)
  pub excluded : List String
  pub circuit : C

module _ {N C : Type 0} ⦃F : Float N⦄ (ops : Circuit C) (replicas : List (Replica N))
    (tier : ModelTier) (stall_check : Bool) (views : ℕ → View N)
    (upstream : ℕ → Replica N → Outcome) where
  unfoldable pub no_response : List String → C → Option (Retried N C)
  no_response excluded c = some (record { resp = none; excluded = excluded; circuit = c })

  -- What an attempt's answer leads to: the response, or the next round without this replica.
  unfoldable pub settle :
      (List String → C → Option (Retried N C))
      → List String
      → C
      → Replica N
      → Option ℕ
      → Option (Retried N C)
  settle next excluded c r (some status) = ops.record_success c r.id >>= λ c'.
      some (record { resp = some (r, status); excluded = excluded; circuit = c' })
  settle next excluded c r none = ops.record_failure c r.id >>= λ c'. next (r.id ∷ excluded) c'

  -- A round once the scorer has picked; no id is "no replica".
  unfoldable pub try_picked :
      (List String → C → Option (Retried N C))
      → ℕ
      → List String
      → C
      → Option (Replica N)
      → Option (Retried N C)
  try_picked next attempt excluded c none = no_response excluded c
  try_picked next attempt excluded c (some r) =
      if str_eq r.id ""
      then no_response excluded c
      else settle next excluded c r (accepted stall_check (upstream attempt r))

  -- The rounds from `attempt` on; an excluded replica is not tried again.
  unfoldable pub retry_loop : ℕ → ℕ → List String → C → Option (Retried N C)
  retry_loop zero attempt excluded c = no_response excluded c
  retry_loop (suc rounds) attempt excluded c =
      let (picked, c') = pick ops.allow (views attempt) tier (member excluded) c replicas in
      try_picked (retry_loop rounds (attempt + 1)) attempt excluded c' picked
