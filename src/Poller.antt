-- ===== src/Poller.antt =====
-- internal/poller: the health of each replica, from polls of its metrics and from health checks.
-- The mutex makes each update one step. What a poll read is an argument: `none` is an error.
pub mod Metrics
pub mod Consecutive
use prompt_response.Common.{
  ℕ, ◌+◌, Bool, true, false, String, List, [], ◌∷◌, Option, none, some, leb, ◌==◌, if◌then◌else◌,
  ◌>>=◌, Table, lookup, lookup_or, insert, string_eq, Float, ℤ, pos,
}
use prompt_response.Types.{Replica}

pub record State (N : Type 0) : Type 0 where
  pub queue_depth : ℤ
  pub running : ℤ
  pub kv_cache_util : N
  pub healthy : Bool

pub record Poller (N : Type 0) : Type 0 where
  pub states : Table String (State N)
  pub failures : Table String ℕ
  pub interval : ℕ

module _ {N : Type 0} ⦃F : Float N⦄ where
  abbrev pub zero_state : State N
  zero_state = record {
    queue_depth = pos 0;
    running = pos 0;
    kv_cache_util = F.of_int 0;
    healthy = false;
  }

  unfoldable pub initial_states : List (Replica N) → Table String (State N) → Table String (State N)
  initial_states [] m = m
  initial_states (r ∷ rs) m =
      initial_states rs (insert r.id (record zero_state { healthy = true }) m)

  unfoldable pub new_poller : List (Replica N) → ℕ → Poller N
  new_poller replicas interval = record {
    states = initial_states replicas [];
    failures = [];
    interval = if interval == 0 then 2000000000 else interval;
  }

  abbrev pub failures_of : Poller N → String → ℕ
  failures_of p id = lookup_or 0 id p.failures

  abbrev pub state_of : Poller N → String → State N
  state_of p id = lookup_or zero_state id p.states

  -- The part that a failed poll, a failed health check and `SimulateFailure` share.
  unfoldable pub record_failure : Poller N → String → Poller N
  record_failure p id =
      let n = failures_of p id + 1 in
      let p' = record p { failures = insert id n p.failures } in
      if leb 3 n
      then record p' { states = insert id (record (state_of p id) { healthy = false }) p.states }
      else p'

  -- checker.go, `checkHealth`, by whether the replica answered with status 200.
  unfoldable pub check_health : Poller N → String → Bool → Poller N
  check_health p id false = record_failure p id
  check_health p id true = record p {
    failures = insert id 0 p.failures;
    states = insert id (record (state_of p id) { healthy = true }) p.states;
  }

  -- `err.Error()` on the nil error of a successful poll panics.
  error_text : Option (State N) → Option (Unit {0})
  error_text (some s) = none
  error_text none = some tt

  unfoldable pub apply_poll : Poller N → String → Option (State N) → Poller N
  apply_poll p id none = record_failure p id
  apply_poll p id (some s) = record p {
    failures = insert id 0 p.failures;
    states = insert id (record s { healthy = true }) p.states;
  }

  -- One tick of `pollLoop`; `none` is a panic.
  unfoldable pub poll_tick : Poller N → String → Option (State N) → Option (Poller N)
  unfolding error_text
  poll_tick p id scraped = error_text scraped >>= λ _. some (apply_poll p id scraped)

  unfoldable pub set_state : Poller N → String → State N → Poller N
  set_state p id s = record p { states = insert id s p.states }
