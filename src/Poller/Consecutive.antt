-- ===== src/Poller/Consecutive.antt =====
-- A replica is unhealthy exactly while its last three health checks, or more, have failed; and
-- polling never makes a replica healthy again.
use prompt_response.Common.{
  ℕ, ◌+◌, ◌≡◌, refl, Bool, true, false, not, String, List, [], ◌∷◌, ◌++◌, Option, none, some, leb,
  if◌then◌else◌, ◌>>=◌, Table, lookup_or, lookup_or-insert, insert, string_eq, Float, arith, str_eq,
  str_eq_iff,
}
use prompt_response.Types.{Replica}
use prompt_response.Poller.{
  State, Poller, zero_state, initial_states, new_poller, failures_of, state_of, record_failure,
  check_health, apply_poll, poll_tick,
}

-- How many checks of a replica have failed since its last success, after `n` before.
abbrev pub failed_since : String → ℕ → List (String × Bool) → ℕ
failed_since id n [] = n
failed_since id n ((j, ok) ∷ es) =
    failed_since id (if str_eq j id then if ok then 0 else n + 1 else n) es

module _ {N : Type 0} ⦃F : Float N⦄ where
  -- Health checks of replicas, in the order in which they take the lock.
  unfoldable pub check_all : Poller N → List (String × Bool) → Poller N
  check_all p [] = p
  check_all p ((id, ok) ∷ es) = check_all (check_health p id ok) es

  -- The replica's counter stands at `n`, and its health agrees.
  record Counts (id : String) (n : ℕ) (p : Poller N) : Type 0 where
    counter : failures_of p id ≡ n
    health : (state_of p id).healthy ≡ not (leb 3 n)

  check_health-Counts :
      (p : Poller N) (id j : String) (ok : Bool) (n : ℕ)
      → Counts id n p
      → Counts id (if str_eq j id then if ok then 0 else n + 1 else n) (check_health p j ok)
  unfolding check_health record_failure
  check_health-Counts p id j true n c = ground (
    arith,
    lookup_or-insert 0 j id 0 p.failures,
    lookup_or-insert zero_state j id (record (state_of p j) { healthy = true }) p.states,
  )
  check_health-Counts p id j false n c = ground (
    arith,
    str_eq_iff j id,
    lookup_or-insert 0 j id (failures_of p j + 1) p.failures,
    lookup_or-insert zero_state j id (record (state_of p j) { healthy = false }) p.states,
  )

  check_all-Counts :
      (es : List (String × Bool)) (p : Poller N) (id : String) (n : ℕ)
      → Counts id n p
      → Counts id (failed_since id n es) (check_all p es)
  unfolding check_all
  check_all-Counts [] p id n c = c
  check_all-Counts ((j, ok) ∷ es) p id n c =
      check_all-Counts es (check_health p j ok) id
        (if str_eq j id then if ok then 0 else n + 1 else n) (check_health-Counts p id j ok n c)

  initial_states-healthy :
      (rs : List (Replica N)) (m : Table String (State N)) (id : String)
      → (lookup_or zero_state id m).healthy ≡ true
      → (lookup_or zero_state id (initial_states rs m)).healthy ≡ true
  unfolding initial_states
  initial_states-healthy [] m id h = h
  initial_states-healthy (r ∷ rs) m id h =
      let up : State N = record zero_state { healthy = true } in
      initial_states-healthy rs (insert r.id up m) id
        (ground (arith, lookup_or-insert zero_state r.id id up m))

  initial_states-member :
      (pre post : List (Replica N)) (r : Replica N) (m : Table String (State N))
      → (lookup_or zero_state r.id (initial_states (pre ++ (r ∷ post)) m)).healthy ≡ true
  unfolding initial_states
  initial_states-member [] post r m =
      let up : State N = record zero_state { healthy = true } in
      initial_states-healthy post (insert r.id up m) r.id
        (ground (arith, lookup_or-insert zero_state r.id r.id up m, str_eq_iff r.id r.id))
  initial_states-member (q ∷ pre) post r m =
      initial_states-member pre post r (insert q.id (record zero_state { healthy = true }) m)

  -- Whatever health checks of whichever replicas follow the start, in any order, a configured
  -- replica is unhealthy exactly while at least three checks of it have failed since its last
  -- successful one; its failure counter is the number of those.
  pub unhealthy_after_three :
      (pre post : List (Replica N)) (r : Replica N) (interval : ℕ) (es : List (String × Bool))
      → let p = check_all (new_poller (pre ++ (r ∷ post)) interval) es in
        (failures_of p r.id ≡ failed_since r.id 0 es)
        × ((state_of p r.id).healthy ≡ not (leb 3 (failed_since r.id 0 es)))
  unfolding new_poller lookup_or
  unhealthy_after_three pre post r interval es =
      let c =
        check_all-Counts es (new_poller (pre ++ (r ∷ post)) interval) r.id 0
          (record { counter = refl; health = initial_states-member pre post r [] }) in
      (c.counter, c.health)

  -- Ticks of the poll loops, in the order in which they take the lock, each with what was read.
  unfoldable pub poll_all : Poller N → List (String × Option (State N)) → Option (Poller N)
  poll_all p [] = some p
  poll_all p ((id, scraped) ∷ ts) = poll_tick p id scraped >>= λ p'. poll_all p' ts

  failed_poll :
      (p : Poller N) (id j : String)
      → (state_of p id).healthy ≡ false
      → (state_of (record_failure p j) id).healthy ≡ false
  unfolding record_failure
  failed_poll p id j h = ground (
    arith,
    str_eq_iff j id,
    lookup_or-insert zero_state j id (record (state_of p j) { healthy = false }) p.states,
  )

  -- Polling makes no unhealthy replica healthy: any run of poll ticks that does not panic leaves it
  -- unhealthy, since a tick whose poll succeeded panics.
  pub polling_never_recovers :
      (ts : List (String × Option (State N))) (p p' : Poller N) (id : String)
      → (state_of p id).healthy ≡ false
      → poll_all p ts ≡ some p'
      → (state_of p' id).healthy ≡ false
  unfolding poll_all poll_tick apply_poll
  polling_never_recovers [] p p' id h e = cc
  polling_never_recovers ((j, some s) ∷ ts) p p' id h e = cc e
  polling_never_recovers ((j, none) ∷ ts) p p' id h e =
      polling_never_recovers ts (record_failure p j) p' id (failed_poll p id j h) e

  -- A successful poll panics, whatever it read and whatever came before it.
  successful_poll_panics :
      (ts us : List (String × Option (State N))) (p : Poller N) (id : String) (s : State N)
      → poll_all p (ts ++ ((id, some s) ∷ us)) ≡ none
  unfolding poll_all poll_tick
  successful_poll_panics [] us p id s = refl
  successful_poll_panics ((j, some s') ∷ ts) us p id s = refl
  successful_poll_panics ((j, none) ∷ ts) us p id s =
      successful_poll_panics ts us (apply_poll p j none) id s
