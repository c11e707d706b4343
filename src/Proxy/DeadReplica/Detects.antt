-- ===== src/Proxy/DeadReplica/Detects.antt =====
-- The watchdog fires only on silence, and in time.
use prompt_response.Common.{
  ℕ, zero, suc, ◌+◌, ◌-◌, ◌*◌, ◌≤◌, ◌<◌, ◌≡◌, refl, false, List, [], ◌∷◌, Option, none, some, leb,
  ◌==◌, Bool-cases, inl, inr, arith, leb→le,
}
use prompt_response.Proxy.DeadReplica.{
  tick_of, Signal, tick, stopped, silent_since, watch, stall_watchdog,
}

-- The ticks after a time, and then nothing.
abbrev pub ticks : ℕ → ℕ → ℕ → List Signal
ticks period from zero = []
ticks period from (suc n) = tick (from + period) ∷ ticks period (from + period) n

-- The watchdog fires at a tick less than one period after the silence has lasted the timeout, and at
-- that tick the stream has been silent for the timeout.
abbrev pub Fires : ℕ → ℕ → (ℕ → Option ℕ) → ℕ → Option ℕ → Type 0
Fires stall started activity deadline out =
    (now : ℕ) × (out ≡ some now)
    × (now < deadline + tick_of stall)
    × (stall ≤ now - silent_since started (activity now))

module _ (stall started quiet : ℕ) (activity : ℕ → Option ℕ) where
  watch-Fires :
      (n from : ℕ)
      → ((t : ℕ) → silent_since started (activity t) ≤ quiet)
      → from < quiet + stall
      → quiet + stall ≤ from + n * tick_of stall
      → Fires stall started activity
          (quiet + stall)
          (watch stall started activity (ticks (tick_of stall) from n))
  unfolding watch
  watch-Fires zero from silence early enough = absurd (omega arith)
  watch-Fires (suc n) from silence early enough =
      let now = from + tick_of stall in
      elim (Bool-cases (leb stall (now - silent_since started (activity now)))) [
        | inl fires ↦ rw fires (now, refl, omega arith, leb→le _ _ fires)
        | inr waits ↦
            rw waits (watch-Fires n now silence (ground (arith, silence now, waits)) (omega arith))
      ]

  -- If the stream's last activity is not after a time, and the ticks come with their period until the
  -- timeout has passed since then, the watchdog fires: at a tick at which the stream has been silent
  -- for the timeout, and less than one period of the ticks after the end of the timeout.
  pub stall_watchdog-Fires :
      (n : ℕ)
      → 0 < stall
      → started ≤ quiet
      → ((t : ℕ) → silent_since started (activity t) ≤ quiet)
      → quiet + stall ≤ started + n * tick_of stall
      → Fires stall started activity
          (quiet + stall)
          (stall_watchdog stall started activity (ticks (tick_of stall) started n))
  unfolding stall_watchdog
  stall_watchdog-Fires n some_timeout begun silence enough =
      let e : (stall == 0) ≡ false = ground arith in
      rw e (watch-Fires n started silence (omega arith) enough)

  -- A stream that has been silent for less than the timeout at each tick is left alone.
  watch-none :
      (signals : List Signal)
      → ((t : ℕ) → t - silent_since started (activity t) < stall)
      → watch stall started activity signals ≡ none
  unfolding watch
  watch-none [] busy = refl
  watch-none (stopped ∷ signals) busy = refl
  watch-none (tick now ∷ signals) busy = ground (arith, busy now, watch-none signals busy)
