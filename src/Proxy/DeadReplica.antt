-- ===== src/Proxy/DeadReplica.antt =====
-- internal/proxy/deadreplica.go: the wait for a first byte, and the watchdog that looks for silence on
-- a fixed tick. Times are nanoseconds. The order of a race between channels is an argument.
pub mod Detects
use prompt_response.Common.{
  ℕ, ◌+◌, ◌-◌, ◌*◌, ◌/◌, ◌^◌, Bool, true, false, List, [], ◌∷◌, ◌++◌, Option, none, some,
  if◌then◌else◌, ltb, leb, ◌==◌,
}

-- A reader: the bytes that it yields before its error or its end.
abbrev pub Reader : Type 0
Reader = List ℕ

-- `peekResult`: a reader, or an error.
pub data PeekResult : Type 0 where
  peeked : Reader → PeekResult
  closed_early timed_out : PeekResult

-- `io.ReadFull` of one byte, and the reader of the rest behind it.
after_read : Reader → PeekResult
after_read [] = closed_early
after_read (b ∷ rest) = peeked ((b ∷ []) ++ rest)

-- `peekFirstByte`, by whether the read ends before the timer does.
unfoldable pub peek_first_byte : Bool → Reader → PeekResult
unfolding after_read
peek_first_byte true body = after_read body
peek_first_byte false body = timed_out

abbrev pub shortest_tick : ℕ
shortest_tick = 50 * 10 ^ 6

unfoldable pub tick_of : ℕ → ℕ
tick_of stall = if ltb (stall / 4) shortest_tick then shortest_tick else stall / 4

-- What the watchdog's loop receives: a tick with its time, or the end of `stop`.
pub data Signal : Type 0 where
  tick : ℕ → Signal
  stopped : Signal

-- The time since which a stream is silent; no activity yet counts from the start.
unfoldable pub silent_since : ℕ → Option ℕ → ℕ
silent_since started none = started
silent_since started (some last) = last

-- The goroutine of `newStallWatchdog`: the time at which it calls `onStall`, if it does. `activity` is
-- what `LastActivity` returns at a time.
unfoldable pub watch : ℕ → ℕ → (ℕ → Option ℕ) → List Signal → Option ℕ
watch stall started activity [] = none
watch stall started activity (stopped ∷ signals) = none
watch stall started activity (tick now ∷ signals) =
    let rest = watch stall started activity signals in
    if leb stall (now - silent_since started (activity now)) then some now else rest

-- `newStallWatchdog` starts no goroutine without a timeout.
unfoldable pub stall_watchdog : ℕ → ℕ → (ℕ → Option ℕ) → List Signal → Option ℕ
stall_watchdog stall started activity signals =
    if stall == 0 then none else watch stall started activity signals
