-- ===== src/Tests/Sinks.antt =====
-- A small usage sink, the table that its batches fill, and the watchdog of a stream.
use prompt_response.Common.{
  Table, ℕ, suc, ◌≡◌, refl, String, List, [], ◌∷◌, Option, some, length, arith, lookup, string_eq,
  pos, true, false, inl,
}
use prompt_response.Usage.Sink.{
  UsageEvent, BatchSink, new_batch_sink, enqueue, has_room, receive, close, enqueued, received,
  closed, saw_stop, draining, flush, ticked,
}
use prompt_response.Usage.Sink.Conserved.{Reach, start, then_step, contents, contents-Reach}
use prompt_response.Usage.Sink.Bounded.{IsBounded, Reach-IsBounded}
use prompt_response.Usage.Sink.Drained.{Ended, rounds, rounds-Reach}
use prompt_response.Usage.Postgres.{Row, new_postgres_sink, creating}
use prompt_response.Usage.Postgres.Sums.{flush_all}
use prompt_response.Usage.{get}
use prompt_response.Usage.Totals.{Event, record_events}
use prompt_response.Usage.Outages.{Within, flush_each, flush_each-Within}
use prompt_response.Usage.Mirror.{Added, rounds-Added}
use prompt_response.Proxy.DeadReplica.{stall_watchdog, tick_of, silent_since}
use prompt_response.Proxy.DeadReplica.Detects.{ticks, Fires, stall_watchdog-Fires}

abbrev event : String → ℕ → UsageEvent
event name at = record { tenant = name; input = 3; output = 5; at = at }

-- A queue of one event and batches of two: of three events one is received, one waits and one is
-- dropped, and then the sink is closed.
abbrev one_in : BatchSink
one_in = enqueue (new_batch_sink 1 2) (event "acme" 1)

abbrev received_one : BatchSink
received_one = receive one_in (event "acme" 1) []

abbrev one_dropped : BatchSink
one_dropped = enqueue (enqueue received_one (event "other" 2)) (event "acme" 3)

abbrev stopping : BatchSink
stopping = record (close one_dropped) { phase = draining }

abbrev accepted : List UsageEvent
accepted = event "acme" 1 ∷ event "other" 2 ∷ []

stopping-reached : Reach 1 2 accepted stopping
unfolding new_batch_sink enqueue has_room receive close
stopping-reached =
    then_step
      (then_step
        (then_step
          (then_step
            (then_step (then_step start (enqueued (event "acme" 1)))
              (received (event "acme" 1) [] refl refl))
            (enqueued (event "other" 2)))
          (enqueued (event "acme" 3)))
        (closed refl))
      (saw_stop refl refl)

contents-Reach_example : contents stopping ≡ accepted
contents-Reach_example = contents-Reach stopping-reached

Reach-IsBounded_example : IsBounded 1 2 stopping
Reach-IsBounded_example = Reach-IsBounded (omega arith) stopping-reached

rounds-Reach_example : Ended accepted (rounds (suc (length stopping.ch)) stopping)
rounds-Reach_example = rounds-Reach stopping-reached refl

-- A queue with room for both events; the tracker's clock is read a little earlier.
abbrev both : BatchSink
both = enqueue (enqueue (new_batch_sink 2 2) (event "acme" 1)) (event "other" 2)

abbrev closing : BatchSink
closing = record (close both) { phase = draining }

closing-reached : Reach 2 2 accepted closing
unfolding new_batch_sink enqueue has_room close
closing-reached =
    then_step
      (then_step
        (then_step (then_step start (enqueued (event "acme" 1))) (enqueued (event "other" 2)))
        (closed refl))
      (saw_stop refl refl)

abbrev recorded : String → ℕ → Event
recorded name at = record { tenant = name; input = pos 3; output = pos 5; at = at }

-- What an earlier run has left.
abbrev earlier : Table String Row
earlier =
    (
      "acme",
      record { input_tokens = 7; output_tokens = 9; requests = 1; first_seen = 0; last_seen = 0 },
    )
    ∷ []

rounds-Added_example :
    Added
      (lookup "acme" earlier)
      (get (record_events [] (recorded "acme" 0 ∷ recorded "other" 1 ∷ [])) "acme")
      (lookup "acme" (flush_all earlier (rounds (suc (length closing.ch)) closing).flushed))
unfolding closing-reached new_batch_sink enqueue has_room close
rounds-Added_example =
    rounds-Added earlier "acme" (recorded "acme" 0 ∷ recorded "other" 1 ∷ []) closing-reached refl
      refl ((refl, refl, refl, (refl, refl, refl, tt))) (omega arith, omega arith, omega arith)

-- A batch of one event is sent, and the queue is full for the third event.
dropping_reached : (s : BatchSink) × Reach 1 2 accepted s × (s.flushed ≡ (event "acme" 1 ∷ []) ∷ [])
unfolding new_batch_sink enqueue receive flush has_room
dropping_reached = (
  _,
  then_step
      (then_step
        (then_step
          (then_step (then_step start (enqueued (event "acme" 1)))
            (received (event "acme" 1) [] refl refl))
          (ticked refl))
        (enqueued (event "other" 2)))
      (enqueued (event "acme" 3)),
  refl,
)

flush_each-Within_example :
    Within
      (lookup "acme" earlier)
      (get
        (record_events [] (recorded "acme" 0 ∷ recorded "other" 1 ∷ recorded "acme" 2 ∷ []))
        "acme")
      (lookup "acme" (flush_each (λ n. true) 0 earlier dropping_reached.0.flushed))
unfolding dropping_reached new_batch_sink enqueue receive flush has_room
flush_each-Within_example =
    flush_each-Within earlier "acme" (λ n. true)
      (recorded "acme" 0 ∷ recorded "other" 1 ∷ recorded "acme" 2 ∷ []) dropping_reached.1
      (refl, refl, refl, (refl, refl, refl, (refl, refl, refl, tt)))
      (omega arith, omega arith, omega arith)

-- The database answers, but cannot make the table.
no_table : new_postgres_sink true true false 4 2 ≡ (inl creating, false)
unfolding new_postgres_sink
no_table = refl

-- The last activity is at 10 ms, with a timeout of 1 s and so a tick of 250 ms.
abbrev last_activity : ℕ → Option ℕ
last_activity t = some 10000000

stall_watchdog-Fires_example :
    Fires 1000000000 0 last_activity 1010000000
      (stall_watchdog 1000000000 0 last_activity (ticks (tick_of 1000000000) 0 5))
unfolding tick_of silent_since
stall_watchdog-Fires_example =
    stall_watchdog-Fires 1000000000 0 10000000 last_activity 5 (omega arith) (omega arith)
      (λ t. omega arith) (omega arith)

abbrev batches : List (List UsageEvent)
batches = (event "acme" 1 ∷ event "other" 2 ∷ []) ∷ (event "acme" 3 ∷ []) ∷ []
