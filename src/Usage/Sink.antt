-- ===== src/Usage/Sink.antt =====
-- internal/usage/sink.go, `BatchSink`: the bounded queue of usage events and the worker that sends
-- them to the backend in batches. The worker, the callers of `Enqueue` and the one of `Close` run at
-- the same time; a step of the relation is one of their communications. A queue of capacity zero,
-- which hands an event over only while the worker waits, is not modelled.
pub mod Bounded
pub mod Conserved
pub mod Drained
pub mod Offered
use prompt_response.Common.{
  ℕ, suc, ◌+◌, ◌≡◌, Bool, true, false, String, List, [], ◌∷◌, ◌++◌, if◌then◌else◌, ltb, leb, length,
}

-- `UsageEvent`. The counts are those of the handler, which are not negative.
pub record UsageEvent : Type 0 where
  pub tenant : String
  pub input : ℕ
  pub output : ℕ
  pub at : ℕ

-- Where the worker is: in its loop, in the loop that it enters when it sees `stop`, or gone.
pub data Phase : Type 0 where
  running draining finished : Phase

-- `flushed` are the batches that `flushFn` was called with, oldest first: whether a call fails does
-- not change what the worker does next.
pub record BatchSink : Type 0 where
  pub ch : List UsageEvent
  pub buffer_size : ℕ
  pub batch_size : ℕ
  pub batch : List UsageEvent
  pub dropped : ℕ
  pub stop : Bool
  pub phase : Phase
  pub flushed : List (List UsageEvent)

unfoldable pub new_batch_sink : ℕ → ℕ → BatchSink
new_batch_sink buffer_size batch_size = record {
  ch = [];
  buffer_size = buffer_size;
  batch_size = batch_size;
  batch = [];
  dropped = 0;
  stop = false;
  phase = running;
  flushed = [];
}

-- The queue has room.
unfoldable pub has_room : BatchSink → Bool
has_room s = ltb (length s.ch) s.buffer_size

unfoldable pub enqueue : BatchSink → UsageEvent → BatchSink
enqueue s ev =
    if has_room s then record s { ch = s.ch ++ (ev ∷ []) } else record s { dropped = s.dropped + 1 }

-- `flush`.
flush_batch : BatchSink → List UsageEvent → BatchSink
flush_batch s [] = s
flush_batch s (ev ∷ evs) = record s { flushed = s.flushed ++ ((ev ∷ evs) ∷ []); batch = [] }

unfoldable pub flush : BatchSink → BatchSink
unfolding flush_batch
flush s = flush_batch s s.batch

-- The worker takes an event off the queue, of which `rest` remains.
unfoldable pub receive : BatchSink → UsageEvent → List UsageEvent → BatchSink
receive s ev rest =
    let s' = record s { ch = rest; batch = s.batch ++ (ev ∷ []) } in
    if leb s.batch_size (length s.batch + 1) then flush s' else s'

-- `Close`, up to its wait for the worker.
unfoldable pub close : BatchSink → BatchSink
close s = record s { stop = true }

-- The worker's inner loop, on the queue as it is: all of it joins the batch.
take_rest : BatchSink → List UsageEvent → BatchSink
take_rest s [] = record (flush s) { phase = finished }
take_rest s (ev ∷ evs) = record s { ch = evs; batch = s.batch ++ (ev ∷ []) }

-- One round of it.
unfoldable pub drain : BatchSink → BatchSink
unfolding take_rest
drain s = take_rest s s.ch

pub data Step (s : BatchSink) : BatchSink → Type 0 where
  enqueued : (ev : UsageEvent) → Step s (enqueue s ev)
  received :
      (ev : UsageEvent) (rest : List UsageEvent)
      → s.phase ≡ running
      → s.ch ≡ ev ∷ rest
      → Step s (receive s ev rest)
  ticked : s.phase ≡ running → Step s (flush s)
  closed : s.stop ≡ false → Step s (close s)
  saw_stop : s.phase ≡ running → s.stop ≡ true → Step s (record s { phase = draining })
  drained : s.phase ≡ draining → Step s (drain s)
