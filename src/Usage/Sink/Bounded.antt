-- ===== src/Usage/Sink/Bounded.antt =====
-- internal/usage/sink.go: the bounds on the queue and on the batch.
use prompt_response.Common.{
  ℕ, ◌+◌, ◌≤◌, ◌<◌, ◌≡◌, refl, ap, ◌∙◌, List, [], ◌∷◌, leb, length, length-append, arith,
  Bool-cases, inl, inr,
}
use prompt_response.Usage.Sink.{
  UsageEvent, running, draining, finished, BatchSink, new_batch_sink, has_room, enqueue,
  flush_batch, flush, receive, close, take_rest, drain, Step, enqueued, received, ticked, closed,
  saw_stop, drained,
}
use prompt_response.Usage.Sink.Conserved.{Reach, start, then_step}

-- The queue is within its capacity; while the worker is in its loop the batch is below its size; and
-- a worker that is gone has left no batch.
pub record IsBounded (buffer_size batch_size : ℕ) (s : BatchSink) : Type 0 where
  pub capacity : s.buffer_size ≡ buffer_size
  pub size : s.batch_size ≡ batch_size
  pub in_queue : length s.ch ≤ buffer_size
  pub in_batch : s.phase ≡ running → length s.batch < batch_size
  pub sent : s.phase ≡ finished → s.batch ≡ []

-- After a flush the batch is empty, and what is not the batch is as it was.
pub record Flushed (s t : BatchSink) : Type 0 where
  pub emptied : t.batch ≡ []
  pub same_ch : t.ch ≡ s.ch
  pub same_capacity : t.buffer_size ≡ s.buffer_size
  pub same_size : t.batch_size ≡ s.batch_size
  pub same_phase : t.phase ≡ s.phase

flush_batch-Flushed :
    (s : BatchSink) (b : List UsageEvent) → s.batch ≡ b → Flushed s (flush_batch s b)
unfolding flush_batch
flush_batch-Flushed s [] e = record {
  emptied = e;
  same_ch = refl;
  same_capacity = refl;
  same_size = refl;
  same_phase = refl;
}
flush_batch-Flushed s (ev ∷ evs) e = record {
  emptied = refl;
  same_ch = refl;
  same_capacity = refl;
  same_size = refl;
  same_phase = refl;
}

pub flush-Flushed : (s : BatchSink) → Flushed s (flush s)
unfolding flush
flush-Flushed s = flush_batch-Flushed s s.batch refl

module _ {buffer_size batch_size : ℕ} (some_size : 0 < batch_size) where
  flush-IsBounded :
      (s : BatchSink)
      → s.phase ≡ running
      → length s.ch ≤ buffer_size
      → s.buffer_size ≡ buffer_size
      → s.batch_size ≡ batch_size
      → IsBounded buffer_size batch_size (flush s)
  flush-IsBounded s running_ room cap size =
      let f = flush-Flushed s in
      record {
        capacity = f.same_capacity ∙ cap;
        size = f.same_size ∙ size;
        in_queue = rw f.same_ch room;
        in_batch = λ _. rw f.emptied some_size;
        sent = λ _. f.emptied;
      }

  receive-IsBounded :
      (s : BatchSink) (ev : UsageEvent) (rest : List UsageEvent)
      → IsBounded buffer_size batch_size s
      → s.phase ≡ running
      → s.ch ≡ ev ∷ rest
      → IsBounded buffer_size batch_size (receive s ev rest)
  unfolding receive
  receive-IsBounded s ev rest b p e =
      let shorter : length rest ≤ buffer_size = omega (arith, ap length e, b.in_queue) in
      elim (Bool-cases (leb s.batch_size (length s.batch + 1))) [
        | inl full ↦ rw full (flush-IsBounded _ p shorter b.capacity b.size)
        | inr more ↦ rw more (record {
          capacity = b.capacity;
          size = b.size;
          in_queue = shorter;
          in_batch = λ _. ground (arith, b.size, length-append s.batch (ev ∷ []), more);
          sent = λ q. cc (p, q);
        })
      ]

  take_rest-IsBounded :
      (s : BatchSink) (rest : List UsageEvent)
      → IsBounded buffer_size batch_size s
      → s.phase ≡ draining
      → s.ch ≡ rest
      → IsBounded buffer_size batch_size (take_rest s rest)
  unfolding take_rest
  take_rest-IsBounded s [] b p e =
      let f = flush-Flushed s in
      record {
        capacity = f.same_capacity ∙ b.capacity;
        size = f.same_size ∙ b.size;
        in_queue = rw f.same_ch b.in_queue;
        in_batch = λ q. cc q;
        sent = λ _. f.emptied;
      }
  take_rest-IsBounded s (ev ∷ evs) b p e = record {
    capacity = b.capacity;
    size = b.size;
    in_queue = omega (arith, ap length e, b.in_queue);
    in_batch = λ q. cc (p, q);
    sent = λ q. cc (p, q);
  }

  enqueue-IsBounded :
      (s : BatchSink) (ev : UsageEvent)
      → IsBounded buffer_size batch_size s
      → IsBounded buffer_size batch_size (enqueue s ev)
  unfolding enqueue has_room
  enqueue-IsBounded s ev b = elim (Bool-cases (has_room s)) [
    | inl room ↦ rw room (record {
      capacity = b.capacity;
      size = b.size;
      in_queue = ground (arith, b.capacity, length-append s.ch (ev ∷ []), room);
      in_batch = b.in_batch;
      sent = b.sent;
    })
    | inr full ↦ rw full (record {
      capacity = b.capacity;
      size = b.size;
      in_queue = b.in_queue;
      in_batch = b.in_batch;
      sent = b.sent;
    })
  ]

  Step-IsBounded :
      {s t : BatchSink}
      → Step s t
      → IsBounded buffer_size batch_size s
      → IsBounded buffer_size batch_size t
  unfolding close drain
  Step-IsBounded {s} (enqueued ev) b = enqueue-IsBounded s ev b
  Step-IsBounded {s} (received ev rest p e) b = receive-IsBounded s ev rest b p e
  Step-IsBounded {s} (ticked p) b = flush-IsBounded s p b.in_queue b.capacity b.size
  Step-IsBounded {s} (closed p) b = record {
    capacity = b.capacity;
    size = b.size;
    in_queue = b.in_queue;
    in_batch = b.in_batch;
    sent = b.sent;
  }
  Step-IsBounded {s} (saw_stop p q) b = record {
    capacity = b.capacity;
    size = b.size;
    in_queue = b.in_queue;
    in_batch = λ e. cc e;
    sent = λ e. cc e;
  }
  Step-IsBounded {s} (drained p) b = take_rest-IsBounded s s.ch b p refl

  -- In every state that the sink can reach, when a batch holds at least one event: the queue is
  -- within its capacity, the batch is below its size while the worker is in its loop, and a worker
  -- that is gone has left no batch behind.
  pub Reach-IsBounded :
      {log : List UsageEvent} {s : BatchSink}
      → Reach buffer_size batch_size log s
      → IsBounded buffer_size batch_size s
  unfolding new_batch_sink
  Reach-IsBounded start = record {
    capacity = refl;
    size = refl;
    in_queue = omega arith;
    in_batch = λ _. some_size;
    sent = λ e. cc e;
  }
  Reach-IsBounded (then_step r st) = Step-IsBounded st (Reach-IsBounded r)
