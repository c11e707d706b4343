-- ===== src/Usage/Sink/Offered.antt =====
-- internal/usage/sink.go: the events that `Enqueue` was called with, and those that it dropped.

use prompt_response.Common.{
  ℕ, ◌+◌, ◌≤◌, ◌≡◌, refl, sym, ap, ◌∙◌, List, [], ◌∷◌, ◌++◌, leb, length, Bool-cases, inl, inr,
  arith,
}
use prompt_response.Usage.Sink.{
  UsageEvent, BatchSink, has_room, enqueue, flush_batch, flush, receive, close, take_rest, drain,
  Step, enqueued, received, ticked, closed, saw_stop, drained,
}
use prompt_response.Usage.Sink.Conserved.{Reach, start, then_step, accepted_in}

-- The event that a step offers to the queue.
abbrev pub offered_in : {s t : BatchSink} → Step s t → List UsageEvent
offered_in (enqueued ev) = ev ∷ []
offered_in _ = []

-- All events that `Enqueue` was called with, oldest first.
abbrev pub offered :
    {buffer_size batch_size : ℕ} {log : List UsageEvent} {s : BatchSink}
    → Reach buffer_size batch_size log s
    → List UsageEvent
offered start = []
offered (then_step r st) = offered r ++ offered_in st

flush-dropped : (s : BatchSink) (b : List UsageEvent) → (flush_batch s b).dropped ≡ s.dropped
unfolding flush_batch
flush-dropped s [] = refl
flush-dropped s (ev ∷ evs) = refl

receive-dropped :
    (s : BatchSink) (ev : UsageEvent) (rest : List UsageEvent)
    → (receive s ev rest).dropped ≡ s.dropped
unfolding receive flush
receive-dropped s ev rest = elim (Bool-cases (leb s.batch_size (length s.batch + 1))) [
  | inl full ↦ rw full (flush-dropped _ _)
  | inr more ↦ rw more refl
]

take_rest-dropped :
    (s : BatchSink) (rest : List UsageEvent) → (take_rest s rest).dropped ≡ s.dropped
unfolding take_rest flush
take_rest-dropped s [] = flush-dropped s s.batch
take_rest-dropped s (ev ∷ evs) = refl

-- What a step drops.
abbrev Counted : {s t : BatchSink} → Step s t → Type 0
Counted {s} {t} st =
    (s.dropped ≤ t.dropped) × (t.dropped ≡ s.dropped → accepted_in st ≡ offered_in st)

same-Counted : (a b : ℕ) (xs : List UsageEvent) → b ≡ a → (a ≤ b) × (b ≡ a → xs ≡ xs)
same-Counted a b xs e = (omega arith, λ q. refl)

Step-Counted : {s t : BatchSink} (st : Step s t) → Counted st
unfolding enqueue flush close drain
Step-Counted {s} (enqueued ev) = elim (Bool-cases (has_room s)) [
  | inl room ↦ rw room (omega arith, λ q. refl)
  | inr full ↦ rw full (omega arith, λ q. absurd (omega arith))
]
Step-Counted {s} (received ev rest p e) = same-Counted _ _ [] (receive-dropped s ev rest)
Step-Counted {s} (ticked p) = same-Counted _ _ [] (flush-dropped s s.batch)
Step-Counted {s} (closed p) = same-Counted _ _ [] refl
Step-Counted {s} (saw_stop p q) = same-Counted _ _ [] refl
Step-Counted {s} (drained p) = same-Counted _ _ [] (take_rest-dropped s s.ch)

-- While the counter of dropped events is zero, the accepted events are all that were offered.
pub offered-Reach :
    {buffer_size batch_size : ℕ} {log : List UsageEvent} {s : BatchSink}
    (r : Reach buffer_size batch_size log s)
    → s.dropped ≡ 0
    → offered r ≡ log
offered-Reach start e = refl
offered-Reach (then_step {log} {s} {t} r st) e =
    let (grows, same) = Step-Counted st in
    ap (λ l. l ++ offered_in st) (offered-Reach r (omega arith))
    ∙ ap (λ l. log ++ l) (sym (same (omega arith)))
