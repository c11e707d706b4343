-- ===== src/Usage/Sink/Conserved.antt =====
-- No event that the queue accepted is lost, doubled or moved past another on its way to the backend.
use mathlib.Core.List.{append_assoc, append-nil}
use prompt_response.Common.{
  ℕ, ◌+◌, ◌≡◌, refl, sym, ap, ◌∙◌, List, [], ◌∷◌, ◌++◌, if◌then◌else◌, leb, length, Bool-cases, inl,
  inr,
}
use prompt_response.Usage.Sink.{
  UsageEvent, BatchSink, new_batch_sink, has_room, enqueue, flush_batch, flush, receive, close,
  take_rest, drain, Step, enqueued, received, ticked, closed, saw_stop, drained,
}

abbrev pub concat : List (List UsageEvent) → List UsageEvent
concat [] = []
concat (b ∷ bs) = b ++ concat bs

concat-append : (xs ys : List (List UsageEvent)) → concat (xs ++ ys) ≡ concat xs ++ concat ys
concat-append [] ys = refl
concat-append (x ∷ xs) ys =
    ap (λ t. x ++ t) (concat-append xs ys) ∙ sym (append_assoc x (concat xs) (concat ys))

-- What an offered event adds to the accepted ones.
abbrev pub accepted_by : BatchSink → UsageEvent → List UsageEvent
accepted_by s ev = if has_room s then ev ∷ [] else []

-- The events that a step accepts.
abbrev pub accepted_in : {s t : BatchSink} → Step s t → List UsageEvent
accepted_in {s} (enqueued ev) = accepted_by s ev
accepted_in _ = []

-- The states that the sink may reach with all the events that were accepted on the way, oldest
-- first.
pub data Reach (buffer_size batch_size : ℕ) : List UsageEvent → BatchSink → Type 0 where
  start : Reach buffer_size batch_size [] (new_batch_sink buffer_size batch_size)
  then_step :
      {log : List UsageEvent} {s t : BatchSink}
      → Reach buffer_size batch_size log s
      → (st : Step s t) → Reach buffer_size batch_size (log ++ accepted_in st) t

-- The events in the sink and those sent, oldest first.
abbrev pub contents : BatchSink → List UsageEvent
contents s = concat s.flushed ++ (s.batch ++ s.ch)

shift :
    (f : List UsageEvent) (b c d : List UsageEvent)
    → (f ++ (b ++ [])) ++ (c ++ d) ≡ f ++ ((b ++ c) ++ d)
shift f b c d =
    rw (append-nil b) (append_assoc f b (c ++ d) ∙ ap (λ t. f ++ t) (sym (append_assoc b c d)))

flush_batch-contents :
    (s : BatchSink) (b : List UsageEvent) → s.batch ≡ b → contents (flush_batch s b) ≡ contents s
unfolding flush_batch
flush_batch-contents s [] e = refl
flush_batch-contents s (ev ∷ evs) e =
    ap (λ t. t ++ s.ch) (concat-append s.flushed ((ev ∷ evs) ∷ []))
    ∙ shift (concat s.flushed) (ev ∷ evs) [] s.ch
    ∙ ap (λ b. concat s.flushed ++ (b ++ s.ch)) (append-nil (ev ∷ evs) ∙ sym e)

pub flush-contents : (s : BatchSink) → contents (flush s) ≡ contents s
unfolding flush
flush-contents s = flush_batch-contents s s.batch refl

-- An event goes from the front of the queue to the end of the batch.
move-contents :
    (s : BatchSink) (ev : UsageEvent) (rest : List UsageEvent)
    → s.ch ≡ ev ∷ rest
    → contents (record s { ch = rest; batch = s.batch ++ (ev ∷ []) }) ≡ contents s
move-contents s ev rest e =
    ap (λ t. concat s.flushed ++ t)
      (append_assoc s.batch (ev ∷ []) rest ∙ ap (λ c. s.batch ++ c) (sym e))

receive-contents :
    (s : BatchSink) (ev : UsageEvent) (rest : List UsageEvent)
    → s.ch ≡ ev ∷ rest
    → contents (receive s ev rest) ≡ contents s
unfolding receive
receive-contents s ev rest e = elim (Bool-cases (leb s.batch_size (length s.batch + 1))) [
  | inl full ↦ rw full (flush-contents _ ∙ move-contents s ev rest e)
  | inr more ↦ rw more (move-contents s ev rest e)
]

take_rest-contents :
    (s : BatchSink) (rest : List UsageEvent)
    → s.ch ≡ rest
    → contents (take_rest s rest) ≡ contents s
unfolding take_rest
take_rest-contents s [] e = flush-contents s
take_rest-contents s (ev ∷ evs) e = move-contents s ev evs e

pub drain-contents : (s : BatchSink) → contents (drain s) ≡ contents s
unfolding drain
drain-contents s = take_rest-contents s s.ch refl

enqueue-contents :
    (s : BatchSink) (ev : UsageEvent) → contents (enqueue s ev) ≡ contents s ++ accepted_by s ev
unfolding enqueue
enqueue-contents s ev = elim (Bool-cases (has_room s)) [
  | inl room ↦ rw room (
      ap (λ t. concat s.flushed ++ t) (sym (append_assoc s.batch s.ch (ev ∷ [])))
      ∙ sym (append_assoc (concat s.flushed) (s.batch ++ s.ch) (ev ∷ [])))
  | inr full ↦ rw full (sym (append-nil (contents s)))
]

Step-contents : {s t : BatchSink} (st : Step s t) → contents t ≡ contents s ++ accepted_in st
unfolding close
Step-contents {s} (enqueued ev) = enqueue-contents s ev
Step-contents {s} (received ev rest p e) =
    receive-contents s ev rest e ∙ sym (append-nil (contents s))
Step-contents {s} (ticked p) = flush-contents s ∙ sym (append-nil (contents s))
Step-contents {s} (closed p) = sym (append-nil (contents s))
Step-contents {s} (saw_stop p q) = sym (append-nil (contents s))
Step-contents {s} (drained p) = drain-contents s ∙ sym (append-nil (contents s))

-- In every state that the sink can reach, whatever the order in which callers and worker run, the
-- batches sent, the batch at hand and the queue are together exactly the accepted events, each once
-- and in the order in which the queue accepted them.
pub contents-Reach :
    {buffer_size batch_size : ℕ} {log : List UsageEvent} {s : BatchSink}
    → Reach buffer_size batch_size log s
    → contents s ≡ log
unfolding new_batch_sink
contents-Reach start = refl
contents-Reach (then_step r st) =
    Step-contents st ∙ ap (λ l. l ++ accepted_in st) (contents-Reach r)
