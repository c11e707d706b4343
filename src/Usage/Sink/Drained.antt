-- ===== src/Usage/Sink/Drained.antt =====
-- internal/usage/sink.go: the worker ends once it is told to, and sends what is left.
use mathlib.Core.List.{append-nil}
use prompt_response.Common.{
  ℕ, zero, suc, ◌≡◌, refl, sym, ap, ◌∙◌, subst, List, [], ◌∷◌, ◌++◌, length,
}
use prompt_response.Usage.Sink.{UsageEvent, draining, finished, BatchSink, flush, take_rest, drain}
use prompt_response.Usage.Sink.Conserved.{
  concat, contents, Reach, contents-Reach, flush-contents, drain-contents,
}
use prompt_response.Usage.Sink.Bounded.{flush-Flushed}

-- Rounds of the worker's inner loop.
unfoldable pub rounds : ℕ → BatchSink → BatchSink
rounds zero s = s
rounds (suc n) s = rounds n (drain s)

-- The worker is gone, and everything that was in the sink has been sent.
pub record Ended (log : List UsageEvent) (s : BatchSink) : Type 0 where
  pub gone : s.phase ≡ finished
  pub no_queue : s.ch ≡ []
  pub no_batch : s.batch ≡ []
  pub all_sent : concat s.flushed ≡ log

last_round : (s : BatchSink) → s.ch ≡ [] → Ended (contents s) (drain s)
unfolding drain take_rest
last_round s e =
    let f = flush-Flushed s in
    let empty : drain s ≡ take_rest s [] = ap (take_rest s) e in
    let ends : Ended (contents s) (take_rest s []) = record {
      gone = refl;
      no_queue = f.same_ch ∙ e;
      no_batch = f.emptied;
      all_sent =
          sym (append-nil (concat (flush s).flushed))
          ∙ ap (λ t. concat (flush s).flushed ++ t) (sym (rw (f.emptied, f.same_ch, e) refl))
          ∙ flush-contents s;
    } in
    subst (Ended (contents s)) (sym empty) ends

rounds-Ended :
    (rest : List UsageEvent) (s : BatchSink)
    → s.ch ≡ rest
    → Ended (contents s) (rounds (suc (length rest)) s)
unfolding rounds drain take_rest
rounds-Ended [] s e = last_round s e
rounds-Ended (ev ∷ evs) s e =
    subst (λ l. Ended l (rounds (suc (length evs)) (drain s))) (drain-contents s)
      (rounds-Ended evs (drain s) (ap (λ r. (take_rest s r).ch) e))

-- However the sink got there, a worker that has seen `stop` ends after one round for each event in
-- the queue and a last one, if nobody calls `Enqueue` meanwhile: then it is gone, queue and batch are
-- empty, and the batches sent are together all the events that were ever accepted, in their order.
pub rounds-Reach :
    {buffer_size batch_size : ℕ} {log : List UsageEvent} {s : BatchSink}
    → Reach buffer_size batch_size log s
    → s.phase ≡ draining
    → Ended log (rounds (suc (length s.ch)) s)
rounds-Reach {s} r p =
    subst (λ l. Ended l (rounds (suc (length s.ch)) s)) (contents-Reach r)
      (rounds-Ended s.ch s refl)
