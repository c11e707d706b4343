-- ===== src/Usage/Mirror.antt =====
-- internal/usage: the tracker that the usage page reads, and the table that the sink fills. The handler
-- records a request in the tracker and enqueues the same counts; each reads the clock for itself.
use prompt_response.Common.{
  Bool, true, false, ◌||◌, ◌+◌, Table, ℕ, suc, ◌^◌, ◌<◌, ◌≡◌, refl, sym, ap, ◌∙◌, subst, String,
  List, [], ◌∷◌, ◌++◌, Option, none, some, str_eq, length, length-append, All, lookup, string_eq,
  pos, arith, Bool-cases, inl, inr,
}
use prompt_response.Usage.{Usage, get, clamp}
use prompt_response.Usage.Totals
use prompt_response.Usage.Totals.{Event, record_events, entry_of, get-record_events}
use prompt_response.Usage.Sink.{UsageEvent, BatchSink, draining}
use prompt_response.Usage.Sink.Conserved.{concat, Reach}
use prompt_response.Usage.Sink.Drained.{rounds, rounds-Reach}
use prompt_response.Usage.Sink.Offered.{offered, offered-Reach}
use prompt_response.Usage.Postgres.{Row}
use prompt_response.Usage.Postgres.Batch.{own, sum_of, input_of, output_of}
use prompt_response.Usage.Postgres.Sums.{
  input_in, output_in, requests_in, has_row, Grown, Fits, sum_of-append, own-append, flush_all,
  flush_all-Grown,
}

-- The calls of the tracker are those of the sink, with the same tenants and counts.
abbrev pub Mirrors : List Event → List UsageEvent → Type 0
Mirrors [] [] = Unit
Mirrors [] (v ∷ vs) = ⊥
Mirrors (e ∷ es) [] = ⊥
Mirrors (e ∷ es) (v ∷ vs) =
    (e.tenant ≡ v.tenant) × (e.input ≡ pos v.input) × (e.output ≡ pos v.output) × Mirrors es vs

-- The counts of an entry, which are zero without one, and whether there is one.
abbrev pub input_used : Option Usage → ℕ
input_used none = 0
input_used (some u) = u.input_tokens

abbrev pub output_used : Option Usage → ℕ
output_used none = 0
output_used (some u) = u.output_tokens

abbrev pub requests_used : Option Usage → ℕ
requests_used none = 0
requests_used (some u) = u.requests

abbrev pub has_entry : Option Usage → Bool
has_entry none = false
has_entry (some u) = true

-- The row has grown by the entry's counts, and there is one if there was one or there is an entry.
abbrev pub Added : Option Row → Option Usage → Option Row → Type 0
Added old u new =
    (input_in new ≡ input_in old + input_used u)
    × (output_in new ≡ output_in old + output_used u)
    × (requests_in new ≡ requests_in old + requests_used u)
    × (has_row new ≡ (has_row old || has_entry u))

-- The sums of these events fit a signed integer of 64 bits, as the table's columns do.
abbrev pub FitsBigint : List UsageEvent → Type 0
FitsBigint evs =
    (sum_of input_of evs < 2 ^ 63) × (sum_of output_of evs < 2 ^ 63) × (length evs < 2 ^ 63)

pub own-Mirrors :
    (tenant : String) (es : List Event) (vs : List UsageEvent)
    → Mirrors es vs
    → Mirrors (Totals.own tenant es) (own tenant vs)
own-Mirrors tenant [] [] m = tt
own-Mirrors tenant [] (v ∷ vs) m = absurd m
own-Mirrors tenant (e ∷ es) [] m = absurd m
own-Mirrors tenant (e ∷ es) (v ∷ vs) m =
    let name : str_eq e.tenant tenant ≡ str_eq v.tenant tenant = ap (λ n. str_eq n tenant) m.0 in
    elim (Bool-cases (str_eq v.tenant tenant)) [
      | inl same ↦ rw (name ∙ same, same) (m.0, m.1, m.2, own-Mirrors tenant es vs m.3)
      | inr other ↦ rw (name ∙ other, other) (own-Mirrors tenant es vs m.3)
    ]

clamp-pos : (n : ℕ) → clamp (pos n) ≡ n
unfolding clamp
clamp-pos n = ground arith

-- The sums of a tracker's calls are those of the sink's.
abbrev SameSums : List Event → List UsageEvent → Type 0
SameSums es vs =
    (Totals.sum_of Totals.input_of es ≡ sum_of input_of vs)
    × (Totals.sum_of Totals.output_of es ≡ sum_of output_of vs)
    × (length es ≡ length vs)

pub Mirrors-SameSums : (es : List Event) (vs : List UsageEvent) → Mirrors es vs → SameSums es vs
Mirrors-SameSums [] [] m = (refl, refl, refl)
Mirrors-SameSums [] (v ∷ vs) m = absurd m
Mirrors-SameSums (e ∷ es) [] m = absurd m
Mirrors-SameSums (e ∷ es) (v ∷ vs) m =
    let (i, o, n) = Mirrors-SameSums es vs m.3 in
    (
      omega (arith, ap clamp m.1 ∙ clamp-pos v.input),
      omega (arith, ap clamp m.2 ∙ clamp-pos v.output),
      omega arith,
    )

entry_of-Added :
    (es : List Event) (vs : List UsageEvent) (old new : Option Row)
    → Mirrors es vs
    → FitsBigint vs
    → Grown old vs new
    → Added old (entry_of es) new
entry_of-Added [] [] old new m fits g = (g.input, g.output, g.requests, g.present)
entry_of-Added [] (v ∷ vs) old new m fits g = absurd m
entry_of-Added (e ∷ es) [] old new m fits g = absurd m
entry_of-Added (e ∷ es) (v ∷ vs) old new m fits g =
    let (i, o, n) = Mirrors-SameSums (e ∷ es) (v ∷ vs) m in
    (omega (arith, g.input), omega (arith, g.output), omega (arith, g.requests), g.present)

-- Of parts that fit together, each fits.
pub parts-Fits :
    (tenant : String) (bs : List (List UsageEvent))
    → FitsBigint (own tenant (concat bs))
    → All (λ b. Fits (own tenant b)) bs
parts-Fits tenant [] fits = tt
parts-Fits tenant (b ∷ bs) fits =
    let mine = own tenant b in
    let rest = own tenant (concat bs) in
    let whole : own tenant (b ++ concat bs) ≡ mine ++ rest = own-append tenant b (concat bs) in
    let all : FitsBigint (mine ++ rest) = subst FitsBigint whole fits in
    let inputs = sum_of-append input_of mine rest in
    let outputs = sum_of-append output_of mine rest in
    let counts = length-append mine rest in
    (
      (omega (arith, inputs, all.0), omega (arith, outputs, all.1), omega (arith, counts, all.2)),
      parts-Fits tenant bs (
        omega (arith, inputs, all.0),
        omega (arith, outputs, all.1),
        omega (arith, counts, all.2),
      ),
    )

-- However callers and worker of a new sink ran over a table that may hold rows of earlier runs: when
-- no event was dropped, the worker has seen `stop`, a new tracker recorded the same tenants and counts
-- as were enqueued, in that order, and the tenant's sums fit a signed integer of 64 bits, then after
-- the worker's last rounds, if the database took every batch, the tenant's row has grown by exactly the
-- counts of its entry in the tracker, and there is a row exactly if there was one or there is an entry.
pub rounds-Added :
    {buffer_size batch_size : ℕ} {log : List UsageEvent} {s : BatchSink} (db : Table String Row)
    (tenant : String) (es : List Event) (r : Reach buffer_size batch_size log s)
    → s.phase ≡ draining
    → s.dropped ≡ 0
    → Mirrors es (offered r)
    → FitsBigint (own tenant (offered r))
    → Added
        (lookup tenant db)
        (get (record_events [] es) tenant)
        (lookup tenant (flush_all db (rounds (suc (length s.ch)) s).flushed))
rounds-Added {log} {s} db tenant es r stopping kept mirrors fits =
    let bs = (rounds (suc (length s.ch)) s).flushed in
    let all : concat bs ≡ offered r =
      (rounds-Reach r stopping).all_sent ∙ sym (offered-Reach r kept) in
    let fits' : FitsBigint (own tenant (concat bs)) =
      subst (λ l. FitsBigint (own tenant l)) (sym all) fits in
    let row = flush_all-Grown bs db tenant (parts-Fits tenant bs fits') in
    subst (λ u. Added (lookup tenant db) u (lookup tenant (flush_all db bs)))
      (sym (get-record_events es tenant))
      (entry_of-Added (Totals.own tenant es) (own tenant (concat bs)) (lookup tenant db) _
        (own-Mirrors tenant es (concat bs) (subst (Mirrors es) (sym all) mirrors)) fits' row)
