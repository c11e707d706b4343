-- ===== src/Usage/Outages.antt =====
-- internal/usage: the table when the queue drops events and the database refuses batches.
use prompt_response.Common.{
  true, ◌||◌, ℕ, ◌+◌, ◌≤◌, ◌≡◌, refl, sym, ap, ◌∙◌, subst, Bool, String, List, [], ◌∷◌, ◌++◌,
  Option, if◌then◌else◌, length, Table, lookup, string_eq, arith, Bool-cases, inl, inr,
}
use prompt_response.Usage.{Usage, get}
use prompt_response.Usage.Totals
use prompt_response.Usage.Totals.{Event, record_events, entry_of, get-record_events}
use prompt_response.Usage.Sink.{
  UsageEvent, BatchSink, Step, has_room, enqueued, received, ticked, closed, saw_stop, drained,
}
use prompt_response.Usage.Sink.Conserved.{
  concat, Reach, start, then_step, accepted_in, contents-Reach,
}
use prompt_response.Usage.Sink.Offered.{offered, offered_in}
use prompt_response.Usage.Postgres.{Row, upsert_usage, try_upsert}
use prompt_response.Usage.Postgres.Batch.{own, sum_of, input_of, output_of}
use prompt_response.Usage.Postgres.Sums.{
  input_in, output_in, requests_in, has_row, Grown, sum_of-append, own-append, flush_all,
  flush_all-Grown,
}
use prompt_response.Usage.Mirror.{
  input_used, output_used, requests_used, has_entry, Mirrors, own-Mirrors, Mirrors-SameSums,
  FitsBigint, parts-Fits,
}

-- The table after the batches, of which the database takes those that `ok` says, by their number.
unfoldable pub flush_each :
    (ℕ → Bool) → ℕ → Table String Row → List (List UsageEvent) → Table String Row
flush_each ok n db [] = db
flush_each ok n db (b ∷ bs) = flush_each ok (n + 1) (try_upsert (ok n) db b) bs

-- The row has grown by at most the entry's counts, and there is none without an earlier one or an
-- entry.
abbrev pub Within : Option Row → Option Usage → Option Row → Type 0
Within old u new =
    (input_in new ≤ input_in old + input_used u)
    × (output_in new ≤ output_in old + output_used u)
    × (requests_in new ≤ requests_in old + requests_used u)
    × (has_row new ≡ true → (has_row old || has_entry u) ≡ true)

abbrev taken : (ℕ → Bool) → ℕ → List (List UsageEvent) → List (List UsageEvent)
taken ok n [] = []
taken ok n (b ∷ bs) = if ok n then b ∷ taken ok (n + 1) bs else taken ok (n + 1) bs

flush_each-taken :
    (ok : ℕ → Bool) (n : ℕ) (db : Table String Row) (bs : List (List UsageEvent))
    → flush_each ok n db bs ≡ flush_all db (taken ok n bs)
unfolding flush_each flush_all try_upsert
flush_each-taken ok n db [] = refl
flush_each-taken ok n db (b ∷ bs) = elim (Bool-cases (ok n)) [
  | inl took ↦ rw took (flush_each-taken ok (n + 1) (upsert_usage db b) bs)
  | inr refused ↦ rw refused (flush_each-taken ok (n + 1) db bs)
]

-- What a tenant's events add up to.
abbrev weight : (UsageEvent → ℕ) → String → List UsageEvent → ℕ
weight f tenant evs = sum_of f (own tenant evs)

abbrev one : UsageEvent → ℕ
one ev = 1

sum_of-one : (evs : List UsageEvent) → sum_of one evs ≡ length evs
sum_of-one [] = refl
sum_of-one (ev ∷ evs) = omega (arith, sum_of-one evs)

module _ (f : UsageEvent → ℕ) (tenant : String) where
  weight-append :
      (xs ys : List UsageEvent)
      → weight f tenant (xs ++ ys) ≡ weight f tenant xs + weight f tenant ys
  weight-append xs ys =
      ap (sum_of f) (own-append tenant xs ys) ∙ sum_of-append f (own tenant xs) (own tenant ys)

  weight-taken :
      (ok : ℕ → Bool) (n : ℕ) (bs : List (List UsageEvent))
      → weight f tenant (concat (taken ok n bs)) ≤ weight f tenant (concat bs)
  weight-taken ok n [] = omega arith
  weight-taken ok n (b ∷ bs) =
      let rest = weight-taken ok (n + 1) bs in
      let all = weight-append b (concat bs) in
      elim (Bool-cases (ok n)) [
        | inl took ↦
            rw took (omega (arith, rest, all, weight-append b (concat (taken ok (n + 1) bs))))
        | inr refused ↦ rw refused (omega (arith, rest, all))
      ]

  weight-accepted :
      {s t : BatchSink} (st : Step s t)
      → weight f tenant (accepted_in st) ≤ weight f tenant (offered_in st)
  weight-accepted {s} (enqueued ev) = elim (Bool-cases (has_room s)) [
    | inl room ↦ rw room (omega arith)
    | inr full ↦ rw full (omega arith)
  ]
  weight-accepted (received ev rest p e) = omega arith
  weight-accepted (ticked p) = omega arith
  weight-accepted (closed p) = omega arith
  weight-accepted (saw_stop p q) = omega arith
  weight-accepted (drained p) = omega arith

  weight-offered :
      {buffer_size batch_size : ℕ} {log : List UsageEvent} {s : BatchSink}
      (r : Reach buffer_size batch_size log s)
      → weight f tenant log ≤ weight f tenant (offered r)
  weight-offered start = omega arith
  weight-offered (then_step {log} r st) = omega (
    arith,
    weight-offered r,
    weight-accepted st,
    weight-append log (accepted_in st),
    weight-append (offered r) (offered_in st),
  )

  weight-flushed :
      {buffer_size batch_size : ℕ} {log : List UsageEvent} {s : BatchSink} (ok : ℕ → Bool)
      (r : Reach buffer_size batch_size log s)
      → weight f tenant (concat (taken ok 0 s.flushed)) ≤ weight f tenant (offered r)
  weight-flushed {log} {s} ok r = omega (
    arith,
    weight-taken ok 0 s.flushed,
    weight-append (concat s.flushed) (s.batch ++ s.ch),
    ap (weight f tenant) (contents-Reach r),
    weight-offered r,
  )

-- Fewer events in all sums.
abbrev Below : List UsageEvent → List UsageEvent → Type 0
Below ws vs =
    (sum_of input_of ws ≤ sum_of input_of vs)
    × (sum_of output_of ws ≤ sum_of output_of vs)
    × (length ws ≤ length vs)

entry_of-Within :
    (es : List Event) (vs ws : List UsageEvent) (old new : Option Row)
    → Mirrors es vs
    → FitsBigint vs
    → Below ws vs
    → Grown old ws new
    → Within old (entry_of es) new
entry_of-Within [] [] [] old new m fits less g = (
  omega (arith, g.input),
  omega (arith, g.output),
  omega (arith, g.requests),
  λ e. sym g.present ∙ e,
)
entry_of-Within [] [] (w ∷ ws) old new m fits less g = absurd (omega (arith, less.2))
entry_of-Within [] (v ∷ vs) ws old new m fits less g = absurd m
entry_of-Within (e ∷ es) [] ws old new m fits less g = absurd m
entry_of-Within (e ∷ es) (v ∷ vs) ws old new m fits less g =
    let (i, o, n) = Mirrors-SameSums (e ∷ es) (v ∷ vs) m in
    (
      omega (arith, g.input, less),
      omega (arith, g.output, less),
      omega (arith, g.requests, less),
      λ h. ground arith,
    )

-- At any time, however callers and worker of a new sink ran over a table that may hold rows of earlier
-- runs, whatever events the full queue dropped and whatever batches the database refused: if a new
-- tracker recorded the same tenants and counts as the sink was offered, in that order, and the tenant's
-- sums fit a signed integer of 64 bits, then the tenant's row has grown by at most the counts of its
-- entry in the tracker, and there is no row without an earlier one or an entry.
pub flush_each-Within :
    {buffer_size batch_size : ℕ} {log : List UsageEvent} {s : BatchSink} (db : Table String Row)
    (tenant : String) (ok : ℕ → Bool) (es : List Event) (r : Reach buffer_size batch_size log s)
    → Mirrors es (offered r)
    → FitsBigint (own tenant (offered r))
    → Within
        (lookup tenant db)
        (get (record_events [] es) tenant)
        (lookup tenant (flush_each ok 0 db s.flushed))
flush_each-Within {s} db tenant ok es r mirrors fits =
    let bs = taken ok 0 s.flushed in
    let mine = own tenant (concat bs) in
    let all = own tenant (offered r) in
    let less : Below mine all = (
      weight-flushed input_of tenant ok r,
      weight-flushed output_of tenant ok r,
      omega (arith, weight-flushed one tenant ok r, sum_of-one mine, sum_of-one all),
    ) in
    let fits' : FitsBigint mine = (
      omega (arith, less.0, fits.0),
      omega (arith, less.1, fits.1),
      omega (arith, less.2, fits.2),
    ) in
    subst (λ u. Within (lookup tenant db) u (lookup tenant (flush_each ok 0 db s.flushed)))
      (sym (get-record_events es tenant))
      (subst (λ t. Within (lookup tenant db) (entry_of (Totals.own tenant es)) (lookup tenant t))
        (sym (flush_each-taken ok 0 db s.flushed))
        (entry_of-Within (Totals.own tenant es) all mine (lookup tenant db) _
          (own-Mirrors tenant es (offered r) mirrors) fits less
          (flush_all-Grown bs db tenant (parts-Fits tenant bs fits'))))
