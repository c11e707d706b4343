-- ===== src/Usage/Postgres/Sums.antt =====
-- The table's sums do not depend on how the events were cut into batches.

use prompt_response.Common.{
  Bool, true, false, ◌||◌, ℕ, ◌+◌, ◌<◌, ◌≡◌, refl, sym, ap, ◌∙◌, subst, String, List, [], ◌∷◌, ◌++◌,
  Option, none, some, if◌then◌else◌, ltb, str_eq, str_eq_iff, length, length-append, All, Table,
  lookup, insert, lookup-insert, string_eq, arith, Bool-cases, inl, inr,
}
use prompt_response.Usage.{i64_mod}
use prompt_response.Usage.Sink.{UsageEvent}
use prompt_response.Usage.Sink.Conserved.{concat}
use prompt_response.Usage.Postgres.Batch.{
  own, sum_of, input_of, output_of, latest, Aggregated, Keyed, aggregate-Keyed,
  aggregate-Aggregated,
}
use prompt_response.Usage.Postgres.{Agg, aggregate, Row, merge_row, upsert_rows, upsert_usage}

-- The counts of a row, which are zero without a row, and whether there is one.
abbrev pub input_in : Option Row → ℕ
input_in none = 0
input_in (some r) = r.input_tokens

abbrev pub output_in : Option Row → ℕ
output_in none = 0
output_in (some r) = r.output_tokens

abbrev pub requests_in : Option Row → ℕ
requests_in none = 0
requests_in (some r) = r.requests

abbrev pub last_in : Option Row → ℕ
last_in none = 0
last_in (some r) = r.last_seen

abbrev pub has_row : Option Row → Bool
has_row none = false
has_row (some r) = true

abbrev pub has_events : List UsageEvent → Bool
has_events [] = false
has_events (ev ∷ evs) = true

-- The row has these events more than it had before.
pub record Grown (old : Option Row) (evs : List UsageEvent) (new : Option Row) : Type 0 where
  pub input : input_in new ≡ input_in old + sum_of input_of evs
  pub output : output_in new ≡ output_in old + sum_of output_of evs
  pub requests : requests_in new ≡ requests_in old + length evs
  pub last : last_in new ≡ (if ltb (last_in old) (latest evs) then latest evs else last_in old)
  pub present : has_row new ≡ (has_row old || has_events evs)

-- The sums of these events fit 64 bits.
abbrev pub Fits : List UsageEvent → Type 0
Fits evs =
    (sum_of input_of evs < i64_mod) × (sum_of output_of evs < i64_mod) × (length evs < i64_mod)

pub sum_of-append :
    (f : UsageEvent → ℕ) (xs ys : List UsageEvent) → sum_of f (xs ++ ys) ≡ sum_of f xs + sum_of f ys
sum_of-append f [] ys = omega arith
sum_of-append f (x ∷ xs) ys = omega (arith, sum_of-append f xs ys)

latest-append :
    (xs ys : List UsageEvent)
    → latest (xs ++ ys) ≡ (if ltb (latest xs) (latest ys) then latest ys else latest xs)
latest-append [] ys = ground arith
latest-append (x ∷ xs) ys = ground (arith, latest-append xs ys)

has_events-append :
    (xs ys : List UsageEvent) → has_events (xs ++ ys) ≡ (has_events xs || has_events ys)
has_events-append [] ys = refl
has_events-append (x ∷ xs) ys = refl

pub own-append : (k : String) (xs ys : List UsageEvent) → own k (xs ++ ys) ≡ own k xs ++ own k ys
own-append k [] ys = refl
own-append k (x ∷ xs) ys = elim (Bool-cases (str_eq x.tenant k)) [
  | inl same ↦ rw same (ap (λ t. x ∷ t) (own-append k xs ys))
  | inr other ↦ rw other (own-append k xs ys)
]

abbrev merged : Option Agg → Option Row → Option Row
merged none r = r
merged (some a) r = some (merge_row a r)

upsert_rows-lookup :
    (rows : Table String Agg) (db : Table String Row) (k : String)
    → Keyed rows
    → lookup k (upsert_rows rows db) ≡ merged (lookup k rows) (lookup k db)
unfolding upsert_rows lookup
upsert_rows-lookup [] db k h = refl
upsert_rows-lookup ((j, a) ∷ rows) db k h =
    let row = merge_row a (lookup j db) in
    upsert_rows-lookup rows (insert j row db) k h.1
    ∙ ap (merged (lookup k rows)) (lookup-insert j k row db)
    ∙ elim (Bool-cases (str_eq j k)) [
      | inl same ↦
          let e = (str_eq_iff j k).0 same in
          rw same (
            ap (λ x. merged x (some row)) (subst (λ t. lookup t rows ≡ none) e h.0)
            ∙ ap (λ t. some (merge_row a (lookup t db))) e)
      | inr other ↦ rw other refl
    ]

nothing-Grown : (r : Option Row) → Grown r [] r
nothing-Grown none = record {
  input = refl;
  output = refl;
  requests = refl;
  last = ground arith;
  present = refl;
}
nothing-Grown (some r) = record {
  input = omega arith;
  output = omega arith;
  requests = omega arith;
  last = ground arith;
  present = refl;
}

append-Grown :
    (old mid new : Option Row) (xs ys : List UsageEvent)
    → Grown old xs mid
    → Grown mid ys new
    → Grown old (xs ++ ys) new
append-Grown old mid new xs ys g h = record {
  input = omega (arith, g.input, h.input, sum_of-append input_of xs ys);
  output = omega (arith, g.output, h.output, sum_of-append output_of xs ys);
  requests = omega (arith, g.requests, h.requests, length-append xs ys);
  last = ground (arith, g.last, h.last, latest-append xs ys);
  present = ground (arith, g.present, h.present, has_events-append xs ys);
}

merged-Grown :
    (evs : List UsageEvent) (x : Option Agg) (r : Option Row)
    → Fits evs
    → Aggregated evs x
    → Grown r evs (merged x r)
unfolding merge_row
merged-Grown [] x r fits a = rw a (nothing-Grown r)
merged-Grown (ev ∷ evs) none r fits a = absurd a
merged-Grown (ev ∷ evs) (some g) none fits a = record {
  input = omega (arith, a, fits);
  output = omega (arith, a, fits);
  requests = omega (arith, a, fits);
  last = ground (arith, a);
  present = refl;
}
merged-Grown (ev ∷ evs) (some g) (some r) fits a = record {
  input = omega (arith, a, fits);
  output = omega (arith, a, fits);
  requests = omega (arith, a, fits);
  last = ground (arith, a);
  present = refl;
}

-- A batch is added to the table.
upsert_usage-Grown :
    (db : Table String Row) (k : String) (evs : List UsageEvent)
    → Fits (own k evs)
    → Grown (lookup k db) (own k evs) (lookup k (upsert_usage db evs))
unfolding upsert_usage
upsert_usage-Grown db k evs fits =
    subst (Grown (lookup k db) (own k evs))
      (sym (upsert_rows-lookup (aggregate evs []) db k (aggregate-Keyed evs [] tt)))
      (merged-Grown (own k evs) (lookup k (aggregate evs [])) (lookup k db) fits
        (aggregate-Aggregated k evs))

-- The batches that are flushed, one after the other.
unfoldable pub flush_all : Table String Row → List (List UsageEvent) → Table String Row
flush_all db [] = db
flush_all db (b ∷ bs) = flush_all (upsert_usage db b) bs

-- However the events are cut into batches, and whatever the table held before, if a tenant's sums in
-- each batch fit 64 bits, then the tenant's row has grown by the sums of its counts, their number and
-- the time of the latest event, over all batches; there is one if there was one or there is an event.
pub flush_all-Grown :
    (bs : List (List UsageEvent)) (db : Table String Row) (k : String)
    → All (λ b. Fits (own k b)) bs
    → Grown (lookup k db) (own k (concat bs)) (lookup k (flush_all db bs))
unfolding flush_all
flush_all-Grown [] db k fits = nothing-Grown (lookup k db)
flush_all-Grown (b ∷ bs) db k fits =
    subst (λ evs. Grown (lookup k db) evs (lookup k (flush_all (upsert_usage db b) bs)))
      (sym (own-append k b (concat bs)))
      (append-Grown (lookup k db) (lookup k (upsert_usage db b)) _ (own k b) (own k (concat bs))
        (upsert_usage-Grown db k b fits.0) (flush_all-Grown bs (upsert_usage db b) k fits.1))
