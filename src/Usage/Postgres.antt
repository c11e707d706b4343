-- ===== src/Usage/Postgres.antt =====
-- internal/usage/postgres.go: a batch is summed up for each tenant, and one row for each is added to
-- the table. The sums in memory are int64 and wrap; what the database answers is an argument, and the
-- range error of its bigint columns is one of these answers. Times are nanoseconds.
pub mod Batch
pub mod Sums
use prompt_response.Common.{
  ℕ, ◌+◌, ◌%◌, ◌^◌, String, List, [], ◌∷◌, Option, none, some, if◌then◌else◌, ltb, Table, lookup,
  insert, string_eq, Bool, true, false, not, ◌⊎◌, inl, inr,
}
use prompt_response.Usage.{i64_mod}
use prompt_response.Usage.Sink.{UsageEvent, BatchSink, new_batch_sink}

-- `agg`.
pub record Agg : Type 0 where
  pub input : ℕ
  pub output : ℕ
  pub count : ℕ
  pub first : ℕ
  pub last : ℕ

unfoldable pub agg_or_new : UsageEvent → Option Agg → Agg
agg_or_new ev none = record { input = 0; output = 0; count = 0; first = ev.at; last = ev.at }
agg_or_new ev (some a) = a

unfoldable pub add_event : Agg → UsageEvent → Agg
add_event a ev = record {
  input = (a.input + ev.input) % i64_mod;
  output = (a.output + ev.output) % i64_mod;
  count = (a.count + 1) % i64_mod;
  first = if ltb ev.at a.first then ev.at else a.first;
  last = if ltb a.last ev.at then ev.at else a.last;
}

-- The loop over the events.
unfoldable pub aggregate : List UsageEvent → Table String Agg → Table String Agg
aggregate [] m = m
aggregate (ev ∷ evs) m =
    aggregate evs (insert ev.tenant (add_event (agg_or_new ev (lookup ev.tenant m)) ev) m)

-- A row of `usage_totals`, without its key.
pub record Row : Type 0 where
  pub input_tokens : ℕ
  pub output_tokens : ℕ
  pub requests : ℕ
  pub first_seen : ℕ
  pub last_seen : ℕ

-- `upsertSQL`: the values are inserted, or on a conflict added to the row, whose `first_seen` stays.
unfoldable pub merge_row : Agg → Option Row → Row
merge_row a none = record {
  input_tokens = a.input;
  output_tokens = a.output;
  requests = a.count;
  first_seen = a.first;
  last_seen = a.last;
}
merge_row a (some r) = record {
  input_tokens = r.input_tokens + a.input;
  output_tokens = r.output_tokens + a.output;
  requests = r.requests + a.count;
  first_seen = r.first_seen;
  last_seen = if ltb r.last_seen a.last then a.last else r.last_seen;
}

-- The rows in the order of the map's loop; each tenant has one, so the order does not matter.
unfoldable pub upsert_rows : Table String Agg → Table String Row → Table String Row
upsert_rows [] db = db
upsert_rows ((tenant, a) ∷ rows) db =
    upsert_rows rows (insert tenant (merge_row a (lookup tenant db)) db)

-- `upsertUsage`, when the database takes every row.
unfoldable pub upsert_usage : Table String Row → List UsageEvent → Table String Row
upsert_usage db events = upsert_rows (aggregate events []) db

-- The same with the database's answer: the rows are sent as one transaction, of which an error leaves
-- nothing.
unfoldable pub try_upsert : Bool → Table String Row → List UsageEvent → Table String Row
try_upsert ok db events = if ok then upsert_usage db events else db

pub data SinkError : Type 0 where
  connecting pinging creating : SinkError

-- `NewPostgresSink`, by whether the pool opens, answers, and makes the table: the sink or its error,
-- and whether a pool is left open.
unfoldable pub new_postgres_sink : Bool → Bool → Bool → ℕ → ℕ → (SinkError ⊎ BatchSink) × Bool
new_postgres_sink opens answers makes buffer_size batch_size =
    if not opens
    then (inl connecting, false)
    else if not answers
    then (inl pinging, false)
    else if not makes
    then (inl creating, false)
    else (inr (new_batch_sink buffer_size batch_size), true)
