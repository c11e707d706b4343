-- ===== src/Audit.antt =====
-- internal/audit: the ring buffer of routing decisions. The mutex makes each call one step.
pub mod Slots
pub mod Newest
use prompt_response.Common.{
  ℕ, zero, suc, ◌+◌, ◌-◌, ◌%◌, Bool, String, List, [], ◌∷◌, Option, none, some, ltb, ◌==◌,
  if◌then◌else◌, ◌>>=◌, length, get_or, set, replicate, Table,
}

-- record.go, `Record`. Times are nanoseconds.
pub record Record (N : Type 0) : Type 0 where
  pub timestamp : ℕ
  pub request_id : String
  pub tenant : String
  pub tier : String
  pub class_score : N
  pub signals : Table String N
  pub replica_id : String
  pub replica_tier : String
  pub cache_hit : Bool
  pub attempts : ℕ
  pub ttft_ms : ℕ
  pub total_ms : ℕ
  pub output_tokens : ℕ
  pub status_code : ℕ
  pub reason : String

-- trail.go, `Trail`, for any type of records; `blank` is that type's zero value.
pub record Trail (R : Type 0) : Type 0 where
  pub records : List R
  pub head : ℕ
  pub count : ℕ

-- The index that `Recent` reads in round `i`: `head - 1 - i + len`, reordered so that it is not
-- negative on the way.
unfoldable pub slot : ℕ → ℕ → ℕ → ℕ
slot head len i = (head + len - 1 - i) % len

module _ {R : Type 0} (blank : R) where
  unfoldable pub new_trail : ℕ → Trail R
  new_trail capacity = record { records = replicate capacity blank; head = 0; count = 0 }

  -- A write past the end of `records` panics.
  unfoldable pub record_in : Trail R → R → Option (Trail R)
  record_in t r =
      if ltb t.head (length t.records)
      then some (record {
        records = set t.records t.head r;
        head = (t.head + 1) % length t.records;
        count = if ltb t.count (length t.records) then t.count + 1 else t.count;
      })
      else none

  -- The rounds of the loop from `i` on.
  unfoldable pub collect : Trail R → ℕ → ℕ → List R
  collect t i zero = []
  collect t i (suc rounds) =
      get_or t.records (slot t.head (length t.records) i) blank ∷ collect t (i + 1) rounds

  unfoldable pub recent : Trail R → ℕ → List R
  unfolding collect
  recent t n = collect t 0 (if ltb t.count n then t.count else n)

  -- The records of a run of the program, oldest first.
  unfoldable pub record_all : Trail R → List R → Option (Trail R)
  record_all t [] = some t
  record_all t (r ∷ rs) = record_in t r >>= λ t'. record_all t' rs
