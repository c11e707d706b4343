-- ===== src/Store.antt =====
-- internal/store: the interface of the routing store, and memory.go. The clock's reading is an
-- argument; times and lifetimes are nanoseconds. A hash is a 64-bit number, used only as a key.
pub mod Expiry
pub mod Redis
use prompt_response.Common.{
  ℕ, ◌+◌, String, Option, none, some, ltb, if◌then◌else◌, Table, lookup, insert, nat_eq, [],
}
use prompt_response.Types.{ConvState}

-- store.go, `Store`.
pub record Store (S : Type 0) : Type 0 where
  pub get_affinity : S → ℕ → ℕ → Option String
  pub set_affinity : S → ℕ → String → ℕ → ℕ → S
  pub get_conversation : S → ℕ → ℕ → Option ConvState
  pub set_conversation : S → ℕ → ConvState → ℕ → ℕ → S

-- `entry` and `convEntry`: a value with the last time at which it is read.
pub record Entry (V : Type 0) : Type 0 where
  pub value : V
  pub expires_at : ℕ

pub record MemoryStore : Type 0 where
  pub data_ : Table ℕ (Entry String)
  pub conv : Table ℕ (Entry ConvState)

unfoldable pub new_memory : MemoryStore
new_memory = record { data_ = []; conv = [] }

unfoldable pub live : {V : Type 0} → ℕ → Option (Entry V) → Option V
live now none = none
live now (some e) = if ltb e.expires_at now then none else some e.value

unfoldable pub get_affinity : MemoryStore → ℕ → ℕ → Option String
unfolding live
get_affinity m hash now = live now (lookup hash m.data_)

unfoldable pub set_affinity : MemoryStore → ℕ → String → ℕ → ℕ → MemoryStore
set_affinity m hash replica_id ttl now = record m {
  data_ = insert hash (record { value = replica_id; expires_at = now + ttl }) m.data_;
}

unfoldable pub get_conversation : MemoryStore → ℕ → ℕ → Option ConvState
unfolding live
get_conversation m conv_id now = live now (lookup conv_id m.conv)

unfoldable pub set_conversation : MemoryStore → ℕ → ConvState → ℕ → ℕ → MemoryStore
set_conversation m conv_id state ttl now = record m {
  conv = insert conv_id (record { value = state; expires_at = now + ttl }) m.conv;
}

abbrev pub memory_store : Store MemoryStore
memory_store = record {
  get_affinity = get_affinity;
  set_affinity = set_affinity;
  get_conversation = get_conversation;
  set_conversation = set_conversation;
}
