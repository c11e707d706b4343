-- ===== src/Store/Redis.antt =====
-- internal/store/redis.go: the routing store over Redis. The client and the decimal numbers are
-- arguments. A call's timeout is one of its errors. Redis is taken to read the same clock.
pub mod Keys
pub mod Lifetime
use prompt_response.Common.{
  ℕ, zero, suc, ◌+◌, ◌*◌, ◌/◌, ◌%◌, ◌^◌, String, List, [], ◌∷◌, ◌++◌, Option, none, some, codes,
  hex_digit, Table, lookup_or, string_eq,
}
use prompt_response.Types.{ConvState}
use prompt_response.Store.{Store}

-- The calls of the client, with the time: `Get` and `HGetAll`, where `none` is an error or a key that
-- is missing; `Set`; and the pipeline of `HSet` and `Expire`. An error of a write is logged only.
pub record Client (R : Type 0) : Type 0 where
  pub get : R → List ℕ → ℕ → Option String
  pub set : R → List ℕ → String → ℕ → ℕ → R
  pub hget_all : R → List ℕ → ℕ → Option (Table String String)
  pub hset_expire : R → List ℕ → Table String String → ℕ → ℕ → R

-- `%0*x`: the last digits of a number, in base sixteen.
unfoldable pub format_x : ℕ → ℕ → List ℕ
format_x zero n = []
format_x (suc width) n = format_x width (n / 16) ++ (hex_digit (n % 16) ∷ [])

-- For a number of 64 bits.
unfoldable pub affinity_key : ℕ → List ℕ
affinity_key hash = codes "pfx:" ++ format_x 16 hash

unfoldable pub conv_key : ℕ → List ℕ
conv_key id = codes "conv:" ++ format_x 16 id

abbrev pub second : ℕ
second = 10 ^ 9

module _ {R : Type 0} (client : Client R) (decimal : ℕ → String) (parse : String → Option ℕ) where
  unfoldable pub get_affinity : R → ℕ → ℕ → Option String
  get_affinity r hash now = client.get r (affinity_key hash) now

  unfoldable pub set_affinity : R → ℕ → String → ℕ → ℕ → R
  set_affinity r hash replica_id ttl now = client.set r (affinity_key hash) replica_id ttl now

  -- A number that cannot be read is zero, and a time that cannot be read is the zero time.
  number_or_zero : Option ℕ → ℕ
  number_or_zero none = 0
  number_or_zero (some n) = n

  read_fields : Option (Table String String) → Option ConvState
  unfolding number_or_zero
  read_fields none = none
  read_fields (some []) = none
  read_fields (some (f ∷ fs)) =
      let fields = f ∷ fs in
      some (record {
        tier = lookup_or "" "tier" fields;
        model = lookup_or "" "model" fields;
        bucket = lookup_or "" "bucket" fields;
        turns = number_or_zero (parse (lookup_or "" "turns" fields));
        updated_at = number_or_zero (parse (lookup_or "" "updated_at" fields)) * second;
      })

  unfoldable pub get_conversation : R → ℕ → ℕ → Option ConvState
  unfolding read_fields
  get_conversation r conv_id now = read_fields (client.hget_all r (conv_key conv_id) now)

  -- The fields that are written; `Unix` is in seconds.
  unfoldable pub fields_of : ConvState → Table String String
  fields_of state =
      ("tier", state.tier)
      ∷ ("model", state.model)
      ∷ ("bucket", state.bucket)
      ∷ ("turns", decimal state.turns)
      ∷ ("updated_at", decimal (state.updated_at / second))
      ∷ []

  unfoldable pub set_conversation : R → ℕ → ConvState → ℕ → ℕ → R
  set_conversation r conv_id state ttl now =
      client.hset_expire r (conv_key conv_id) (fields_of state) ttl now

  -- `RedisStore`.
  abbrev pub redis_store : Store R
  redis_store = record {
    get_affinity = get_affinity;
    set_affinity = set_affinity;
    get_conversation = get_conversation;
    set_conversation = set_conversation;
  }
