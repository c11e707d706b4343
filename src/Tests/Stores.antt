-- ===== src/Tests/Stores.antt =====
-- The handlers around the proxy, and a Redis that works.
use prompt_response.Common.{
  ℕ, zero, suc, ◌*◌, ◌+◌, ◌≡◌, ◌≢◌, ◌⊎◌, refl, ap, ◌∙◌, Bool, true, false, String, List, [], ◌∷◌,
  Option, none, some, if◌then◌else◌, leb, ◌==◌, codes, Table, string_eq, arith, list_eq,
  list_eq_iff, length, ◌≤◌, ◌-◌, Bool-cases, inl, inr,
}
use prompt_response.Types.{ConvState}
use prompt_response.Store.Redis.{Client, get_affinity, get_conversation, set_conversation, second}
use prompt_response.Store.Redis.Lifetime.{Works, in_seconds, IsApart, get-set_conversation}
use prompt_response.Auth.{KeyEntry, pass, pass_as, key_required, invalid_key, new_keystore}
use prompt_response.Auth.Keys.{verdict_of}
use prompt_response.RateLimit
use prompt_response.Router.{Request, unauthorized, too_many, handled, Server, request_id, serve}
use prompt_response.Router.Quota.{Arrival, admitted, serve_each, serve_each_bounded}
use prompt_response.Router.Order.{auth_request, Limited, serve-new_keystore}

-- What stands at each key at each time.
record Redis : Type 0 where
  texts : List ℕ → ℕ → Option String
  hashes : List ℕ → ℕ → Option (Table String String)

abbrev write : {V : Type 0} → List ℕ → V → V → ℕ → (List ℕ → ℕ → V) → List ℕ → ℕ → V
write k v missing until old j now =
    if list_eq k j then if leb now until then v else missing else old j now

abbrev redis : Client Redis
redis = record {
  get = λ r k now. r.texts k now;
  set = λ r k v ttl at. record r { texts = write k (some v) none (at + ttl) r.texts };
  hget_all = λ r k now. r.hashes k now;
  hset_expire = λ r k fields ttl at. record {
    texts = write k none none 0 r.texts;
    hashes = write k (some fields) (some []) (at + ttl) r.hashes;
  };
}

write-same :
    {V : Type 0} (k : List ℕ) (v missing : V) (until now : ℕ) (old : List ℕ → ℕ → V)
    → write k v missing until old k now ≡ (if leb now until then v else missing)
write-same k v missing until now old = rw ((list_eq_iff k k).1 refl) refl

write-other :
    {V : Type 0} (k j : List ℕ) (v missing : V) (until now : ℕ) (old : List ℕ → ℕ → V)
    → k ≢ j
    → write k v missing until old j now ≡ old j now
write-other k j v missing until now old far = elim (Bool-cases (list_eq k j)) [
  | inl same ↦ absurd (far ((list_eq_iff k j).0 same))
  | inr other ↦ rw other refl
]

none-either : {V : Type 0} (b : Bool) → ◌≡◌ {A = Option V} (if b then none else none) none
none-either true = refl
none-either false = refl

redis-Works : Works redis
redis-Works = record {
  set_same = λ r k v ttl at now positive. write-same k (some v) none (at + ttl) now r.texts;
  set_other =
      λ r k j v ttl at now far. (write-other k j (some v) none (at + ttl) now r.texts far, refl);
  hset_live = λ r k fields n at now apart positive live. (
    fields,
    write-same k (some fields) (some []) (at + n * second) now r.hashes ∙ rw live refl,
    λ f v e. e,
  );
  hset_expired = λ r k fields n at now apart positive over.
      write-same k (some fields) (some []) (at + n * second) now r.hashes ∙ rw over refl;
  hset_same =
      λ r k fields n at now apart. write-same k none none 0 now r.texts ∙ none-either (leb now 0);
  hset_other = λ r k j fields ttl at now far. (
    write-other k j none none 0 now r.texts far,
    write-other k j (some fields) (some []) (at + ttl) now r.hashes far,
  );
}

-- A number as that many strokes.
strokes : ℕ → String
strokes zero = ""
strokes (suc n) = String.◌∷◌ "x" (strokes n)

abbrev count : String → Option ℕ
count text = some (length (codes text))

count-strokes : (n : ℕ) → count (strokes n) ≡ some n
unfolding strokes
count-strokes zero = refl
count-strokes (suc n) = ap (λ o. elim o [ none ↦ none | some k ↦ some (suc k) ]) (count-strokes n)

abbrev nothing : Redis
nothing = record { texts = λ k now. none; hashes = λ k now. some [] }

abbrev state : ConvState
state = record { tier = "large"; model = "m"; bucket = "b2"; turns = 3; updated_at = 7500000000 }

abbrev a_minute : ℕ
a_minute = 60 * second

get-set_conversation_example :
    let r' = set_conversation redis strokes count nothing 42 state (60 * second) 10 in
    (get_conversation redis strokes count r' 42 20 ≡ (
      if 42 == 42
      then if leb 20 (10 + 60 * second) then some (in_seconds state) else none
      else get_conversation redis strokes count nothing 42 20))
    × (get_affinity redis strokes count r' 42 20 ≡ get_affinity redis strokes count nothing 42 20)
    × IsApart redis strokes count redis-Works count-strokes r'
get-set_conversation_example =
    get-set_conversation redis strokes count redis-Works count-strokes nothing 42 42 state 60 10 20
      (λ id now. refl) (omega arith) (omega arith) (omega arith)

abbrev entries : List KeyEntry
entries = record { key = codes "k1"; tenant = "acme" } ∷ []

abbrev limiter : RateLimit.Registry
limiter = record { buckets = []; cap = 2 * RateLimit.unit; rate = 60000 }

-- A proxy that counts its calls and answers with the tenant.
abbrev proxy : ℕ → List ℕ → Option String → Option String × ℕ
proxy n id tenant = (tenant, suc n)

abbrev server : Server ℕ
server = record { limiter = some limiter; fallback_counter = 0; proxy = 0 }

abbrev chat : Request
chat = record {
  path = "/v1/chat/completions";
  authorization = codes "Bearer k1";
  x_api_key = [];
  remote_addr = "10.0.0.1:99";
  id = codes "id1";
}

abbrev split : String → Option String
split address = none

abbrev digits : ℕ → List ℕ
digits n = []

serve-new_keystore_example :
    let v = verdict_of entries (auth_request chat) in
    let id = (request_id digits none 0 chat.id).0 in
    let (reply, s') = serve split digits proxy (some (new_keystore entries)) server none chat 5 in
    (v ≡ pass
      → (reply ≡ handled (proxy 0 id none).0)
        × (s'.limiter ≡ some limiter)
        × (s'.proxy ≡ (proxy 0 id none).1))
    × ((v ≡ key_required) ⊎ (v ≡ invalid_key)
        → (reply ≡ unauthorized v) × (s'.limiter ≡ some limiter) × (s'.proxy ≡ server.proxy))
    × ((tenant : String)
        → v ≡ pass_as tenant
        → (reg' : RateLimit.Registry) × (s'.limiter ≡ some reg')
          × Limited split digits proxy limiter tenant 5 reg'
          × ((RateLimit.allow (RateLimit.get_or_create limiter tenant 5) 5).0 ≡ true
              → (reply ≡ handled (proxy 0 id (some tenant)).0)
                × (s'.proxy ≡ (proxy 0 id (some tenant)).1))
          × ((RateLimit.allow (RateLimit.get_or_create limiter tenant 5) 5).0 ≡ false
              → (shown : ℕ) × (left : ℕ) × (wait : ℕ) × (reply ≡ too_many shown left wait)
                × (s'.proxy ≡ 0)))
serve-new_keystore_example =
    serve-new_keystore split digits proxy entries server limiter none chat 5 refl

-- Two requests of the tenant at once, one without a key, and another of the tenant a minute later.
abbrev arrivals : List Arrival
arrivals =
    record { request = chat; random = none; at = 5 }
    ∷ record { request = chat; random = none; at = 6 }
    ∷ record { request = record chat { authorization = [] }; random = none; at = 7 }
    ∷ record { request = chat; random = none; at = 60 * RateLimit.second }
    ∷ []

abbrev one_a_minute : RateLimit.Config
one_a_minute = record { requests_per_minute = 1000; burst = 1 }

serve_each_bounded_example :
    let s : Server ℕ = record {
      limiter = some (RateLimit.new_registry one_a_minute);
      fallback_counter = 0;
      proxy = 0;
    } in
    let (replies, s') = serve_each split digits proxy (some (new_keystore entries)) s arrivals in
    admitted entries "acme" arrivals replies * RateLimit.unit
    ≤ 1 * RateLimit.unit + (60 * RateLimit.second - 5) * 1000
serve_each_bounded_example =
    serve_each_bounded split digits proxy entries one_a_minute "acme" arrivals 5
      (60 * RateLimit.second) 0 0 (omega arith)
