-- ===== src/Store/Redis/Lifetime.antt =====
-- What the Redis store returns after a write, for a client whose calls succeed.
use prompt_response.Common.{
  ℕ, ◌+◌, ◌*◌, ◌/◌, ◌<◌, ◌≡◌, ◌≢◌, refl, sym, ap, ◌∙◌, true, false, String, List, [], ◌∷◌, Option,
  none, some, if◌then◌else◌, leb, ◌==◌, ==_iff, Table, lookup, lookup_or, string_eq, Bool-cases,
  list_eq, list_eq_iff, inl, inr, arith,
}
use prompt_response.Types.{ConvState}
use prompt_response.Store.Redis.{
  Client, affinity_key, conv_key, second, get_affinity, set_affinity, number_or_zero, read_fields,
  get_conversation, fields_of, set_conversation,
}
use prompt_response.Store.Redis.Keys.{
  IsHash, affinity_key-injective, conv_key-injective, affinity_key-ne_conv,
}

-- What Redis documents of calls that succeed. A text set at a key is there for its lifetime. Fields
-- written to a key that holds no text are there for a lifetime of whole seconds, and an expired key
-- has none. Other keys are not touched.
pub record Works {R : Type 0} (client : Client R) : Type 0 where
  pub set_same :
      (r : R) (k : List ℕ) (v : String) (ttl at now : ℕ)
      → 0 < ttl
      → client.get (client.set r k v ttl at) k now ≡ (if leb now (at + ttl) then some v else none)
  pub set_other :
      (r : R) (k j : List ℕ) (v : String) (ttl at now : ℕ)
      → k ≢ j
      → (client.get (client.set r k v ttl at) j now ≡ client.get r j now)
        × (client.hget_all (client.set r k v ttl at) j now ≡ client.hget_all r j now)
  pub hset_live :
      (r : R) (k : List ℕ) (fields : Table String String) (n at now : ℕ)
      → client.get r k at ≡ none
      → 0 < n
      → leb now (at + n * second) ≡ true
      → (m : Table String String) × (client.hget_all
            (client.hset_expire r k fields (n * second) at)
            k
            now
          ≡ some m)
        × ((f v : String) → lookup f fields ≡ some v → lookup f m ≡ some v)
  pub hset_expired :
      (r : R) (k : List ℕ) (fields : Table String String) (n at now : ℕ)
      → client.get r k at ≡ none
      → 0 < n
      → leb now (at + n * second) ≡ false
      → client.hget_all (client.hset_expire r k fields (n * second) at) k now ≡ some []
  pub hset_same :
      (r : R) (k : List ℕ) (fields : Table String String) (n at now : ℕ)
      → client.get r k at ≡ none
      → client.get (client.hset_expire r k fields (n * second) at) k now ≡ none
  pub hset_other :
      (r : R) (k j : List ℕ) (fields : Table String String) (ttl at now : ℕ)
      → k ≢ j
      → (client.get (client.hset_expire r k fields ttl at) j now ≡ client.get r j now)
        × (client.hget_all (client.hset_expire r k fields ttl at) j now ≡ client.hget_all r j now)

-- The state as it is read back: its time is cut to a second.
abbrev pub in_seconds : ConvState → ConvState
in_seconds state = record state { updated_at = state.updated_at / second * second }

lookup_or-some :
    (d f v : String) (m : Table String String) → lookup f m ≡ some v → lookup_or d f m ≡ v
unfolding lookup lookup_or
lookup_or-some d f v [] e = cc e
lookup_or-some d f v ((j, w) ∷ m) e = ground (arith, lookup_or-some d f v m)

module _ {R : Type 0} (client : Client R) (decimal : ℕ → String) (parse : String → Option ℕ)
    (works : Works client) (reads : (n : ℕ) → parse (decimal n) ≡ some n) where
  read_fields-written :
      (state : ConvState) (m : Table String String)
      → ((f v : String)
          → lookup f (fields_of client decimal parse state) ≡ some v
          → lookup f m ≡ some v)
      → read_fields client decimal parse (some m) ≡ some (in_seconds state)
  unfolding read_fields fields_of number_or_zero lookup
  read_fields-written state [] kept = cc (kept "tier" state.tier refl)
  read_fields-written state (f ∷ fs) kept =
      let field : (k v : String)
          → lookup k (fields_of client decimal parse state) ≡ some v
          → lookup_or "" k (f ∷ fs) ≡ v =
        λ k v e. lookup_or-some "" k v (f ∷ fs) (kept k v e) in
      rw
        (
          field "tier" state.tier refl,
          field "model" state.model refl,
          field "bucket" state.bucket refl,
          field "turns" (decimal state.turns) refl,
          field "updated_at" (decimal (state.updated_at / second)) refl,
          reads state.turns,
          reads (state.updated_at / second),
        )
        refl

  -- No text stands at a conversation's key: the handler's writes keep it so.
  abbrev pub IsApart : R → Type 0
  IsApart r = (id now : ℕ) → client.get r (conv_key id) now ≡ none

  -- While the client's calls succeed: after a conversation is written with a lifetime of whole
  -- seconds, it is read as what was written, its time cut to a second, up to the end of its lifetime
  -- and not afterwards; other conversations and all affinities are read as before; and no text stands
  -- at a conversation's key, if none did.
  pub get-set_conversation :
      (r : R) (k j : ℕ) (state : ConvState) (n at now : ℕ)
      → IsApart r
      → IsHash k
      → IsHash j
      → 0 < n
      → let r' = set_conversation client decimal parse r k state (n * second) at in
        (get_conversation client decimal parse r' j now ≡ (
          if k == j
          then if leb now (at + n * second) then some (in_seconds state) else none
          else get_conversation client decimal parse r j now))
        × (get_affinity client decimal parse r' j now ≡ get_affinity client decimal parse r j now)
        × IsApart r'
  unfolding get_conversation set_conversation get_affinity
  get-set_conversation r k j state n at now apart hk hj positive =
      let key = conv_key k in
      let written = fields_of client decimal parse state in
      let r' = client.hset_expire r key written (n * second) at in
      let read = read_fields client decimal parse in
      (
        elim (Bool-cases (k == j)) [
          | inl same ↦
              let here : k ≡ j = (==_iff k j).0 same in
              rw same (
                ap (λ i. read (client.hget_all r' (conv_key i) now)) (sym here)
                ∙ elim (Bool-cases (leb now (at + n * second))) [
                  | inl live ↦
                      let (m, e, kept) =
                        works.hset_live r key written n at now (apart k at) positive live in
                      rw live (ap read e ∙ read_fields-written state m kept)
                  | inr over ↦ rw over (
                      ap read
                        (works.hset_expired r key written n at now (apart k at) positive over))
                ])
          | inr other ↦ rw other (
              ap read
                (works.hset_other r key (conv_key j) written (n * second) at now
                  (λ e. absurd (ground (arith, conv_key-injective k j hk hj e)))).1)
        ],
        (works.hset_other r key (affinity_key j) written (n * second) at now
            (λ e. affinity_key-ne_conv j k (sym e))).0,
        λ id t. elim (Bool-cases (list_eq key (conv_key id))) [
          | inl same ↦
              ap (λ q. client.get r' q t) (sym ((list_eq_iff key (conv_key id)).0 same))
              ∙ works.hset_same r key written n at t (apart k at)
          | inr other ↦
              (works.hset_other r key (conv_key id) written (n * second) at t
                (λ e. cc ((list_eq_iff key (conv_key id)).1 e, other))).0
              ∙ apart id t
        ],
      )

  -- While the client's calls succeed: after a replica is written for a prefix with a lifetime, it is
  -- read up to the end of it and not afterwards; other prefixes and all conversations are read as
  -- before; and no text stands at a conversation's key, if none did.
  get-set_affinity :
      (r : R) (k j : ℕ) (id : String) (ttl at now : ℕ)
      → IsApart r
      → IsHash k
      → IsHash j
      → 0 < ttl
      → let r' = set_affinity client decimal parse r k id ttl at in
        (get_affinity client decimal parse r' j now ≡ (
          if k == j
          then if leb now (at + ttl) then some id else none
          else get_affinity client decimal parse r j now))
        × (get_conversation client decimal parse r' j now
            ≡ get_conversation client decimal parse r j now)
        × IsApart r'
  unfolding get_conversation set_affinity get_affinity
  get-set_affinity r k j id ttl at now apart hk hj positive =
      let key = affinity_key k in
      let far =
        λ (i t : ℕ). works.set_other r key (conv_key i) id ttl at t (affinity_key-ne_conv k i) in
      (
        elim (Bool-cases (k == j)) [
          | inl same ↦
              let here : k ≡ j = (==_iff k j).0 same in
              rw same (
                ap (λ i. client.get (client.set r key id ttl at) (affinity_key i) now) (sym here)
                ∙ works.set_same r key id ttl at now positive)
          | inr other ↦
              rw other
                (works.set_other r key (affinity_key j) id ttl at now
                  (λ e. absurd (ground (arith, affinity_key-injective k j hk hj e)))).0
        ],
        ap (read_fields client decimal parse) (far j now).1,
        λ i t. (far i t).0 ∙ apart i t,
      )
