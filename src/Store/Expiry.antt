-- ===== src/Store/Expiry.antt =====
-- What the in-memory store returns after a write: the value, for its lifetime and no longer, and for
-- its own key alone.
use prompt_response.Common.{
  ℕ, ◌+◌, ◌≡◌, refl, ap, Bool, true, false, ◌∙◌, String, Option, none, some, leb, ◌==◌,
  if◌then◌else◌, arith, lookup, lookup-insert, nat_eq,
}
use prompt_response.Types.{ConvState}
use prompt_response.Store.{
  Store, Entry, memory_store, live, get_affinity, set_affinity, get_conversation, set_conversation,
}

-- The laws of a store that loses nothing before its time.
pub record IsFaithful {S : Type 0} (st : Store S) : Type 0 where
  pub conversation-set :
      (s : S) (k j : ℕ) (v : ConvState) (ttl set_at now : ℕ)
      → st.get_conversation (st.set_conversation s k v ttl set_at) j now ≡ (
          if k == j
          then if leb now (set_at + ttl) then some v else none
          else st.get_conversation s j now)
  pub affinity-set :
      (s : S) (k j : ℕ) (id : String) (ttl set_at now : ℕ)
      → st.get_affinity (st.set_affinity s k id ttl set_at) j now ≡ (
          if k == j
          then if leb now (set_at + ttl) then some id else none
          else st.get_affinity s j now)
  pub kept_apart :
      (s : S) (k j : ℕ) (v : ConvState) (id : String) (ttl set_at now : ℕ)
      → (st.get_affinity (st.set_conversation s k v ttl set_at) j now ≡ st.get_affinity s j now)
        × (st.get_conversation (st.set_affinity s k id ttl set_at) j now
            ≡ st.get_conversation s j now)

live-insert :
    {V : Type 0} (now : ℕ) (hit : Bool) (b : ℕ) (v : V) (other : Option (Entry V))
    → live now (if hit then some (record { value = v; expires_at = b }) else other)
      ≡ (if hit then if leb now b then some v else none else live now other)
unfolding live
live-insert now true b v other = ground arith
live-insert now false b v other = refl

-- The in-memory store loses nothing before its time. After a write for a key, a read of that key
-- returns the value up to and including the end of its lifetime and nothing afterwards; reads of other
-- keys, and of the other kind of entry, are as before.
pub memory_store-IsFaithful : IsFaithful memory_store
unfolding get_affinity set_affinity get_conversation set_conversation
memory_store-IsFaithful = record {
  conversation-set = λ s k j v ttl set_at now.
      ap (live now) (lookup-insert k j (record { value = v; expires_at = set_at + ttl }) s.conv)
      ∙ live-insert now (k == j) (set_at + ttl) v (lookup j s.conv);
  affinity-set = λ s k j id ttl set_at now.
      ap (live now) (lookup-insert k j (record { value = id; expires_at = set_at + ttl }) s.data_)
      ∙ live-insert now (k == j) (set_at + ttl) id (lookup j s.data_);
  kept_apart = λ s k j v id ttl set_at now. (refl, refl);
}
