-- ===== src/Proxy/Turn/Lock.antt =====
-- A conversation's tier never goes down while its pin lives.
use prompt_response.Common.{
  ℕ, ◌+◌, ◌≤◌, ◌≡◌, refl, sym, ap, ◌∙◌, subst, List, Option, none, some, if◌then◌else◌, leb, le→leb,
  ◌==◌, ==_iff, Float, ◌≤ℤ◌, Option-cases, inl, inr,
}
use prompt_response.Types.{ModelTier, Replica, ConvState, score_bucket}
use prompt_response.Types.Tiers.{higher_tier, priority_of}
use prompt_response.Types.Priority.{higher_tier_lem}
use prompt_response.Store.{Store}
use prompt_response.Store.Expiry.{IsFaithful}
use prompt_response.Proxy.Turn.{
  Classified, classified_or_small, lock_tier, Turn, tier_of_turn, remember, serve_turn, take_turn,
}

module _ {N S : Type 0} ⦃F : Float N⦄ (st : Store S) (faithful : IsFaithful st)
    (reps : List (Replica N)) (ttl : ℕ) where
  tier_of_turn-pinned :
      (s : S) (t : Turn) (c : Option (Classified N)) (pin : ConvState)
      → st.get_conversation s t.conv_hash t.read_at ≡ some pin
      → tier_of_turn st reps ttl s t c ≡ higher_tier reps pin.tier (classified_or_small c).tier
  unfolding tier_of_turn lock_tier
  tier_of_turn-pinned s t c pin pinned = rw pinned refl

  -- What a turn that was served pins the conversation to.
  abbrev pub pin_of : Turn → Option (Classified N) → ModelTier → Replica N → ConvState
  pin_of t c tier r = record {
    tier = tier;
    model = r.model;
    bucket = score_bucket (classified_or_small c).score;
    turns = t.turns;
    updated_at = t.written_at;
  }

  pub remember-conversation :
      (s : S) (t : Turn) (c : Option (Classified N)) (tier : ModelTier) (r : Replica N)
      (conv now : ℕ)
      → st.get_conversation (remember st reps ttl s t c tier r) conv now ≡ (
          if t.conv_hash == conv
          then if leb now (t.written_at + ttl) then some (pin_of t c tier r) else none
          else st.get_conversation s conv now)
  unfolding remember
  remember-conversation s t c tier r conv now =
      let hit = st.set_affinity s t.prefix_hash r.id ttl t.written_at in
      faithful.conversation-set hit t.conv_hash conv (pin_of t c tier r) ttl t.written_at now
      ∙ ap
          (λ o.
            if t.conv_hash == conv
            then if leb now (t.written_at + ttl) then some (pin_of t c tier r) else none
            else o)
          (faithful.kept_apart s t.prefix_hash conv (pin_of t c tier r) r.id ttl t.written_at now).1

  -- In a store that loses nothing before its time: if a conversation is pinned when a turn of it
  -- reads the store, and the turn is served, then until the lifetime has passed since the turn
  -- wrote, the conversation is pinned to a tier whose priority is at least that of the old pin and
  -- at least that of the tier that the classifier gave (the small one if it failed).
  pub take_turn-escalates :
      (s : S) (t : Turn) (c : Option (Classified N)) (serve : ModelTier → Option (Replica N))
      (pin : ConvState) (r : Replica N) (later : ℕ)
      → st.get_conversation s t.conv_hash t.read_at ≡ some pin
      → serve (tier_of_turn st reps ttl s t c) ≡ some r
      → later ≤ t.written_at + ttl
      → (new : ConvState) × (st.get_conversation
            (take_turn st reps ttl s t c serve)
            t.conv_hash
            later
          ≡ some new)
        × (priority_of reps pin.tier ≤ℤ priority_of reps new.tier)
        × (priority_of reps (classified_or_small c).tier ≤ℤ priority_of reps new.tier)
  unfolding take_turn serve_turn
  take_turn-escalates s t c serve pin r later pinned served alive =
      let tier = tier_of_turn st reps ttl s t c in
      let (either, above_pin, above_class) =
        higher_tier_lem reps pin.tier (classified_or_small c).tier in
      let locked = tier_of_turn-pinned s t c pin pinned in
      (
        pin_of t c tier r,
        rw served (
            remember-conversation s t c tier r t.conv_hash later
            ∙ rw ((==_iff t.conv_hash t.conv_hash).1 refl, le→leb later (t.written_at + ttl) alive)
                refl),
        subst (λ q. priority_of reps pin.tier ≤ℤ priority_of reps q) (sym locked) above_pin,
        subst (λ q. priority_of reps (classified_or_small c).tier ≤ℤ priority_of reps q)
            (sym locked) above_class,
      )

  -- After a turn that was served its conversation reads as pinned to the turn's tier for the lifetime
  -- and as not pinned afterwards, and other conversations read as before; after a turn that was not
  -- served, all of them read as before.
  take_turn-pins :
      (s : S) (t : Turn) (c : Option (Classified N)) (serve : ModelTier → Option (Replica N))
      (conv now : ℕ)
      → st.get_conversation (take_turn st reps ttl s t c serve) conv now
        ≡ (elim (serve (tier_of_turn st reps ttl s t c)) [
          | none ↦ st.get_conversation s conv now
          | some r ↦
              if t.conv_hash == conv
              then if leb now (t.written_at + ttl)
                then some (pin_of t c (tier_of_turn st reps ttl s t c) r)
                else none
              else st.get_conversation s conv now
        ])
  unfolding take_turn serve_turn
  take_turn-pins s t c serve conv now =
      elim (Option-cases (serve (tier_of_turn st reps ttl s t c))) [
        | inl refused ↦ rw refused refl
        | inr (r, served) ↦
            rw served (remember-conversation s t c (tier_of_turn st reps ttl s t c) r conv now)
      ]
