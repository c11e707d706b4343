-- ===== src/Proxy/Turn/Race.antt =====
-- internal/proxy/handler.go, `ServeHTTP`: two turns of one conversation at the same time.
use prompt_response.Common.{
  ℕ, ◌+◌, ◌≤◌, ◌≡◌, refl, ap, ◌∙◌, subst, List, Option, none, some, le→leb, ==_iff, Float, ◌≤ℤ◌,
}
use prompt_response.Types.{Replica, ConvState}
use prompt_response.Types.Tiers.{priority_of}
use prompt_response.Store.{Store}
use prompt_response.Store.Expiry.{IsFaithful}
use prompt_response.Proxy.Turn.{
  Classified, classified_or_small, lock_tier, Turn, tier_of_turn, remember, serve_turn, take_turn,
}
use prompt_response.Proxy.Turn.Lock.{pin_of, remember-conversation, take_turn-escalates}

module _ {N S : Type 0} ⦃F : Float N⦄ (st : Store S) (reps : List (Replica N)) (ttl : ℕ) where
  -- The store after two turns that both read it before either writes; the first is the first to write.
  abbrev pub at_once :
      S → Turn → Option (Classified N) → Replica N → Turn → Option (Classified N) → Replica N → S
  at_once s t c r t' c' r' =
      remember st reps ttl (remember st reps ttl s t c (tier_of_turn st reps ttl s t c) r) t' c'
        (tier_of_turn st reps ttl s t' c') r'

  -- The store after the second turn has begun when the first was over.
  abbrev pub in_turn :
      S → Turn → Option (Classified N) → Replica N → Turn → Option (Classified N) → Replica N → S
  in_turn s t c r t' c' r' =
      take_turn st reps ttl (take_turn st reps ttl s t c (λ tier. some r)) t' c' (λ tier. some r')

  tier_of_turn-fresh :
      (s : S) (t : Turn) (c : Option (Classified N))
      → st.get_conversation s t.conv_hash t.read_at ≡ none
      → tier_of_turn st reps ttl s t c ≡ (classified_or_small c).tier
  unfolding tier_of_turn lock_tier
  tier_of_turn-fresh s t c fresh = rw fresh refl

module _ {N S : Type 0} ⦃F : Float N⦄ (st : Store S) (faithful : IsFaithful st)
    (reps : List (Replica N)) (ttl : ℕ) where
  -- In a store that loses nothing before its time, for two turns of a conversation that is not pinned
  -- yet, of which the second reads the store within the lifetime of the first one's pin: if they come
  -- one after the other, the conversation ends pinned to a tier whose priority is at least that of
  -- both tiers that the classifier gave. If both read before either writes, it ends pinned to the tier
  -- that the classifier gave for the one that writes last, whatever the other's tier is.
  pub at_once-in_turn :
      (s : S) (t t' : Turn) (c c' : Option (Classified N)) (r r' : Replica N) (later : ℕ)
      → st.get_conversation s t.conv_hash t.read_at ≡ none
      → st.get_conversation s t'.conv_hash t'.read_at ≡ none
      → t.conv_hash ≡ t'.conv_hash
      → t'.read_at ≤ t.written_at + ttl
      → later ≤ t'.written_at + ttl
      → ((new : ConvState) × (st.get_conversation
              (in_turn st reps ttl s t c r t' c' r')
              t'.conv_hash
              later
            ≡ some new)
          × (priority_of reps (classified_or_small c).tier ≤ℤ priority_of reps new.tier)
          × (priority_of reps (classified_or_small c').tier ≤ℤ priority_of reps new.tier))
        × (st.get_conversation (at_once st reps ttl s t c r t' c' r') t'.conv_hash later
            ≡ some (pin_of st faithful reps ttl t' c' (classified_or_small c').tier r'))
  unfolding take_turn serve_turn
  at_once-in_turn s t t' c c' r r' later fresh fresh' same read alive =
      let tier = tier_of_turn st reps ttl s t c in
      let first = remember st reps ttl s t c tier r in
      let pinned : st.get_conversation first t'.conv_hash t'.read_at
          ≡ some (pin_of st faithful reps ttl t c tier r) =
        remember-conversation st faithful reps ttl s t c tier r t'.conv_hash t'.read_at
        ∙ rw ((==_iff t.conv_hash t'.conv_hash).1 same, le→leb t'.read_at (t.written_at + ttl) read)
            refl in
      let (new, reads, above_pin, above_class) =
        take_turn-escalates st faithful reps ttl first t' c' (λ tier. some r')
          (pin_of st faithful reps ttl t c tier r) r' later pinned refl alive in
      (
        (
          new,
          reads,
          subst (λ q. priority_of reps q ≤ℤ priority_of reps new.tier)
              (tier_of_turn-fresh st reps ttl s t c fresh) above_pin,
          above_class,
        ),
        remember-conversation st faithful reps ttl first t' c' (tier_of_turn st reps ttl s t' c') r'
              t'.conv_hash later
            ∙ rw
                (
                  (==_iff t'.conv_hash t'.conv_hash).1 refl,
                  le→leb later (t'.written_at + ttl) alive,
                )
                refl
            ∙ ap (λ q. some (pin_of st faithful reps ttl t' c' q r'))
                (tier_of_turn-fresh st reps ttl s t' c' fresh'),
      )
