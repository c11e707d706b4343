-- ===== src/Proxy/Turn.antt =====
-- internal/proxy/handler.go, `ServeHTTP`: how a conversation's tier is chosen, and what a request
-- that was served writes to the store. The classifier's answer and the retry loop's are arguments;
-- what the watchdog, metrics, audit trail and usage tracker get is left out here.
pub mod Lock
pub mod Race
use prompt_response.Common.{ℕ, Bool, true, false, String, List, Option, none, some, Float, ℤ}
use prompt_response.Types.{ModelTier, tier_small, Replica, ConvState, score_bucket}
use prompt_response.Types.Tiers.{higher_tier}
use prompt_response.Store.{Store}

-- `Classify`: `none` is its error.
pub record Classified (N : Type 0) : Type 0 where
  pub tier : ModelTier
  pub score : N

module _ {N : Type 0} ⦃F : Float N⦄ where
  unfoldable pub classified_or_small : Option (Classified N) → Classified N
  classified_or_small none = record { tier = tier_small; score = F.of_int 0 }
  classified_or_small (some c) = c

module _ {N : Type 0} where
  -- The tier of a turn, given the conversation's pin.
  unfoldable pub lock_tier : List (Replica N) → Option ConvState → ModelTier → ModelTier
  lock_tier reps none tier = tier
  lock_tier reps (some pin) tier = higher_tier reps pin.tier tier

-- What a turn reads of its request, and the times at which the store is read and written.
pub record Turn : Type 0 where
  pub prefix_hash : ℕ
  pub conv_hash : ℕ
  pub turns : ℕ
  pub read_at : ℕ
  pub written_at : ℕ

module _ {N S : Type 0} ⦃F : Float N⦄ (st : Store S) (reps : List (Replica N)) (ttl : ℕ) where
  unfoldable pub tier_of_turn : S → Turn → Option (Classified N) → ModelTier
  tier_of_turn s t c =
      lock_tier reps (st.get_conversation s t.conv_hash t.read_at) (classified_or_small c).tier

  -- `RecordHit` and `SetConversation`.
  unfoldable pub remember : S → Turn → Option (Classified N) → ModelTier → Replica N → S
  remember s t c tier r =
      st.set_conversation (st.set_affinity s t.prefix_hash r.id ttl t.written_at) t.conv_hash
        (record {
          tier = tier;
          model = r.model;
          bucket = score_bucket (classified_or_small c).score;
          turns = t.turns;
          updated_at = t.written_at;
        })
        ttl t.written_at

  -- `serve` is the retry loop's replica for a tier; without one the answer is status 503.
  unfoldable pub serve_turn : S → Turn → Option (Classified N) → ModelTier → Option (Replica N) → S
  unfolding remember
  serve_turn s t c tier none = s
  serve_turn s t c tier (some r) = remember s t c tier r

  unfoldable pub take_turn : S → Turn → Option (Classified N) → (ModelTier → Option (Replica N)) → S
  unfolding serve_turn
  take_turn s t c serve = let tier = tier_of_turn s t c in serve_turn s t c tier (serve tier)
