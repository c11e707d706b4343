-- ===== src/Scorer.antt =====
-- internal/scorer/scorer.go: the score of a replica, and the choice of the best one. The circuit
-- checker is an argument that passes its state on, since `Allow` may change it; a nil checker is the
-- one that allows all. `none` stands for the zero `Replica`.
pub mod Maximum
pub mod Best
pub mod Picks
use prompt_response.Common.{
  ℕ, Bool, true, false, not, ◌&&◌, String, List, [], ◌∷◌, Option, none, some, if◌then◌else◌, str_eq,
  Table, lookup, lookup_or, string_eq, Float,
}
use prompt_response.Types.{ModelTier, Replica}
use prompt_response.Poller

-- config.go, `Weights`.
pub record Weights (N : Type 0) : Type 0 where
  pub cache_affinity : N
  pub queue_depth : N
  pub kv_cache_pressure : N
  pub baseline : N
  pub miss_penalty : N

-- What `Pick` reads when it starts: the configuration, the replica that the prefix is bound to, and
-- the poller's snapshot.
pub record View (N : Type 0) : Type 0 where
  pub weights : Weights N
  pub max_queue : N
  pub affinity : Option String
  pub states : Table String (Poller.State N)

is_hit : Option String → String → Bool
is_hit none id = false
is_hit (some a) id = str_eq a id

module _ {N : Type 0} ⦃F : Float N⦄ where
  -- `s.score`.
  unfoldable pub score_of : Weights N → N → Bool → Poller.State N → N
  score_of w max_queue hit s =
      let cache_score = if hit then F.of_int 1 else F.of_int 0 in
      let miss_penalty = if hit then F.of_int 0 else w.miss_penalty in
      let queue_score =
        F.maximum (F.of_int 0) (F.sub (F.of_int 1) (F.div (F.of_signed s.queue_depth) max_queue)) in
      let kv_pressure_score = F.maximum (F.of_int 0) (F.sub (F.of_int 1) s.kv_cache_util) in
      F.sub
        (F.add
          (F.add (F.add (F.mul w.cache_affinity cache_score) (F.mul w.queue_depth queue_score))
            (F.mul w.kv_cache_pressure kv_pressure_score))
          (F.mul w.baseline (F.ratio 1 2)))
        miss_penalty

  -- The score of a replica in the loop of `Pick`.
  unfoldable pub score_in : View N → Replica N → N
  unfolding is_hit
  score_in v r =
      score_of v.weights v.max_queue (is_hit v.affinity r.id)
        (lookup_or Poller.zero_state r.id v.states)

  is_healthy : Option (Poller.State N) → Bool
  is_healthy none = false
  is_healthy (some s) = s.healthy

  -- The replica is known to the poller, healthy and not excluded.
  unfoldable pub usable : View N → (String → Bool) → Replica N → Bool
  unfolding is_healthy
  usable v excluded r = is_healthy (lookup r.id v.states) && not (excluded r.id)

-- The loop's variables.
pub record Choice (N : Type 0) : Type 0 where
  pub best : Option (Replica N)
  pub best_score : N
  pub fallback : Option (Replica N)
  pub fallback_score : N

module _ {N : Type 0} ⦃F : Float N⦄ where
  unfoldable pub consider : View N → ModelTier → Choice N → Replica N → Choice N
  consider v tier c r =
      let score = score_in v r in
      if str_eq r.tier tier
      then if F.lt c.best_score score then record c { best = some r; best_score = score } else c
      else if F.lt c.fallback_score score
      then record c { fallback = some r; fallback_score = score }
      else c

  unfoldable pub no_choice : Choice N
  no_choice = record {
    best = none;
    best_score = F.neg (F.of_int 1);
    fallback = none;
    fallback_score = F.neg (F.of_int 1);
  }

  -- A replica whose id is empty counts as none.
  unfoldable pub named : Option (Replica N) → Bool
  named none = false
  named (some r) = not (str_eq r.id "")

module _ {N C : Type 0} ⦃F : Float N⦄ (ask : C → String → Bool × C) where
  -- The loop of `Pick`. The checker is asked only about replicas that are usable.
  unfoldable pub pick_loop :
      View N → ModelTier → (String → Bool) → C → Choice N → List (Replica N) → Choice N × C
  pick_loop v tier excluded cc c [] = (c, cc)
  pick_loop v tier excluded cc c (r ∷ rs) =
      let (allowed, cc') = ask cc r.id in
      let skip = pick_loop v tier excluded cc c rs in
      let refused = pick_loop v tier excluded cc' c rs in
      let taken = pick_loop v tier excluded cc' (consider v tier c r) rs in
      if usable v excluded r then if allowed then taken else refused else skip

  unfoldable pub pick :
      View N → ModelTier → (String → Bool) → C → List (Replica N) → Option (Replica N) × C
  unfolding named no_choice
  pick v tier excluded cc rs =
      let (c, cc') = pick_loop v tier excluded cc no_choice rs in
      (if named c.best then c.best else c.fallback, cc')
