-- ===== src/Config/Replicas/Order.antt =====
-- The replica list is in the order of the tiers' priorities, which is the order in which the tiers
-- are tried.
use prompt_response.Common.{
  ℕ, ◌≡◌, true, false, String, List, [], ◌∷◌, ◌++◌, All, All-append, Bool-cases, inl, inr, arith,
  map, ltb_ℤ, ◌≤ℤ◌, ℤ,
}
use prompt_response.Types.{Replica}
use prompt_response.Config.{ModelTier, ReplicaConfig}
use prompt_response.Config.Replicas.{
  insert_tier, sort_tiers, tier_config, replica_of, flatten, to_replica_list,
}
use prompt_response.Config.Replicas.Routed.{All-map_of, All-imply, insert_tier-All, flatten-All}

-- Each element's number is at most those of all the later ones.
abbrev IsSorted : {A : Type 0} → (A → ℤ) → List A → Type 0
IsSorted f [] = Unit
IsSorted f (x ∷ xs) = All (λ y. f x ≤ℤ f y) xs × IsSorted f xs

not_less : (a b : ℤ) → ltb_ℤ b a ≡ false → a ≤ℤ b
not_less a b e = ground arith

less : (a b : ℤ) → ltb_ℤ b a ≡ true → b ≤ℤ a
less a b e = ground arith

trans : (a b c : ℤ) → a ≤ℤ b → b ≤ℤ c → a ≤ℤ c
trans a b c p q = omega arith

always : {A : Type 0} (P : A → Type 0) (xs : List A) → ((x : A) → P x) → All P xs
always P [] h = tt
always P (x ∷ xs) h = (h x, always P xs h)

module _ {N : Type 0} where
  abbrev priority_of_tier : ModelTier N → ℤ
  priority_of_tier t = t.priority

  abbrev priority_of_replica : Replica N → ℤ
  priority_of_replica r = r.tier_cfg.priority

  insert_tier-IsSorted :
      (t : ModelTier N) (ts : List (ModelTier N))
      → IsSorted priority_of_tier ts
      → IsSorted priority_of_tier (insert_tier t ts)
  unfolding insert_tier
  insert_tier-IsSorted t [] h = (tt, tt)
  insert_tier-IsSorted t (u ∷ us) h = elim (Bool-cases (ltb_ℤ u.priority t.priority)) [
    | inl below ↦ rw below (
      insert_tier-All (λ v. u.priority ≤ℤ v.priority) t us (less t.priority u.priority below) h.0,
      insert_tier-IsSorted t us h.1,
    )
    | inr above ↦
        let first = not_less t.priority u.priority above in
        rw above (
          (
            first,
            All-imply (λ v. u.priority ≤ℤ v.priority) (λ v. t.priority ≤ℤ v.priority) us
                (λ v p. trans t.priority u.priority v.priority first p) h.0,
          ),
          h,
        )
  ]

  sort_tiers-IsSorted : (ts : List (ModelTier N)) → IsSorted priority_of_tier (sort_tiers ts)
  unfolding sort_tiers
  sort_tiers-IsSorted [] = tt
  sort_tiers-IsSorted (t ∷ ts) = insert_tier-IsSorted t (sort_tiers ts) (sort_tiers-IsSorted ts)

  -- The replicas of a tier stand before replicas of no lower priority.
  prepend-IsSorted :
      (size_of : String → ℕ) (t : ModelTier N) (ms : List ReplicaConfig) (rest : List (Replica N))
      → All (λ r. t.priority ≤ℤ priority_of_replica r) rest
      → IsSorted priority_of_replica rest
      → IsSorted priority_of_replica (map (replica_of size_of t) ms ++ rest)
  unfolding replica_of tier_config
  prepend-IsSorted size_of t [] rest above sorted = sorted
  prepend-IsSorted size_of t (m ∷ ms) rest above sorted = (
    All-append (λ r. t.priority ≤ℤ priority_of_replica r) (map (replica_of size_of t) ms) rest
        (All-map_of (λ r. t.priority ≤ℤ priority_of_replica r) (replica_of size_of t) ms
          (always (λ m'. t.priority ≤ℤ t.priority) ms (λ m'. omega arith)))
        above,
    prepend-IsSorted size_of t ms rest above sorted,
  )

  flatten-IsSorted :
      (size_of : String → ℕ) (ts : List (ModelTier N))
      → IsSorted priority_of_tier ts
      → IsSorted priority_of_replica (flatten size_of ts)
  unfolding flatten replica_of tier_config
  flatten-IsSorted size_of [] h = tt
  flatten-IsSorted size_of (t ∷ ts) h =
      prepend-IsSorted size_of t t.models (flatten size_of ts)
        (flatten-All (λ r. t.priority ≤ℤ priority_of_replica r) size_of ts
          (All-imply (λ u. t.priority ≤ℤ u.priority)
            (λ u. All (λ m. t.priority ≤ℤ u.priority) u.models) ts
            (λ u p. always (λ m. t.priority ≤ℤ u.priority) u.models (λ m. p)) h.0))
        (flatten-IsSorted size_of ts h.1)

  -- Whatever order the configuration lists its tiers in, the replica list is sorted by the priority
  -- of the replicas' tiers.
  to_replica_list-IsSorted :
      (size_of : String → ℕ) (models : List (ModelTier N))
      → IsSorted priority_of_replica (to_replica_list size_of models)
  unfolding to_replica_list
  to_replica_list-IsSorted size_of models =
      flatten-IsSorted size_of (sort_tiers models) (sort_tiers-IsSorted models)
