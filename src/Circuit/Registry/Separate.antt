-- ===== src/Circuit/Registry/Separate.antt =====
-- The breakers of different replicas do not affect one another.
use prompt_response.Common.{
  ℕ, Option, some, if◌then◌else◌, String, Float, lookup, insert, lookup-insert, ◌≡◌, refl, str_eq,
  arith, Option-cases, inl, inr, string_eq,
}
use prompt_response.Circuit.Breaker.{Breaker, State, new_breaker}
use prompt_response.Circuit.Breaker
use prompt_response.Circuit.Registry.{
  Registry, with_breaker, get_or_create, found_or_new, allow, state_of, record_success,
  record_failure,
}

module _ {N : Type 0} where
  -- The breaker that a replica has: the one in the map, or a new one.
  abbrev pub breaker_of : Registry N → String → ℕ → Breaker N
  breaker_of reg id now = (get_or_create reg id now).0

  abbrev pub entry : Registry N → String → Option (Breaker N)
  entry reg id = lookup id reg.breakers

  get_or_create-entry :
      (reg : Registry N) (id j : String) (now : ℕ) (b : Breaker N)
      → lookup j (insert id b (get_or_create reg id now).1.breakers)
        ≡ (if str_eq id j then some b else entry reg j)
  unfolding get_or_create
  get_or_create-entry reg id j now b = elim (Option-cases (lookup id reg.breakers)) [
    | inl missing ↦
        rw (missing, found_or_new)
          (let fresh = new_breaker reg.threshold reg.window_size reg.cooldown reg.min_samples now in
            ground (
              arith,
              lookup-insert id j b (insert id fresh reg.breakers),
              lookup-insert id j fresh reg.breakers,
            ))
    | inr (old, found) ↦ rw (found, found_or_new) (lookup-insert id j b reg.breakers)
  ]

  -- What a call for a replica does in the registry: this replica's entry becomes `b`, and every
  -- other entry stays as it was.
  abbrev OnlyAt : String → Breaker N → Registry N → Registry N → Type 0
  OnlyAt id b reg reg' = (j : String) → entry reg' j ≡ (if str_eq id j then some b else entry reg j)

  pub only_at :
      (reg : Registry N) (id : String) (now : ℕ) (b : Breaker N)
      → OnlyAt id b reg (with_breaker (get_or_create reg id now).1 id b)
  only_at reg id now b j = get_or_create-entry reg id j now b

  -- `Allow` and `State` for a replica answer as its own breaker does, keep that breaker's new state
  -- and leave every other replica's breaker alone.
  queries_separate :
      (reg : Registry N) (id : String) (now : ℕ)
      → let b = breaker_of reg id now in
        ((allow reg id now).0 ≡ (Breaker.allow b now).0)
        × OnlyAt id (Breaker.allow b now).1 reg (allow reg id now).1
        × ((state_of reg id now).0 ≡ (Breaker.state_now b now).0)
        × OnlyAt id (Breaker.state_now b now).1 reg (state_of reg id now).1
  unfolding allow state_of
  queries_separate reg id now =
      let b = breaker_of reg id now in
      (
        refl,
        only_at reg id now (Breaker.allow b now).1,
        refl,
        only_at reg id now (Breaker.state_now b now).1,
      )

module _ {N : Type 0} ⦃F : Float N⦄ where
  -- Where a replica's own breaker records a success and a failure without a panic, so does the
  -- registry: the outcome is recorded on that breaker, and every other replica's breaker stays as
  -- it was.
  outcomes_separate :
      (reg : Registry N) (id : String) (now : ℕ) (b₁ b₂ : Breaker N)
      → Breaker.record_success (breaker_of reg id now) now ≡ some b₁
      → Breaker.record_failure (breaker_of reg id now) now ≡ some b₂
      → ((reg' : Registry N) × (record_success reg id now ≡ some reg') × OnlyAt id b₁ reg reg')
        × ((reg' : Registry N) × (record_failure reg id now ≡ some reg') × OnlyAt id b₂ reg reg')
  unfolding record_success record_failure
  outcomes_separate reg id now b₁ b₂ e₁ e₂ = (
    (with_breaker (get_or_create reg id now).1 id b₁, rw e₁, only_at reg id now b₁),
    (with_breaker (get_or_create reg id now).1 id b₂, rw e₂, only_at reg id now b₂),
  )
