-- ===== src/Circuit/Registry/Sound.antt =====
-- No call of a registry panics, if its window is long enough.
use prompt_response.Common.{
  some-back, ℕ, ◌≤◌, List, [], ◌∷◌, Option, some, ◌>>=◌, String, Float, lookup, ◌≡◌, refl, sym,
  subst, ◌∙◌, str_eq, Option-cases, Bool-cases, inl, inr, string_eq,
}
use prompt_response.Circuit.Window.View.{IsValid}
use prompt_response.Circuit.Window.Refine.{new-IsValid}
use prompt_response.Circuit.Breaker.{Breaker, new_breaker}
use prompt_response.Circuit.Breaker.Sound.{
  allow-IsValid, state_now-IsValid, record_success-Keeps, record_failure-Keeps, error_rate-IsValid,
}
use prompt_response.Circuit.Registry.{
  Config, Registry, new_registry, with_breaker, get_or_create, found_or_new, allow, state_of,
  record_success, record_failure, error_rate,
}
use prompt_response.Circuit.Registry.Separate.{breaker_of, entry, only_at}

-- The window is at least ten nanoseconds long, and every breaker's window is valid.
pub record IsSound {N : Type 0} (reg : Registry N) : Type 0 where
  pub long_enough : 10 ≤ reg.window_size
  pub valid : (id : String) (b : Breaker N) → entry reg id ≡ some b → IsValid b.window

module _ {N : Type 0} where
  breaker_of-IsValid :
      (reg : Registry N) (id : String) (now : ℕ)
      → IsSound reg
      → IsValid (breaker_of reg id now).window
  unfolding get_or_create new_breaker
  breaker_of-IsValid reg id now s = elim (Option-cases (lookup id reg.breakers)) [
    | inl missing ↦
        rw (breaker_of, missing, found_or_new) ((new-IsValid reg.window_size now s.long_enough).0)
    | inr (b, found) ↦ rw (breaker_of, found, found_or_new) (s.valid id b found)
  ]

  same_size :
      (reg : Registry N) (id : String) (now : ℕ) (b : Breaker N)
      → (with_breaker (get_or_create reg id now).1 id b).window_size ≡ reg.window_size
  unfolding get_or_create
  same_size reg id now b = elim (Option-cases (lookup id reg.breakers)) [
    | inl missing ↦ rw (missing, found_or_new) refl
    | inr (old, found) ↦ rw (found, found_or_new) refl
  ]

  -- A call that leaves a valid breaker leaves a sound registry.
  with_breaker-IsSound :
      (reg : Registry N) (id : String) (now : ℕ) (b : Breaker N)
      → IsSound reg
      → IsValid b.window
      → IsSound (with_breaker (get_or_create reg id now).1 id b)
  with_breaker-IsSound reg id now b s v =
      let reg' = with_breaker (get_or_create reg id now).1 id b in
      record {
        long_enough = subst (λ n. 10 ≤ n) (sym (same_size reg id now b)) s.long_enough;
        valid = λ j old found. elim (Bool-cases (str_eq id j)) [
          | inl same ↦
              let now_b : entry reg' j ≡ some b = only_at reg id now b j ∙ rw same refl in
              subst (λ x. IsValid x.window) (some-back (sym now_b ∙ found)) v
          | inr other ↦
              let kept : entry reg' j ≡ entry reg j = only_at reg id now b j ∙ rw other refl in
              s.valid j old (sym kept ∙ found)
        ];
      }

-- A call of the registry, at its time.
pub data Call : Type 0 where
  asked succeeded failed stated rated : Call

module _ {N : Type 0} ⦃F : Float N⦄ where
  unfoldable pub call : Registry N → Call × String × ℕ → Option (Registry N)
  call reg (asked, id, now) = some (allow reg id now).1
  call reg (succeeded, id, now) = record_success reg id now
  call reg (failed, id, now) = record_failure reg id now
  call reg (stated, id, now) = some (state_of reg id now).1
  call reg (rated, id, now) = error_rate reg id now >>= λ (r, reg'). some reg'

  unfoldable pub calls : Registry N → List (Call × String × ℕ) → Option (Registry N)
  calls reg [] = some reg
  calls reg (c ∷ cs) = call reg c >>= λ reg'. calls reg' cs

  pub error_rate-IsSound :
      (reg : Registry N) (id : String) (now : ℕ)
      → IsSound reg
      → (res : N × Registry N) × (error_rate reg id now ≡ some res) × IsSound res.1
  unfolding error_rate
  error_rate-IsSound reg id now s =
      let (r, b, e, v) =
        error_rate-IsValid (breaker_of reg id now) now (breaker_of-IsValid reg id now s) in
      (
        (r, with_breaker (get_or_create reg id now).1 id b),
        rw e refl,
        with_breaker-IsSound reg id now b s v,
      )

  pub state_of-IsSound :
      (reg : Registry N) (id : String) (now : ℕ) → IsSound reg → IsSound (state_of reg id now).1
  unfolding state_of
  state_of-IsSound reg id now s =
      let v = breaker_of-IsValid reg id now s in
      with_breaker-IsSound reg id now _ s (state_now-IsValid (breaker_of reg id now) now v)

  pub call-IsSound :
      (reg : Registry N) (c : Call × String × ℕ)
      → IsSound reg
      → (reg' : Registry N) × (call reg c ≡ some reg') × IsSound reg'
  unfolding call allow record_success record_failure
  call-IsSound reg (asked, id, now) s =
      let v = breaker_of-IsValid reg id now s in
      (_, refl, with_breaker-IsSound reg id now _ s (allow-IsValid (breaker_of reg id now) now v))
  call-IsSound reg (succeeded, id, now) s =
      let (b, e, v) =
        record_success-Keeps (breaker_of reg id now) now (breaker_of-IsValid reg id now s) in
      (
        with_breaker (get_or_create reg id now).1 id b,
        rw e refl,
        with_breaker-IsSound reg id now b s v,
      )
  call-IsSound reg (failed, id, now) s =
      let (b, e, v) =
        record_failure-Keeps (breaker_of reg id now) now (breaker_of-IsValid reg id now s) in
      (
        with_breaker (get_or_create reg id now).1 id b,
        rw e refl,
        with_breaker-IsSound reg id now b s v,
      )
  call-IsSound reg (stated, id, now) s = (_, refl, state_of-IsSound reg id now s)
  call-IsSound reg (rated, id, now) s =
      let (res, e, sound) = error_rate-IsSound reg id now s in (res.1, rw e refl, sound)

  calls-IsSound :
      (reg : Registry N) (cs : List (Call × String × ℕ))
      → IsSound reg
      → (reg' : Registry N) × (calls reg cs ≡ some reg') × IsSound reg'
  unfolding calls
  calls-IsSound reg [] s = (reg, refl, s)
  calls-IsSound reg (c ∷ cs) s =
      let (reg₁, e₁, s₁) = call-IsSound reg c s in
      let (reg₂, e₂, s₂) = calls-IsSound reg₁ cs s₁ in (reg₂, rw e₁ e₂, s₂)

  -- In a registry whose window is at least ten nanoseconds long, no sequence of calls panics,
  -- whatever replicas they name and whatever their times are, and every breaker's window stays valid.
  pub calls-new_registry :
      (cfg : Config N) (cs : List (Call × String × ℕ))
      → 10 ≤ cfg.window_size
      → (reg : Registry N) × (calls (new_registry cfg) cs ≡ some reg) × IsSound reg
  unfolding new_registry lookup
  calls-new_registry cfg cs long =
      calls-IsSound (new_registry cfg) cs
        (record { long_enough = long; valid = λ id b found. cc found })
