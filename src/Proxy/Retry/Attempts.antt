-- ===== src/Proxy/Retry/Attempts.antt =====
-- The retry loop asks no replica twice, stays within its bound, and accepts only a good answer.
use prompt_response.Common.{
  ℕ, zero, suc, ◌+◌, ◌≤◌, ◌<◌, ◌≡◌, refl, Bool, true, false, String, List, [], ◌∷◌, Option, none,
  some, ◌>>=◌, str_eq, Float, ℤ, length, arith, All, Bool-cases, Option-cases, inl, inr,
}
use prompt_response.Types.{ModelTier, Replica}
use prompt_response.Scorer.{View, pick, usable}
use prompt_response.Scorer.Picks.{IsNamed, pick-usable}
use prompt_response.Proxy.Retry.{
  Circuit, Outcome, failed, answered, accepted, member, Retried, no_response, settle, try_picked,
  retry_loop, max_attempts,
}

-- No id stands twice.
abbrev pub Distinct : List String → Type 0
Distinct [] = Unit
Distinct (x ∷ xs) = (member xs x ≡ false) × Distinct xs

-- What holds of a result if there is one: a panic gives none.
abbrev pub Ensures : {A : Type 0} → (A → Type 0) → Option A → Type 0
Ensures P none = Unit
Ensures P (some a) = P a

abbrev pub Accepted : {N : Type 0} → Option (Replica N × ℕ) → List String → Type 0
Accepted none excluded = Unit
Accepted (some (r, status)) excluded = (status < 500) × (member excluded r.id ≡ false)

abbrev pub tries : {N : Type 0} → Option (Replica N × ℕ) → List String → ℕ
tries none excluded = length excluded
tries (some _) excluded = suc (length excluded)

abbrev pub IsSome : {A : Type 0} → Option A → Type 0
IsSome none = ⊥
IsSome (some _) = Unit

-- The replicas asked are distinct, and at most `bound`; a response has a status below 500 and comes
-- from a replica that had not failed.
pub record Fine {N C : Type 0} (bound : ℕ) (out : Retried N C) : Type 0 where
  pub distinct : Distinct out.excluded
  pub bounded : tries out.resp out.excluded ≤ bound
  pub good : Accepted out.resp out.excluded

accepted_below :
    (stall_check : Bool) (o : Outcome) (status : ℕ)
    → accepted stall_check o ≡ some status
    → status < 500
unfolding accepted
accepted_below stall_check failed status e = cc e
accepted_below stall_check (answered s first_byte) status e = ground arith

usable-fresh :
    {N : Type 0} ⦃F : Float N⦄ (v : View N) (excluded : String → Bool) (r : Replica N)
    → usable v excluded r ≡ true
    → excluded r.id ≡ false
unfolding usable
usable-fresh v excluded r h = ground arith

Ensures-bind :
    {A B : Type 0} (P : B → Type 0) (m : Option A) (f : A → Option B)
    → ((a : A) → Ensures P (f a))
    → Ensures P (m >>= f)
Ensures-bind P none f h = tt
Ensures-bind P (some a) f h = h a

IsSome-bind :
    {A B : Type 0} (m : Option A) (f : A → Option B)
    → IsSome m
    → ((a : A) → IsSome (f a))
    → IsSome (m >>= f)
IsSome-bind none f m-some h = elim m-some [ ]
IsSome-bind (some a) f m-some h = h a

result-of :
    {A : Type 0} (P : A → Type 0) (m : Option A)
    → IsSome m
    → Ensures P m
    → (a : A) × (m ≡ some a) × P a
result-of P none m-some h = elim m-some [ ]
result-of P (some a) m-some h = (a, refl, h)

module _ {N C : Type 0} ⦃F : Float N⦄ (ops : Circuit C) (replicas : List (Replica N))
    (tier : ModelTier) (stall_check : Bool) (views : ℕ → View N)
    (upstream : ℕ → Replica N → Outcome) where
  no_response-Fine :
      (bound : ℕ) (excluded : List String) (c : C)
      → Distinct excluded
      → length excluded ≤ bound
      → Ensures (Fine bound) (no_response ops replicas tier stall_check views upstream excluded c)
  unfolding no_response
  no_response-Fine bound excluded c d short = record { distinct = d; bounded = short; good = tt }

  settle-Fine :
      (bound : ℕ) (next : List String → C → Option (Retried N C)) (excluded : List String) (c : C)
      (r : Replica N) (answer : Option ℕ)
      → ((c' : C) → Ensures (Fine bound) (next (r.id ∷ excluded) c'))
      → ((status : ℕ) → answer ≡ some status → status < 500)
      → Distinct excluded
      → member excluded r.id ≡ false
      → length excluded < bound
      → Ensures
          (Fine bound)
          (settle ops replicas tier stall_check views upstream next excluded c r answer)
  unfolding settle
  settle-Fine bound next excluded c r (some status) rest below d fresh short =
      Ensures-bind (Fine bound) (ops.record_success c r.id) _
        (λ c'. record { distinct = d; bounded = short; good = (below status refl, fresh) })
  settle-Fine bound next excluded c r none rest below d fresh short =
      Ensures-bind (Fine bound) (ops.record_failure c r.id) _ rest

  try_picked-Fine :
      (bound : ℕ) (next : List String → C → Option (Retried N C)) (attempt : ℕ)
      (excluded : List String) (c : C) (picked : Option (Replica N))
      → ((ex : List String) (c' : C)
          → Distinct ex
          → length ex ≡ suc (length excluded)
          → Ensures (Fine bound) (next ex c'))
      → ((r : Replica N) → picked ≡ some r → member excluded r.id ≡ false)
      → Distinct excluded
      → length excluded < bound
      → Ensures
          (Fine bound)
          (try_picked ops replicas tier stall_check views upstream next attempt excluded c picked)
  unfolding try_picked
  try_picked-Fine bound next attempt excluded c none rest fresh d short =
      no_response-Fine bound excluded c d (omega arith)
  try_picked-Fine bound next attempt excluded c (some r) rest fresh d short =
      elim (Bool-cases (str_eq r.id "")) [
        | inl e ↦ rw e (no_response-Fine bound excluded c d (omega arith))
        | inr e ↦ rw e (
            settle-Fine bound next excluded c r (accepted stall_check (upstream attempt r))
              (λ c'. rest (r.id ∷ excluded) c' (fresh r refl, d) refl)
              (accepted_below stall_check (upstream attempt r)) d (fresh r refl) short)
      ]

  pick-fresh :
      All IsNamed replicas
      → (attempt : ℕ) (excluded : List String) (c : C) (r : Replica N)
      → (pick ops.allow (views attempt) tier (member excluded) c replicas).0 ≡ some r
      → member excluded r.id ≡ false
  pick-fresh ids attempt excluded c r found =
      usable-fresh (views attempt) (member excluded) r
        (pick-usable ops.allow (views attempt) tier (member excluded) c replicas r ids found).1

  loop-Fine :
      All IsNamed replicas
      → (rounds attempt : ℕ) (excluded : List String) (c : C) (bound : ℕ) → Distinct excluded
      → length excluded + rounds ≤ bound
      → Ensures
          (Fine bound)
          (retry_loop ops replicas tier stall_check views upstream rounds attempt excluded c)
  unfolding retry_loop
  loop-Fine ids zero attempt excluded c bound d short =
      no_response-Fine bound excluded c d (omega arith)
  loop-Fine ids (suc rounds) attempt excluded c bound d short =
      let p = pick ops.allow (views attempt) tier (member excluded) c replicas in
      try_picked-Fine bound
        (retry_loop ops replicas tier stall_check views upstream rounds (attempt + 1)) attempt
        excluded p.1 p.0
        (λ ex c' distinct longer.
          loop-Fine ids rounds (attempt + 1) ex c' bound distinct (omega arith))
        (pick-fresh ids attempt excluded c) d (omega arith)

  try_picked-IsSome :
      (next : List String → C → Option (Retried N C)) (attempt : ℕ) (excluded : List String) (c : C)
      (picked : Option (Replica N))
      → ((c : C) (id : String) → IsSome (ops.record_success c id))
      → ((c : C) (id : String) → IsSome (ops.record_failure c id))
      → ((ex : List String) (c' : C) → IsSome (next ex c'))
      → IsSome
          (try_picked ops replicas tier stall_check views upstream next attempt excluded c picked)
  unfolding no_response try_picked settle
  try_picked-IsSome next attempt excluded c none ok fail rest = tt
  try_picked-IsSome next attempt excluded c (some r) ok fail rest =
      elim (Bool-cases (str_eq r.id "")) [
        | inl e ↦ rw e tt
        | inr e ↦ elim (Option-cases (accepted stall_check (upstream attempt r))) [
          | inl refused ↦
              rw (e, refused)
                (IsSome-bind (ops.record_failure c r.id) _ (fail c r.id)
                  (λ c'. rest (r.id ∷ excluded) c'))
          | inr (status, fine) ↦
              rw (e, fine) (IsSome-bind (ops.record_success c r.id) _ (ok c r.id) (λ c'. tt))
        ]
      ]

  loop-IsSome :
      ((c : C) (id : String) → IsSome (ops.record_success c id))
      → ((c : C) (id : String) → IsSome (ops.record_failure c id))
      → (rounds attempt : ℕ) (excluded : List String) (c : C)
      → IsSome (retry_loop ops replicas tier stall_check views upstream rounds attempt excluded c)
  unfolding retry_loop no_response
  loop-IsSome ok fail zero attempt excluded c = tt
  loop-IsSome ok fail (suc rounds) attempt excluded c =
      let p = pick ops.allow (views attempt) tier (member excluded) c replicas in
      try_picked-IsSome
        (retry_loop ops replicas tier stall_check views upstream rounds (attempt + 1)) attempt
        excluded p.1 p.0 ok fail (loop-IsSome ok fail rounds (attempt + 1))

  -- When the replicas have ids and recording an outcome does not panic, the loop that starts with no
  -- excluded replica ends with a result in which the replicas that failed are distinct; together with
  -- the one that answered they are at most `1 + max_retries` (none at all if that is negative); and a
  -- response has a status below 500 and comes from a replica that had not failed.
  pub retry_loop_lem :
      All IsNamed replicas
      → ((c : C) (id : String) → IsSome (ops.record_success c id))
      → ((c : C) (id : String) → IsSome (ops.record_failure c id))
      → (attempts : ℤ) (c : C)
      → (out : Retried N C) × (retry_loop ops replicas tier stall_check views upstream
            (max_attempts attempts)
            0
            []
            c
          ≡ some out)
        × Fine (max_attempts attempts) out
  retry_loop_lem ids ok fail attempts c =
      let bound = max_attempts attempts in
      result-of (Fine bound) (retry_loop ops replicas tier stall_check views upstream bound 0 [] c)
        (loop-IsSome ok fail bound 0 [] c) (loop-Fine ids bound 0 [] c bound tt (omega arith))
