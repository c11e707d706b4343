-- ===== src/RateLimit/Budget.antt =====
-- What a client may still use of its bucket, while others ask for theirs.
use prompt_response.Common.{
  ℕ, ◌+◌, ◌-◌, ◌*◌, ◌≤◌, ◌≡◌, ◌⊎◌, refl, ap, Bool, true, false, ◌∙◌, subst, String, if◌then◌else◌,
  lookup, string_eq, arith, Option-cases, inl, inr,
}
use native.Mathlib.Nat.{mul-le-mul_right}
use prompt_response.RateLimit.{
  unit, Config, TokenBucket, Registry, allow, new_bucket, new_registry, get_or_create,
}
use prompt_response.RateLimit.Bounds.{one_call, time_splits}

one_or_none : (ok : Bool) → (if ok then 1 else 0) * unit ≡ (if ok then unit else 0)
one_or_none true = omega arith
one_or_none false = omega arith

module _ (key : String) where
  -- What a request does to a client's bucket: nothing, and it does not get through as this client; or
  -- it asks the bucket at its time, and gets through if the bucket permits.
  abbrev pub Touched : ℕ → Registry → Registry → ℕ → Type 0
  Touched t reg reg' n =
      ((n ≡ 0) × ((later : ℕ) → get_or_create reg' key later ≡ get_or_create reg key later))
      ⊎ ((n ≡ (if (allow (get_or_create reg key t) t).0 then 1 else 0))
          × ((later : ℕ) → get_or_create reg' key later ≡ (allow (get_or_create reg key t) t).2))

  -- What the client may get up to a time, and that its bucket was last used in the past.
  abbrev pub spendable : ℕ → TokenBucket → ℕ
  spendable until b = b.tokens + (until - b.last) * b.rate

  abbrev pub budget : ℕ → ℕ → Registry → ℕ
  budget until now reg = spendable until (get_or_create reg key now)

  abbrev pub IsPast : ℕ → Registry → Type 0
  IsPast now reg = (get_or_create reg key now).last ≤ now

  -- A bucket is full until its first use, and otherwise as it was left.
  bucket_at :
      (reg : Registry)
      → ((now : ℕ) → get_or_create reg key now ≡ new_bucket reg.cap reg.rate now)
        ⊎ ((b : TokenBucket) × ((now : ℕ) → get_or_create reg key now ≡ b))
  unfolding get_or_create
  bucket_at reg = elim (Option-cases (lookup key reg.buckets)) [
    | inl missing ↦ inl (λ now. rw missing refl)
    | inr (b, found) ↦ inr (b, λ now. rw found refl)
  ]

  later-IsPast :
      (until now t : ℕ) (reg : Registry)
      → now ≤ t
      → IsPast now reg
      → (budget until t reg ≤ budget until now reg) × IsPast t reg
  unfolding new_bucket
  later-IsPast until now t reg h past = elim (bucket_at reg) [
    | inl full ↦
        let less : (until - t) * reg.rate ≤ (until - now) * reg.rate =
          mul-le-mul_right reg.rate (omega arith) in
        rw (full now, full t) (omega (arith, less), omega arith)
    | inr (b, same) ↦
        let before : b.last ≤ now = subst (λ (x : TokenBucket). x.last ≤ now) (same now) past in
        rw (same now, same t) (omega arith, omega (arith, before))
  ]

  -- A request takes a token of the budget if it gets through.
  pub Touched-budget :
      (until now t n : ℕ) (reg reg' : Registry)
      → now ≤ t
      → t ≤ until
      → IsPast now reg
      → Touched t reg reg' n
      → (n * unit + budget until t reg' ≤ budget until now reg) × IsPast t reg'
  Touched-budget until now t n reg reg' h end past (inl (none_through, same)) =
      let (less, past') = later-IsPast until now t reg h past in
      rw (same t) (omega (arith, less), past')
  Touched-budget until now t n reg reg' h end past (inr (through, asked)) =
      let b = get_or_create reg key t in
      let (less, past') = later-IsPast until now t reg h past in
      let (spent, rate, last, cap, filled) = one_call b t in
      let through_unit = ap (λ k. k * unit) through ∙ one_or_none (allow b t).0 in
      let split = time_splits b.last t until b.rate past' end in
      rw (asked t) (rw (rate, last) (omega (arith, less, spent, split, through_unit), omega arith))

  pub new-budget :
      (cfg : Config) (from until : ℕ)
      → (budget until from (new_registry cfg)
          ≡ cfg.burst * unit + (until - from) * cfg.requests_per_minute)
        × IsPast from (new_registry cfg)
  unfolding get_or_create new_bucket new_registry lookup
  new-budget cfg from until = (refl, omega arith)
