-- ===== src/RateLimit/Bounds.antt =====
-- How many requests a bucket lets through, and that it never starves a caller who waits.
use native.Mathlib.Nat.{add-mul}
use mathlib.Core.Path.{subst₂}
use prompt_response.Common.{
  ℕ, suc, ◌+◌, ◌-◌, ◌*◌, ◌≤◌, ◌≡◌, sym, ap, subst, ◌∙◌, Bool, true, false, List, [], ◌∷◌,
  if◌then◌else◌, leb, arith,
}
use prompt_response.RateLimit.{TokenBucket, unit, refilled, allow, new_bucket}

-- A bucket that holds no more than its capacity.
abbrev pub IsFilled : TokenBucket → Type 0
IsFilled b = b.tokens ≤ b.capacity

-- The calls of `Allow` at the times of a list: how many were permitted, and the bucket after them.
unfoldable pub calls : TokenBucket → List ℕ → ℕ × TokenBucket
calls b [] = (0, b)
calls b (t ∷ ts) =
    let (ok, remaining, b') = allow b t in
    let (n, b'') = calls b' ts in ((if ok then suc n else n), b'')

-- Times that do not go back, from a first one to a last one.
abbrev pub Runs : ℕ → List ℕ → ℕ → Type 0
Runs from [] until = from ≤ until
Runs from (t ∷ ts) until = (from ≤ t) × Runs t ts until

pub until-le : (from until : ℕ) (ts : List ℕ) → Runs from ts until → from ≤ until
until-le from until [] r = r
until-le from until (t ∷ ts) r = omega (arith, r.0, until-le t until ts r.1)

pub one_call :
    (b : TokenBucket) (t : ℕ)
    → let (ok, remaining, b') = allow b t in
      ((if ok then unit else 0) + b'.tokens ≤ b.tokens + (t - b.last) * b.rate)
      × (b'.rate ≡ b.rate)
      × (b'.last ≡ t)
      × (b'.capacity ≡ b.capacity)
      × IsFilled b'
unfolding allow
one_call b t = ground arith

pub time_splits : (l t u r : ℕ) → l ≤ t → t ≤ u → (t - l) * r + (u - t) * r ≡ (u - l) * r
time_splits l t u r lt tu = sym (ap (λ k. k * r) (parts) ∙ add-mul (t - l) (u - t) r)
  where
    parts : u - l ≡ (t - l) + (u - t)
    parts = omega arith

count_one :
    (ok : Bool) (n : ℕ) → (if ok then suc n else n) * unit ≡ n * unit + (if ok then unit else 0)
count_one true n = omega arith
count_one false n = omega arith

calls_bounded :
    (ts : List ℕ) (b : TokenBucket) (until : ℕ)
    → Runs b.last ts until
    → (calls b ts).0 * unit + (calls b ts).1.tokens ≤ b.tokens + (until - b.last) * b.rate
unfolding calls
calls_bounded [] b until r = omega arith
calls_bounded (t ∷ ts) b until r =
    let b' = (allow b t).2 in
    let (spent, rate, last, cap, filled) = one_call b t in
    let later : (calls b' ts).0 * unit + (calls b' ts).1.tokens ≤ b'.tokens + (until - t) * b.rate =
      subst₂ (λ l k. (calls b' ts).0 * unit + (calls b' ts).1.tokens ≤ b'.tokens + (until - l) * k)
        last rate (calls_bounded ts b' until (subst (λ l. Runs l ts until) (sym last) r.1)) in
    omega (
      arith,
      spent,
      later,
      count_one (allow b t).0 (calls b' ts).0,
      time_splits b.last t until b.rate r.0 (until-le t until ts r.1),
    )

-- From a full bucket, the number of requests permitted up to a time, counted in parts of a token, is
-- at most the capacity and what has flowed in since: no schedule of calls gets more than the burst
-- and the steady rate. The clock does not go back.
pub permitted_bounded :
    (capacity rate from until : ℕ) (ts : List ℕ)
    → Runs from ts until
    → (calls (new_bucket capacity rate from) ts).0 * unit ≤ capacity + (until - from) * rate
unfolding new_bucket
permitted_bounded capacity rate from until ts r =
    omega (arith, calls_bounded ts (new_bucket capacity rate from) until r)

-- A call permits the request exactly if the refilled bucket holds a token, and then takes one, and
-- otherwise none. Either way the bucket holds no more than its capacity, which stays as it was, and
-- remembers the time.
pub allow_lem :
    (b : TokenBucket) (now : ℕ)
    → let (ok, remaining, b') = allow b now in
      (ok ≡ leb unit (refilled b now))
      × (b'.tokens + (if ok then unit else 0) ≡ refilled b now)
      × (b'.tokens ≤ b'.capacity)
      × (b'.capacity ≡ b.capacity)
      × (b'.rate ≡ b.rate)
      × (b'.last ≡ now)
unfolding allow
allow_lem b now = ground arith
