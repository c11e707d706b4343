-- ===== src/Common/Numbers.antt =====
-- Go's float64, as an interface: the operations that the program applies, and the two laws of `<`
-- that IEEE 754 comparison has at every value, NaN included.
use Prim.Native.Nat.{ℕ}
use mathlib.Core.Path.{◌≡◌}
use mathlib.Core.Bool.{Bool, true, false}
use prompt_response.Common.Int.{ℤ}

pub record Float (N : Type 0) : Type 0 where
  pub of_int : ℕ → N
  pub of_signed : ℤ → N
  pub trunc : N → ℤ
  pub ratio : ℕ → ℕ → N  -- the literal nearest to a fraction, as 0.35 = ratio 35 100
  pub add : N → N → N
  pub sub : N → N → N
  pub mul : N → N → N
  pub div : N → N → N
  pub neg : N → N
  pub maximum : N → N → N
  pub lt : N → N → Bool
  pub le : N → N → Bool
  pub lt_irrefl : (a : N) → lt a a ≡ false
  pub lt_trans : (a b c : N) → lt a b ≡ true → lt b c ≡ true → lt a c ≡ true
