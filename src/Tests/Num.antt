-- ===== src/Tests/Num.antt =====
-- Numbers with three decimals, as a concrete instance of the float64 interface.
use prompt_response.Common.{
  ℕ, ◌+◌, ◌-◌, ◌*◌, ◌/◌, true, false, ◌≡◌, if◌then◌else◌, ltb, Float, ℤ, pos, negsuc, pos_part,
  neg_part, ltb_ℤ, leb_ℤ, arith,
}

abbrev difference : ℕ → ℕ → ℤ
difference a b = if ltb a b then negsuc (b - a - 1) else pos (a - b)

abbrev quotient : ℕ → ℤ → ℤ
quotient d a = difference (pos_part a / d) (neg_part a / d)

abbrev product : ℤ → ℤ → ℤ
product a b =
    difference (pos_part a * pos_part b + neg_part a * neg_part b)
      (pos_part a * neg_part b + neg_part a * pos_part b)

pub below_irrefl : (a : ℤ) → ltb_ℤ a a ≡ false
below_irrefl a = ground arith

pub below_trans : (a b c : ℤ) → ltb_ℤ a b ≡ true → ltb_ℤ b c ≡ true → ltb_ℤ a c ≡ true
below_trans a b c p q = ground arith

instance abbrev pub milli : Float ℤ
milli = record {
  of_int = λ n. pos (1000 * n);
  of_signed = λ a. product (pos 1000) a;
  trunc = λ a. quotient 1000 a;
  ratio = λ a b. pos (1000 * a / b);
  add = λ a b. difference (pos_part a + pos_part b) (neg_part a + neg_part b);
  sub = λ a b. difference (pos_part a + neg_part b) (neg_part a + pos_part b);
  mul = λ a b. quotient 1000 (product a b);
  div = λ a b. quotient (pos_part b) (product (pos 1000) a);
  neg = λ a. difference (neg_part a) (pos_part a);
  maximum = λ a b. if ltb_ℤ a b then b else a;
  lt = ltb_ℤ;
  le = leb_ℤ;
  lt_irrefl = below_irrefl;
  lt_trans = below_trans;
}
