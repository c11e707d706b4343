-- ===== src/Audit/Slots.antt =====
-- Where `Recent` finds the records: walking back from the head, round the ring.
use native.Mathlib.Nat.{mod-eq_of_lt, mod-eq-sub-mod}
use native.Mathlib.Decide.{dec_lt}
use prompt_response.Common.{ℕ, suc, ◌+◌, ◌-◌, ◌%◌, ◌≤◌, ◌<◌, ◌≡◌, ◌≢◌, ◌∙◌, arith}
use prompt_response.Audit.{slot}

slot-below : (h l i : ℕ) → h < l → i < h → slot h l i ≡ h - 1 - i
unfolding slot
slot-below h l i hl ih = omega (
  arith,
  mod-eq-sub-mod {n = h + l - 1 - i} {m = l} (omega arith),
  mod-eq_of_lt {n = h + l - 1 - i - l} {m = l} (omega arith),
)

slot-above : (h l i : ℕ) → h < l → h ≤ i → i < l → slot h l i ≡ h + l - 1 - i
unfolding slot
slot-above h l i hl hi il = mod-eq_of_lt (omega arith)

next-below : (h l : ℕ) → suc h < l → (h + 1) % l ≡ h + 1
next-below h l hl = mod-eq_of_lt (omega arith)

next-last : (h l : ℕ) → suc h ≡ l → (h + 1) % l ≡ 0
next-last h l e = omega (
  arith,
  mod-eq-sub-mod {n = h + 1} {m = l} (omega arith),
  mod-eq_of_lt {n = h + 1 - l} {m = l} (omega arith),
)

pub next-lt : (h l : ℕ) → h < l → (h + 1) % l < l
next-lt h l hl = elim (dec_lt (suc h) l) [
  | yes more ↦ omega (arith, next-below h l more)
  | no end ↦ omega (arith, next-last h l (omega arith))
]

pub slot-lt : (h l i : ℕ) → h < l → i < l → slot h l i < l
slot-lt h l i hl il = elim (dec_lt i h) [
  | yes p ↦ omega (arith, slot-below h l i hl p)
  | no p ↦ omega (arith, slot-above h l i hl (omega arith) il)
]

-- Only the first round of the next walk reads where the head is now.
pub slot-ne_head : (h l i : ℕ) → h < l → suc i < l → h ≢ slot h l i
slot-ne_head h l i hl il = elim (dec_lt i h) [
  | yes p ↦ omega (arith, slot-below h l i hl p)
  | no p ↦ omega (arith, slot-above h l i hl (omega arith) (omega arith))
]

pub slot-next_zero : (h l : ℕ) → h < l → slot ((h + 1) % l) l 0 ≡ h
slot-next_zero h l hl = elim (dec_lt (suc h) l) [
  | yes more ↦
      rw (next-below h l more) (slot-below (h + 1) l 0 (omega arith) (omega arith) ∙ omega arith)
  | no end ↦
      rw (next-last h l (omega arith))
        (slot-above 0 l 0 (omega arith) (omega arith) (omega arith) ∙ omega arith)
]

-- The next walk reads in round `i + 1` what this one reads in round `i`.
pub slot-next_suc : (h l i : ℕ) → h < l → suc i < l → slot ((h + 1) % l) l (suc i) ≡ slot h l i
slot-next_suc h l i hl il = elim (dec_lt (suc h) l) [
  | yes more ↦ rw (next-below h l more) (elim (dec_lt i h) [
    | yes p ↦
        omega
          (arith, slot-below h l i hl p, slot-below (h + 1) l (suc i) (omega arith) (omega arith))
    | no p ↦ omega (
      arith,
      slot-above h l i hl (omega arith) (omega arith),
      slot-above (h + 1) l (suc i) (omega arith) (omega arith) il,
    )
  ])
  | no end ↦ rw (next-last h l (omega arith)) (
      omega (
        arith,
        slot-below h l i hl (omega arith),
        slot-above 0 l (suc i) (omega arith) (omega arith) il,
      ))
]
