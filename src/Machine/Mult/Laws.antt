-- ===== src/Machine/Mult/Laws.antt =====
-- Mult of code/machine/mipssim.cc against the product of numbers.
use nachos.Prelude.{
  ℕ, zero, suc, ◌-◌, ◌*◌, ◌^◌, ◌≤◌, ◌<◌, ◌≡◌, ap, ◌∙◌, ◌≢◌, Bool, true, false, not, arith,
  if◌then◌else◌, leb, ℤ, pos, negsuc, ◌*ℤ◌,
}
use native.Mathlib.Decide.{ℕ_discrete}
use nachos.Machine.Word.{is_neg, neg32, signed}
use nachos.Machine.Mult.{mult_loop, negate_wide, mult_magnitudes, mult}
use nachos.Machine.Mult.Loop.{wide, IsWide, mult_loop-product}

-- The two's complement of a double word.
negate_wide_lem : (p : ℕ × ℕ) → IsWide p → 0 < wide p → wide (negate_wide p) ≡ 2 ^ 64 - wide p
unfolding negate_wide
negate_wide_lem p w h = ground arith

-- MULTU: HiReg and LoReg hold the unsigned product.
pub mult_unsigned : (a b : ℕ) → a < 2 ^ 32 → b < 2 ^ 32 → wide (mult a b false) ≡ a * b
unfolding mult mult_magnitudes
mult_unsigned a b ha hb = elim (ℕ_discrete a 0) [
  | yes e ↦ rw e (omega arith)
  | no na ↦ elim (ℕ_discrete b 0) [
    | yes e ↦ rw e (ground arith)
    | no nb ↦ ground (arith, mult_loop-product a b ha hb)
  ]
]

-- The integer of a double word.
abbrev pub signed_wide : ℕ × ℕ → ℤ
signed_wide p = if leb (2 ^ 63) (wide p) then negsuc (2 ^ 64 - wide p - 1) else pos (wide p)

-- The product of two integers, by the signs and the magnitudes.
abbrev of_sign : Bool → ℕ → ℤ
of_sign true x = negsuc (x - 1)
of_sign false x = pos x

of_sign-*ℤ :
    (s t : Bool) (x y : ℕ)
    → 0 < x
    → 0 < y
    → of_sign s x *ℤ of_sign t y ≡ of_sign (if s then not t else t) (x * y)
unfolding ◌*ℤ◌
of_sign-*ℤ s t zero y hx hy = elim hx [ ]
of_sign-*ℤ s t (suc x) zero hx hy = elim hy [ ]
of_sign-*ℤ true true (suc x) (suc y) hx hy = ground arith
of_sign-*ℤ true false (suc x) (suc y) hx hy = ground arith
of_sign-*ℤ false true (suc x) (suc y) hx hy = ground arith
of_sign-*ℤ false false (suc x) (suc y) hx hy = ground arith

-- What Mult makes of a negative factor.
abbrev signed_factor : ℕ → ℕ
signed_factor a = if is_neg a then neg32 a else a

signed-of_sign : (a : ℕ) → a < 2 ^ 32 → signed a ≡ of_sign (is_neg a) (signed_factor a)
signed-of_sign a h = ground arith

-- The sign of Mult's result is put back.
mult_magnitudes-of_sign :
    (x y : ℕ) (negative : Bool)
    → 0 < x
    → x ≤ 2 ^ 31
    → 0 < y
    → y ≤ 2 ^ 31
    → signed_wide (mult_magnitudes x y negative) ≡ of_sign negative (x * y)
unfolding mult_magnitudes
mult_magnitudes-of_sign x y negative hx lx hy ly = restore negative
  where
    product : ℕ × ℕ
    product = mult_loop 32 x (0, y) (0, 0)

    small : x * y ≤ 2 ^ 62
    small = grind arith

    positive : 0 < x * y
    positive = grind arith

    facts : IsWide product × (wide product ≡ x * y)
    facts = mult_loop-product x y (omega arith) (omega arith)

    restore :
        (s : Bool) → signed_wide (if s then negate_wide product else product) ≡ of_sign s (x * y)
    restore true = ground (arith, small, positive, facts, negate_wide_lem product)
    restore false = ground (arith, small, positive, facts)

mult_zero_left : (b : ℕ) → signed_wide (mult 0 b true) ≡ signed 0 *ℤ signed b
unfolding mult ◌*ℤ◌
mult_zero_left b = ground arith

mult_zero_right : (a : ℕ) → signed_wide (mult a 0 true) ≡ signed a *ℤ signed 0
unfolding mult ◌*ℤ◌
mult_zero_right a = ground arith

mult_nonzero :
    (a b : ℕ)
    → a ≢ 0
    → b ≢ 0
    → mult a b true
      ≡ mult_magnitudes
          (signed_factor a)
          (signed_factor b)
          (if is_neg a then not (is_neg b) else is_neg b)
unfolding mult
mult_nonzero a b na nb = ground arith

-- For all words, Mult with signedArith leaves in HiReg and LoReg the 64-bit two's complement of
-- the product of the two ints, INT_MIN included.
pub mult-signed :
    (a b : ℕ) → a < 2 ^ 32 → b < 2 ^ 32 → signed_wide (mult a b true) ≡ signed a *ℤ signed b
mult-signed a b ha hb = elim (ℕ_discrete a 0) [
  | yes e ↦ rw e (mult_zero_left b)
  | no na ↦ elim (ℕ_discrete b 0) [
    | yes e ↦ rw e (mult_zero_right a)
    | no nb ↦
        ap signed_wide (mult_nonzero a b na nb)
        ∙ mult_magnitudes-of_sign (signed_factor a) (signed_factor b) _ (ground arith)
            (ground arith) (ground arith) (ground arith)
        ∙ cc (
          of_sign-*ℤ (is_neg a) (is_neg b) (signed_factor a) (signed_factor b) (ground arith)
              (ground arith),
          signed-of_sign a ha,
          signed-of_sign b hb,
        )
  ]
]
