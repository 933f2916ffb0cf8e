-- ===== src/Machine/Exec/Safety/Words.antt =====
-- The results of the operations on words, and their range.
use Prim.Native.Nat.{bit_and, bit_or, bit_xor}
use native.Mathlib.Nat.{mod-le, div-le_self}
use nachos.Prelude.{ℕ, ◌^◌, ◌<◌, inl, inr, Bool, true, false, ◌||◌, arith, ◌==◌, Bool-cases}
use nachos.Bits.{bit_and-le, bit_or-lt, bit_xor-lt}
use nachos.Machine.Word.{sar32, magnitude}
use nachos.Machine.Mult.{mult_loop, negate_wide, mult_magnitudes, mult}
use nachos.Machine.Mult.Loop.{IsWide, mult_loop-product}
use nachos.Machine.Exec.Arith.{div_int, rem_int}

pub bit_and-word : (a b : ℕ) → a < 2 ^ 32 → bit_and a b < 2 ^ 32
bit_and-word a b h = omega (arith, bit_and-le a b a (omega arith))

pub bit_or-word : (a b : ℕ) → a < 2 ^ 32 → b < 2 ^ 32 → bit_or a b < 2 ^ 32
bit_or-word = bit_or-lt 32

pub bit_xor-word : (a b : ℕ) → a < 2 ^ 32 → b < 2 ^ 32 → bit_xor a b < 2 ^ 32
bit_xor-word = bit_xor-lt 32

pub sar32-word : (a k : ℕ) → a < 2 ^ 32 → sar32 a k < 2 ^ 32
sar32-word a k h = ground (arith, div-le_self a (2 ^ k))

pub div_int-word : (a b : ℕ) → a < 2 ^ 32 → div_int a b < 2 ^ 32
unfolding div_int
div_int-word a b h = ground (arith, div-le_self (magnitude a) (magnitude b))

pub rem_int-word : (a b : ℕ) → a < 2 ^ 32 → rem_int a b < 2 ^ 32
unfolding rem_int
rem_int-word a b h = ground (arith, mod-le (magnitude a) (magnitude b))

negate_wide-IsWide : (p : ℕ × ℕ) → IsWide p → IsWide (negate_wide p)
unfolding negate_wide
negate_wide-IsWide p h = ground arith

magnitudes_lem :
    (x y : ℕ) (negative : Bool)
    → IsWide (mult_loop 32 x (0, y) (0, 0))
    → IsWide (mult_magnitudes x y negative)
unfolding mult_magnitudes
magnitudes_lem x y true h = negate_wide-IsWide (mult_loop 32 x (0, y) (0, 0)) h
magnitudes_lem x y false h = h

pub mult-IsWide : (a b : ℕ) (s : Bool) → a < 2 ^ 32 → b < 2 ^ 32 → IsWide (mult a b s)
unfolding mult
mult-IsWide a b s ha hb = elim (Bool-cases ((a == 0) || (b == 0))) [
  | inl z ↦ rw z (omega arith)
  | inr nz ↦ rw nz (magnitudes _ _ _ (ground arith) (ground arith))
]
  where
    magnitudes :
        (x y : ℕ) (negative : Bool)
        → x < 2 ^ 32
        → y < 2 ^ 32
        → IsWide (mult_magnitudes x y negative)
    magnitudes x y negative hx hy = magnitudes_lem x y negative (mult_loop-product x y hx hy).0
