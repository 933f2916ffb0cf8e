-- ===== src/Machine/Mult.antt =====
-- Mult of code/machine/mipssim.cc: the double-length product, a bit at a time.
pub mod Loop
pub mod Laws
use Prim.Native.Nat.{bit_and, bit_or}
use nachos.Prelude.{ℕ, zero, suc, ◌+◌, ◌-◌, ◌*◌, ◌%◌, ◌^◌, Bool, true, false, not, ◌&&◌, ◌||◌}
use nachos.Prelude.{if◌then◌else◌, ◌==◌, ltb}
use nachos.Bits.{bit_not}
use nachos.Machine.Word.{add32, is_neg, shl32, sar32, neg32}

-- `lo += bLo; if (lo < bLo) hi += 1; hi += bHi;`
unfoldable pub add_wide : ℕ → ℕ → ℕ → ℕ → ℕ × ℕ
add_wide hi lo b_hi b_lo =
    let lo' = add32 lo b_lo in (add32 (if ltb lo' b_lo then add32 hi 1 else hi) b_hi, lo')

-- `bHi <<= 1; if (bLo & 0x80000000) bHi |= 1; bLo <<= 1;`
unfoldable pub double_wide : ℕ → ℕ → ℕ × ℕ
double_wide b_hi b_lo =
    let twice = shl32 b_hi 1 in (if is_neg b_lo then bit_or twice 1 else twice, shl32 b_lo 1)

-- The loop with `left` rounds to go; its result is (hi, lo). `a` is an int, so `a >>= 1` is the
-- arithmetic shift.
unfoldable pub mult_loop : ℕ → ℕ → ℕ × ℕ → ℕ × ℕ → ℕ × ℕ
mult_loop zero a b acc = acc
mult_loop (suc left) a (b_hi, b_lo) (hi, lo) =
    let acc = (if a % 2 == 1 then add_wide hi lo b_hi b_lo else (hi, lo)) in
    let rest = mult_loop left (sar32 a 1) (double_wide b_hi b_lo) acc in
    if (a % 2 == 1) && (bit_and a 0xfffffffe == 0) then acc else rest

-- `hi = ~hi; lo = ~lo; lo++; if (lo == 0) hi++;`
unfoldable pub negate_wide : ℕ × ℕ → ℕ × ℕ
negate_wide (hi, lo) =
    let lo' = add32 (bit_not 32 lo) 1 in
    (if lo' == 0 then add32 (bit_not 32 hi) 1 else bit_not 32 hi, lo')

-- The loop, then the sign of the result.
unfoldable pub mult_magnitudes : ℕ → ℕ → Bool → ℕ × ℕ
mult_magnitudes a b negative =
    let product = mult_loop 32 a (0, b) (0, 0) in if negative then negate_wide product else product

unfoldable pub mult : ℕ → ℕ → Bool → ℕ × ℕ
mult a b signed_arith =
    if (a == 0) || (b == 0)
    then (0, 0)
    else mult_magnitudes (if signed_arith && is_neg a then neg32 a else a)
        (if signed_arith && is_neg b then neg32 b else b)
        (signed_arith && (if is_neg a then not (is_neg b) else is_neg b))
