-- ===== src/Machine/Mult/Loop.antt =====
-- The loop of Mult, code/machine/mipssim.cc, over the digits of one factor.
use Prim.Native.Nat.{bit_and}
use native.Mathlib.Nat.{pow-suc, one-le-pow}
use nachos.Prelude.{
  ℕ, zero, suc, ◌+◌, ◌-◌, ◌*◌, ◌/◌, ◌%◌, ◌^◌, ◌≤◌, ◌<◌, ◌≡◌, refl, ap, ◌∙◌, inl, inr, true, arith,
  ◌==◌, Bool-cases,
}
use nachos.Bits.{bit_or-one, bit_and-ones, bit_and_step, mod-pow_suc, mod-add_pow}
use nachos.Machine.Word.{is_neg, shl32, sar32}
use nachos.Machine.Mult.{add_wide, double_wide, mult_loop}

-- The number that a pair of words stands for.
abbrev pub wide : ℕ × ℕ → ℕ
wide (hi, lo) = hi * 2 ^ 32 + lo

abbrev pub IsWide : ℕ × ℕ → Type 0
IsWide (hi, lo) = (hi < 2 ^ 32) × (lo < 2 ^ 32)

add_wide_lem :
    (hi lo b_hi b_lo : ℕ)
    → IsWide (hi, lo)
    → IsWide (b_hi, b_lo)
    → wide (hi, lo) + wide (b_hi, b_lo) < 2 ^ 64
    → IsWide (add_wide hi lo b_hi b_lo)
      × (wide (add_wide hi lo b_hi b_lo) ≡ wide (hi, lo) + wide (b_hi, b_lo))
unfolding add_wide
add_wide_lem hi lo b_hi b_lo p q h = ground arith

double_wide_lem :
    (b_hi b_lo : ℕ)
    → IsWide (b_hi, b_lo)
    → 2 * wide (b_hi, b_lo) < 2 ^ 64
    → IsWide (double_wide b_hi b_lo) × (wide (double_wide b_hi b_lo) ≡ 2 * wide (b_hi, b_lo))
unfolding double_wide
double_wide_lem b_hi b_lo q h = ground (arith, bit_or-one (shl32 b_hi 1) (omega arith))

-- The arithmetic shift and the unsigned one agree on the digits that are left.
sar32-mod : (a k : ℕ) → a < 2 ^ 32 → k ≤ 31 → sar32 a 1 % 2 ^ k ≡ a / 2 % 2 ^ k
sar32-mod a k h le = elim (Bool-cases (is_neg a)) [
  | inl neg ↦ rw neg (
      ap (λ n. n % 2 ^ k) {x = 2 ^ 32 - 1 - (2 ^ 32 - 1 - a) / 2 ^ 1} {y = a / 2 + 2 ^ 31}
        (ground arith)
      ∙ mod-add_pow k 31 (a / 2) le)
  | inr nonneg ↦ rw nonneg refl
]

sar32-lt : (a : ℕ) → a < 2 ^ 32 → sar32 a 1 < 2 ^ 32
sar32-lt a h = ground arith

-- The test `(a & 0xfffffffe) == 0`.
last_digit : (a : ℕ) → a < 2 ^ 32 → (bit_and a 0xfffffffe == 0) ≡ true → a / 2 ≡ 0
last_digit a h e = ground (arith, bit_and_step a 0xfffffffe, bit_and-ones 31 (a / 2))

-- What the rest of the loop has to give: the accumulator and the product of `rest` and b.
abbrev Adds : ℕ → ℕ × ℕ → ℕ × ℕ → ℕ × ℕ → Type 0
Adds digits b acc out = IsWide out × (wide out ≡ wide acc + digits * wide b)

module _ (left a : ℕ) (b acc : ℕ × ℕ) where
  -- The product by the digits of a, the lowest one apart.
  product-suc : a % 2 ^ suc left * wide b ≡ a % 2 * wide b + 2 * (a / 2 % 2 ^ left * wide b)
  product-suc = omega (arith, ap (λ n. n * wide b) (mod-pow_suc a left))

  -- Once the lowest digit has been dealt with, the others meet twice b.
  total-suc :
      (acc1 : ℕ × ℕ)
      → a < 2 ^ 32
      → left ≤ 31
      → wide acc1 ≡ wide acc + a % 2 * wide b
      → wide (double_wide b.0 b.1) ≡ 2 * wide b
      → wide acc1 + sar32 a 1 % 2 ^ left * wide (double_wide b.0 b.1)
        ≡ wide acc + a % 2 ^ suc left * wide b
  total-suc acc1 ha le e d = omega (
    arith,
    product-suc,
    ap (λ n. n * wide (double_wide b.0 b.1)) (sar32-mod a left ha le),
    ap (λ n. a / 2 % 2 ^ left * n) d,
  )

  -- The bounds for the next round.
  room-suc : wide b * 2 ^ suc left < 2 ^ 64 → (2 * wide b) * 2 ^ left < 2 ^ 64
  room-suc h = omega (arith, ap (λ n. wide b * n) (pow-suc 2 left))

  room-double : wide b * 2 ^ suc left < 2 ^ 64 → 2 * wide b < 2 ^ 64
  room-double h = grind (arith, room-suc, one-le-pow left 2)

-- The loop adds to the accumulator the product of the digits that are left and of b.
mult_loop_lem :
    (left a : ℕ) (b acc : ℕ × ℕ)
    → left ≤ 32
    → a < 2 ^ 32
    → IsWide b
    → IsWide acc
    → wide b * 2 ^ left < 2 ^ 64
    → wide acc + a % 2 ^ left * wide b < 2 ^ 64
    → Adds (a % 2 ^ left) b acc (mult_loop left a b acc)
unfolding mult_loop
mult_loop_lem zero a b acc le ha hb hacc room fits =
    (hacc, omega (arith, ap (λ n. n * wide b) {x = a % 2 ^ 0} {y = 0} (omega arith)))
mult_loop_lem (suc left) a b acc le ha hb hacc room fits = elim (Bool-cases (a % 2 == 1)) [
  | inl odd ↦
      let one : a % 2 * wide b ≡ wide b =
        ap (λ n. n * wide b) {x = a % 2} {y = 1} (ground arith) ∙ omega arith in
      let (w1, e1) =
        add_wide_lem acc.0 acc.1 b.0 b.1 hacc hb (omega (arith, one, product-suc left a b acc)) in
      elim (Bool-cases (bit_and a 0xfffffffe == 0)) [
        | inl done ↦
            rw (odd, done)
              (
                w1,
                omega (
                  arith,
                  e1,
                  one,
                  product-suc left a b acc,
                  ap (λ n. n * wide b) {x = a / 2 % 2 ^ left} {y = 0}
                      (omega (arith, last_digit a ha done)),
                ),
              )
        | inr more ↦
            rw (odd, more)
              (next (add_wide acc.0 acc.1 b.0 b.1) w1 (omega (arith, e1, one)) (
                mult_loop_lem left (sar32 a 1) (double_wide b.0 b.1)
                  (add_wide acc.0 acc.1 b.0 b.1)))
      ]
  | inr even ↦
      let zero_digit : a % 2 * wide b ≡ 0 =
        ap (λ n. n * wide b) {x = a % 2} {y = 0} (ground arith) ∙ omega arith in
      rw even (
        next acc hacc (omega (arith, zero_digit))
          (mult_loop_lem left (sar32 a 1) (double_wide b.0 b.1) acc))
]
  where
    -- The next rounds, from what they do to their own accumulator.
    next :
        (acc1 : ℕ × ℕ)
        → IsWide acc1
        → wide acc1 ≡ wide acc + a % 2 * wide b
        → (left ≤ 32
            → sar32 a 1 < 2 ^ 32
            → IsWide (double_wide b.0 b.1)
            → IsWide acc1
            → wide (double_wide b.0 b.1) * 2 ^ left < 2 ^ 64
            → wide acc1 + sar32 a 1 % 2 ^ left * wide (double_wide b.0 b.1) < 2 ^ 64
            → Adds
                (sar32 a 1 % 2 ^ left)
                (double_wide b.0 b.1)
                acc1
                (mult_loop left (sar32 a 1) (double_wide b.0 b.1) acc1))
        → Adds (a % 2 ^ suc left) b acc (mult_loop left (sar32 a 1) (double_wide b.0 b.1) acc1)
    next acc1 w e ih =
        let (dw, d) = double_wide_lem b.0 b.1 hb (room-double left a b acc room) in
        let total = total-suc left a b acc acc1 ha (omega arith) e d in
        let (out, eq) =
          ih (omega arith) (sar32-lt a ha) dw w
            (omega (arith, room-suc left a b acc room, ap (λ n. n * 2 ^ left) d))
            (omega (arith, total)) in
        (out, eq ∙ total)

-- The loop started by Mult gives the product.
pub mult_loop-product :
    (a b : ℕ)
    → a < 2 ^ 32
    → b < 2 ^ 32
    → IsWide (mult_loop 32 a (0, b) (0, 0)) × (wide (mult_loop 32 a (0, b) (0, 0)) ≡ a * b)
mult_loop-product a b ha hb =
    let small : a * b ≤ (2 ^ 32 - 1) * (2 ^ 32 - 1) = grind arith in
    let digits : a % 2 ^ 32 * b ≡ a * b = ap (λ n. n * b) {x = a % 2 ^ 32} {y = a} (omega arith) in
    let (w, e) =
      mult_loop_lem 32 a (0, b) (0, 0) (omega arith) ha (omega arith) (omega arith) (omega arith)
        (omega (arith, digits)) in
    (w, e ∙ omega (arith, digits))
