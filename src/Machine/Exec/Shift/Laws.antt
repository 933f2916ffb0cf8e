-- ===== src/Machine/Exec/Shift/Laws.antt =====
-- SRL of code/machine/mipssim.cc against division.
use native.Mathlib.Nat.{
  add-mul-div_right, div-eq_of_lt, mod-add-div', mod-lt, div-lt_iff_lt-mul, one-le-pow, pow-suc,
  pow-le-pow_right,
}
use Prim.Native.Nat.{zero, suc}
use nachos.Prelude.{
  ℕ, ◌+◌, ◌-◌, ◌*◌, ◌/◌, ◌%◌, ◌^◌, ◌≤◌, ◌<◌, ◌≡◌, ap, ◌∙◌, Bool, true, false, arith, if◌then◌else◌,
}
use nachos.Machine.{Machine, put}
use nachos.Machine.Word.{is_neg, sar32}
use nachos.Machine.Decode.{Instruction}
use nachos.Machine.Exec.Effect.{advance}
use nachos.Machine.Exec.Shift.{exec_srl}

-- Division of a number that is given by its quotient and remainder.
div_of_digits : (p d s : ℕ) → s < p → (s + d * p) / p ≡ d
div_of_digits p d s h =
    omega (arith, add-mul-div_right s d {z = p} (omega (arith, h)), div-eq_of_lt h)

-- The complement of a number below m * p, divided by p.
div_of_complement : (p m q r : ℕ) → r < p → q < m → (m * p - 1 - (r + q * p)) / p ≡ m - 1 - q
div_of_complement p m q r hr hq =
    ap (λ (n : ℕ). n / p) split ∙ div_of_digits p (m - 1 - q) (p - 1 - r) (omega (arith, hr))
  where
    products : (d : ℕ) → m ≡ d + 1 + q → m * p ≡ d * p + p + q * p
    products d e = rw e (grind arith)

    split : m * p - 1 - (r + q * p) ≡ (p - 1 - r) + (m - 1 - q) * p
    split = omega (arith, hr, hq, products (m - 1 - q) (omega (arith, hq)))

pow_add : (k n : ℕ) → 2 ^ k * 2 ^ n ≡ 2 ^ (k + n)
pow_add zero n = omega (arith, ap (λ (m : ℕ). 2 ^ m) {x = n} {y = zero + n} (omega arith))
pow_add (suc k) n = rw (pow-suc 2 k) (
    omega (
      arith,
      twice (2 ^ k) (2 ^ n),
      pow_add k n,
      pow-suc 2 (k + n),
      ap (λ (m : ℕ). 2 ^ m) {x = suc (k + n)} {y = suc k + n} (omega arith),
    ))
  where
    twice : (x y : ℕ) → x * 2 * y ≡ 2 * (x * y)
    twice x y = grind arith

fills_by_sign :
    (s : Bool) (m q d : ℕ)
    → m ≤ 2 ^ 32
    → q < m
    → d ≡ m - 1 - q
    → (if s then 2 ^ 32 - 1 - d else q) ≡ q + (if s then 2 ^ 32 - m else 0)
fills_by_sign true m q d le lt e = omega (arith, le, lt, e)
fills_by_sign false m q d le lt e = omega arith

-- `>>=` on an int shifts in copies of the sign.
sar32_fills :
    (a k : ℕ)
    → a < 2 ^ 32
    → k < 32
    → sar32 a k ≡ a / 2 ^ k + (if is_neg a then 2 ^ 32 - 2 ^ (32 - k) else 0)
sar32_fills a k ha hk =
    fills_by_sign (is_neg a) (2 ^ (32 - k)) (a / 2 ^ k) ((2 ^ 32 - 1 - a) / 2 ^ k)
      (pow-le-pow_right {n = 2} (omega arith) {i = 32 - k} {j = 32} (omega arith)) small negative
  where
    full : 2 ^ (32 - k) * 2 ^ k ≡ 2 ^ 32
    full = pow_add (32 - k) k ∙ ap (λ (n : ℕ). 2 ^ n) {x = 32 - k + k} {y = 32} (omega (arith, hk))

    positive : 1 ≤ 2 ^ k
    positive = one-le-pow k 2 (omega arith)

    again : a % 2 ^ k + a / 2 ^ k * 2 ^ k ≡ a
    again = mod-add-div' a (2 ^ k)

    small : a / 2 ^ k < 2 ^ (32 - k)
    small =
        (div-lt_iff_lt-mul {k = 2 ^ k} {x = a} {y = 2 ^ (32 - k)} (omega (arith, positive))).1
          (rw full ha)

    negative : (2 ^ 32 - 1 - a) / 2 ^ k ≡ 2 ^ (32 - k) - 1 - a / 2 ^ k
    negative =
        ap (λ (n : ℕ). n / 2 ^ k) {y = 2 ^ (32 - k) * 2 ^ k - 1 - (a % 2 ^ k + a / 2 ^ k * 2 ^ k)}
          (omega (arith, full, again))
        ∙ div_of_complement (2 ^ k) (2 ^ (32 - k)) (a / 2 ^ k) (a % 2 ^ k)
            (mod-lt a (omega (arith, positive))) small

-- SRL of a word by less than 32 places leaves in rd the quotient of the word by 2 ^ places and,
-- where the word is negative, ones in the places the shift has emptied.
pub exec_srl_lem :
    (m : Machine) (i : Instruction) (pc : ℕ)
    → m.registers i.rt < 2 ^ 32
    → i.extra < 32
    → exec_srl m i pc
      ≡ advance
          (put m i.rd (
            m.registers i.rt / 2 ^ i.extra
            + (if is_neg (m.registers i.rt) then 2 ^ 32 - 2 ^ (32 - i.extra) else 0)))
          pc
unfolding exec_srl
exec_srl_lem m i pc ha hk =
    ap (λ (n : ℕ). advance (put m i.rd n) pc) (sar32_fills (m.registers i.rt) i.extra ha hk)
