-- ===== src/Bits/Step.antt =====
-- The native operations on digits, one digit at a time.
use Prim.Native.Nat.{
  digits, bit_and, bit_or, bit_xor, bit_and-bitwise, bit_or-bitwise, bit_xor-bitwise,
}
pub use Prim.Native.Nat.{differ}
use nachos.Prelude.{ℕ, zero, suc, ◌+◌, ◌*◌, ◌/◌, ◌%◌, ◌≤◌, min, max, ◌≡◌, refl, ap, arith, ◌<◌}

module _ (rest : ℕ → ℕ) (f : ℕ → ℕ → ℕ) where
  -- The fuel does not matter once it is as large as the first number.
  digits-fuel : (k j x y : ℕ) → x ≤ k → x ≤ j → digits rest f k x y ≡ digits rest f j x y
  digits-fuel (suc k) (suc j) (suc x) y p q =
      ap (λ t. t * 2 + f (suc x % 2) (y % 2))
        (digits-fuel k j (suc x / 2) (y / 2) (omega arith) (omega arith))
  digits-fuel (suc k) (suc j) zero y p q = refl
  digits-fuel (suc k) zero (suc x) y p q = elim q [ ]
  digits-fuel (suc k) zero zero y p q = refl
  digits-fuel zero (suc j) (suc x) y p q = elim p [ ]
  digits-fuel zero (suc j) zero y p q = refl
  digits-fuel zero zero (suc x) y p q = elim p [ ]
  digits-fuel zero zero zero y p q = refl

  digits-suc :
      (a b : ℕ)
      → digits rest f (suc a) (suc a) b
        ≡ digits rest f (suc a / 2) (suc a / 2) (b / 2) * 2 + f (suc a % 2) (b % 2)
  digits-suc a b =
      ap (λ t. t * 2 + f (suc a % 2) (b % 2))
        (digits-fuel a (suc a / 2) (suc a / 2) (b / 2) (omega arith) (omega arith))

pub bit_xor_step : (x y : ℕ) → differ (x % 2) (y % 2) + 2 * bit_xor (x / 2) (y / 2) ≡ bit_xor x y
bit_xor_step zero y = simp bit_xor-bitwise (omega arith)
bit_xor_step (suc x) y = simp bit_xor-bitwise (omega (arith, digits-suc (λ n. n) differ x y))

pub bit_and_step : (x y : ℕ) → min (x % 2) (y % 2) + 2 * bit_and (x / 2) (y / 2) ≡ bit_and x y
bit_and_step zero y = simp bit_and-bitwise (omega arith)
bit_and_step (suc x) y = simp bit_and-bitwise (omega (arith, digits-suc (λ _. 0) min x y))

pub bit_or_step : (x y : ℕ) → max (x % 2) (y % 2) + 2 * bit_or (x / 2) (y / 2) ≡ bit_or x y
bit_or_step zero y = simp bit_or-bitwise (omega arith)
bit_or_step (suc x) y = simp bit_or-bitwise (omega (arith, digits-suc (λ n. n) max x y))

pub differ-lt : (x y : ℕ) → x < 2 → y < 2 → differ x y < 2
differ-lt zero y p q = q
differ-lt (suc x) zero p q = p
differ-lt (suc x) (suc y) p q = differ-lt x y (omega arith) (omega arith)
