-- ===== src/Bits.antt =====
-- Unsigned words and their binary digits: what `&`, `|`, `^`, `~` and `1 << k` do to one digit.
pub mod Step
use native.Mathlib.Nat.{
  pow-suc, one-le-pow, mod-lt, mod-eq_of_lt, mod-add-div', add-mul-mod_self_right,
  div-div-eq-div-mul,
}
use Prim.Native.Nat.{bit_and, bit_or, bit_xor, bit_and-bitwise, bit_or-bitwise, max, min}
use nachos.Prelude.{
  ℕ, zero, suc, ◌+◌, ◌-◌, ◌*◌, ◌/◌, ◌%◌, ◌^◌, ◌≤◌, ◌<◌, ◌≡◌, refl, sym, ap, ◌∙◌, arith,
}
use nachos.Prelude.{◌≢◌}
pub use Step.{bit_and_step, bit_or_step, bit_xor_step, differ, differ-lt}

-- The binary digit of weight 2 ^ k.
abbrev pub digit : ℕ → ℕ → ℕ
digit a zero = a % 2
digit a (suc k) = digit (a / 2) k

-- `~a` at a width of w bits.
abbrev pub bit_not : ℕ → ℕ → ℕ
bit_not w a = 2 ^ w - 1 - a

pub digit-lt : (a k : ℕ) → digit a k < 2
digit-lt a zero = omega arith
digit-lt a (suc k) = digit-lt (a / 2) k

pub digit-zero : (k : ℕ) → digit 0 k ≡ 0
digit-zero zero = refl
digit-zero (suc k) = digit-zero k

pub digit-bit_or : (a b k : ℕ) → digit (bit_or a b) k ≡ max (digit a k) (digit b k)
digit-bit_or a b zero = omega (arith, bit_or_step a b)
digit-bit_or a b (suc k) =
    ap (λ n. digit n k) (omega (arith, bit_or_step a b)) ∙ digit-bit_or (a / 2) (b / 2) k

pub digit-bit_and : (a b k : ℕ) → digit (bit_and a b) k ≡ min (digit a k) (digit b k)
digit-bit_and a b zero = omega (arith, bit_and_step a b)
digit-bit_and a b (suc k) =
    ap (λ n. digit n k) (omega (arith, bit_and_step a b)) ∙ digit-bit_and (a / 2) (b / 2) k

pub digit-bit_xor : (a b k : ℕ) → digit (bit_xor a b) k ≡ differ (digit a k) (digit b k)
digit-bit_xor a b zero =
    omega (arith, bit_xor_step a b, differ-lt (a % 2) (b % 2) (omega arith) (omega arith))
digit-bit_xor a b (suc k) =
    ap (λ n. digit n k)
      (omega (arith, bit_xor_step a b, differ-lt (a % 2) (b % 2) (omega arith) (omega arith)))
    ∙ digit-bit_xor (a / 2) (b / 2) k

-- 1 << k has the one digit k.
pub digit-pow_self : (k : ℕ) → digit (2 ^ k) k ≡ 1
digit-pow_self zero = refl
digit-pow_self (suc k) = ap (λ n. digit n k) (omega (arith, pow-suc 2 k)) ∙ digit-pow_self k

pub digit-pow_ne : (k j : ℕ) → k ≢ j → digit (2 ^ k) j ≡ 0
digit-pow_ne zero zero h = absurd (h refl)
digit-pow_ne zero (suc j) h = digit-zero j
digit-pow_ne (suc k) zero h = omega (arith, pow-suc 2 k)
digit-pow_ne (suc k) (suc j) h =
    ap (λ n. digit n j) (omega (arith, pow-suc 2 k)) ∙ digit-pow_ne k j (λ e. h (ap suc e))

-- Within the width, `~` flips each digit.
pub digit-bit_not : (w a k : ℕ) → a < 2 ^ w → k < w → digit (bit_not w a) k ≡ 1 - digit a k
digit-bit_not zero a k h lt = elim lt [ ]
digit-bit_not (suc w) a zero h lt = omega (arith, pow-suc 2 w, one-le-pow w 2)
digit-bit_not (suc w) a (suc k) h lt =
    ap (λ n. digit n k) (omega (arith, pow-suc 2 w, one-le-pow w 2))
    ∙ digit-bit_not w (a / 2) k (omega (arith, pow-suc 2 w)) (omega arith)

-- A word within its width has no digit above it, and its digits give it back.
pub digit-above : (w a k : ℕ) → a < 2 ^ w → w ≤ k → digit a k ≡ 0
digit-above zero a k h le = ap (λ n. digit n k) {y = 0} (omega arith) ∙ digit-zero k
digit-above (suc w) a zero h le = elim le [ ]
digit-above (suc w) a (suc k) h le =
    digit-above w (a / 2) k (omega (arith, pow-suc 2 w)) (omega arith)

pub eq_of_digits :
    (w a b : ℕ) → a < 2 ^ w → b < 2 ^ w → ((k : ℕ) → k < w → digit a k ≡ digit b k) → a ≡ b
eq_of_digits zero a b p q h = omega arith
eq_of_digits (suc w) a b p q h = omega (
  arith,
  h 0 (omega arith),
  eq_of_digits w (a / 2) (b / 2) (omega (arith, pow-suc 2 w)) (omega (arith, pow-suc 2 w))
      (λ k lt. h (suc k) (omega arith)),
)

-- The operations stay within the width.
pub bit_or-lt : (w a b : ℕ) → a < 2 ^ w → b < 2 ^ w → bit_or a b < 2 ^ w
bit_or-lt zero zero zero p q = omega (arith)
bit_or-lt zero (suc a) b p q = absurd (omega arith)
bit_or-lt zero zero (suc b) p q = absurd (omega arith)
bit_or-lt (suc w) a b p q = omega (
  arith,
  bit_or_step a b,
  pow-suc 2 w,
  bit_or-lt w (a / 2) (b / 2) (omega (arith, pow-suc 2 w)) (omega (arith, pow-suc 2 w)),
)

pub bit_and-le : (a b n : ℕ) → a ≤ n → bit_and a b ≤ a
bit_and-le zero b n h = let e : bit_and 0 b ≡ 0 = bit_and-bitwise 0 b in omega arith
bit_and-le (suc a) b zero h = elim h [ ]
bit_and-le (suc a) b (suc n) h =
    omega (arith, bit_and_step (suc a) b, bit_and-le (suc a / 2) (b / 2) n (omega arith))

-- `x & 0`
pub bit_and-zero : (x : ℕ) → bit_and x 0 ≡ 0
bit_and-zero x = below x x (omega arith)
  where
    below : (bound x : ℕ) → x ≤ bound → bit_and x 0 ≡ 0
    below bound zero h = bit_and-bitwise 0 0
    below zero (suc x) h = elim h [ ]
    below (suc bound) (suc x) h =
        omega (arith, below bound (suc x / 2) (omega arith), bit_and_step (suc x) 0)

-- `a & (1 << k)` keeps the digit k.
pub bit_and-pow : (a k : ℕ) → bit_and a (2 ^ k) ≡ digit a k * 2 ^ k
bit_and-pow a zero = omega (arith, bit_and_step a 1, bit_and-zero (a / 2))
bit_and-pow a (suc k) = omega (
  arith,
  bit_and_step a (2 ^ suc k),
  pow-suc 2 k,
  ap (λ n. digit (a / 2) k * n) (pow-suc 2 k),
  bit_and-pow (a / 2) k,
  ap (λ n. bit_and (a / 2) n) {x = 2 ^ suc k / 2} {y = 2 ^ k} (omega (arith, pow-suc 2 k)),
)

pub pow-lt_pow : (k w : ℕ) → k < w → 2 ^ k < 2 ^ w
pow-lt_pow k zero h = elim h [ ]
pow-lt_pow zero (suc w) h = omega (arith, pow-suc 2 w, one-le-pow w 2)
pow-lt_pow (suc k) (suc w) h = omega (arith, pow-suc 2 w, pow-suc 2 k, pow-lt_pow k w (omega arith))

pub bit_or-zero : (n a : ℕ) → a ≤ n → bit_or a 0 ≡ a
bit_or-zero n zero h = bit_or-bitwise 0 0
bit_or-zero zero (suc a) h = elim h [ ]
bit_or-zero (suc n) (suc a) h =
    omega (arith, bit_or_step (suc a) 0, bit_or-zero n (suc a / 2) (omega arith))

-- Setting the lowest digit of an even number.
pub bit_or-one : (a : ℕ) → a % 2 ≡ 0 → bit_or a 1 ≡ a + 1
bit_or-one a h = omega (arith, bit_or_step a 1, bit_or-zero (a / 2) (a / 2) (omega arith))

-- The lowest digit of a remainder by a power of two.
pub mod-pow_suc : (a k : ℕ) → a % 2 ^ suc k ≡ a % 2 + 2 * (a / 2 % 2 ^ k)
mod-pow_suc a k =
    ap (λ n. n % 2 ^ suc k) {x = a} {y = r + q * 2 ^ suc k}
      (omega (arith, mod-add-div' (a / 2) (2 ^ k), ap (λ n. q * n) (pow-suc 2 k)))
    ∙ add-mul-mod_self_right r q (2 ^ suc k)
    ∙ mod-eq_of_lt
        (omega (arith, pow-suc 2 k, mod-lt (a / 2) {m = 2 ^ k} (one-le-pow k 2 (omega arith))))
  where
    r : ℕ
    r = a % 2 + 2 * (a / 2 % 2 ^ k)

    q : ℕ
    q = a / 2 / 2 ^ k

-- A mask of w ones keeps the w lowest digits.
pub bit_and-ones : (w a : ℕ) → bit_and a (2 ^ w - 1) ≡ a % 2 ^ w
bit_and-ones zero a = omega (arith, bit_and-zero a)
bit_and-ones (suc w) a = omega (
  arith,
  pow-suc 2 w,
  one-le-pow w 2,
  mod-pow_suc a w,
  bit_and_step a (2 ^ suc w - 1),
  ap (bit_and (a / 2)) {x = (2 ^ suc w - 1) / 2} {y = 2 ^ w - 1}
      (omega (arith, pow-suc 2 w, one-le-pow w 2)),
  bit_and-ones w (a / 2),
)

-- A power of two above the digits that are kept.
pub mod-add_pow : (k j x : ℕ) → k ≤ j → (x + 2 ^ j) % 2 ^ k ≡ x % 2 ^ k
mod-add_pow zero j x h = omega arith
mod-add_pow (suc k) zero x h = elim h [ ]
mod-add_pow (suc k) (suc j) x h = omega (
  arith,
  mod-pow_suc (x + 2 ^ suc j) k,
  mod-pow_suc x k,
  pow-suc 2 j,
  ap (λ n. n % 2 ^ k) {x = (x + 2 ^ suc j) / 2} {y = x / 2 + 2 ^ j} (omega (arith, pow-suc 2 j)),
  mod-add_pow k j (x / 2) (omega arith),
)

pub bit_xor-lt : (w a b : ℕ) → a < 2 ^ w → b < 2 ^ w → bit_xor a b < 2 ^ w
bit_xor-lt zero zero zero p q = omega arith
bit_xor-lt zero (suc a) b p q = absurd (omega arith)
bit_xor-lt zero zero (suc b) p q = absurd (omega arith)
bit_xor-lt (suc w) a b p q = omega (
  arith,
  bit_xor_step a b,
  differ-lt (a % 2) (b % 2) (omega arith) (omega arith),
  pow-suc 2 w,
  bit_xor-lt w (a / 2) (b / 2) (omega (arith, pow-suc 2 w)) (omega (arith, pow-suc 2 w)),
)

-- The top digit of a word.
pub digit-top : (w a : ℕ) → a < 2 ^ suc w → digit a w ≡ a / 2 ^ w
digit-top zero a h = omega arith
digit-top (suc w) a h =
    digit-top w (a / 2) (omega (arith, pow-suc 2 (suc w)))
    ∙ div-div-eq-div-mul a 2 (2 ^ w)
    ∙ ap (λ n. a / n) (omega (arith, pow-suc 2 w))
