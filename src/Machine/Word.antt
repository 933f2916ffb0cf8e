-- ===== src/Machine/Word.antt =====
-- C's arithmetic on int and unsigned int at 32 bits, on bit patterns. A sum that leaves the range
-- wraps, as it does in the builds of the repository.
use nachos.Prelude.{ℕ, ◌+◌, ◌-◌, ◌*◌, ◌/◌, ◌%◌, ◌^◌, Bool, if◌then◌else◌, leb}
use nachos.Prelude.{ℤ, pos, negsuc, ltb_ℤ}

abbrev pub word_mod : ℕ
word_mod = 2 ^ 32

abbrev pub add32 : ℕ → ℕ → ℕ
add32 a b = (a + b) % 2 ^ 32

abbrev pub sub32 : ℕ → ℕ → ℕ
sub32 a b = (a + 2 ^ 32 - b) % 2 ^ 32

-- `x & SIGN_BIT`, and `x < 0`
abbrev pub is_neg : ℕ → Bool
is_neg a = leb (2 ^ 31) a

-- The int that a pattern stands for.
abbrev pub signed : ℕ → ℤ
signed a = if leb (2 ^ 31) a then negsuc (2 ^ 32 - a - 1) else pos a

-- `a < b` on int
abbrev pub lt_int : ℕ → ℕ → Bool
lt_int a b = ltb_ℤ (signed a) (signed b)

-- `a << k`, `a >> k` on unsigned int and `a >> k` on int
abbrev pub shl32 : ℕ → ℕ → ℕ
shl32 a k = a * 2 ^ k % 2 ^ 32

abbrev pub shr32 : ℕ → ℕ → ℕ
shr32 a k = a / 2 ^ k

abbrev pub sar32 : ℕ → ℕ → ℕ
sar32 a k = if is_neg a then 2 ^ 32 - 1 - (2 ^ 32 - 1 - a) / 2 ^ k else a / 2 ^ k

-- -a
abbrev pub neg32 : ℕ → ℕ
neg32 a = (2 ^ 32 - a) % 2 ^ 32

-- The absolute value, and the sign put back: C's `/` and `%` go towards 0.
abbrev pub magnitude : ℕ → ℕ
magnitude a = if is_neg a then 2 ^ 32 - a else a
