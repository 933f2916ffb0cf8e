-- ===== src/Bitmap.antt =====
-- code/lib/bitmap.cc: a bitmap of num_bits bits, packed in words of 32.
pub mod Words
pub mod Ops
pub mod Search
use Prim.Native.Nat.{bit_and, bit_or}
use nachos.Prelude.{ℕ, zero, suc, ◌+◌, ◌/◌, ◌%◌, ◌^◌, Bool, true, false, not, List}
use nachos.Prelude.{ℤ, pos, negsuc, ltb, ◌==◌, if◌then◌else◌, length, get_or, set, replicate}
use nachos.Prelude.{Result, ok, abort, ◌>>=◌, ◌>>◌, assert}
use nachos.Bits.{bit_not}

abbrev pub bits_in_word : ℕ
bits_in_word = 32

-- The macro of lib/utility.h.
abbrev pub div_round_up : ℕ → ℕ → ℕ
div_round_up n s = n / s + (if ltb 0 (n % s) then 1 else 0)

pub record Bitmap : Type 0 where
  pub num_bits : ℕ
  pub num_words : ℕ
  pub words : List ℕ

-- `1 << (which % BitsInWord)`
abbrev pub mask : ℕ → ℕ
mask i = 2 ^ (i % bits_in_word)

abbrev pub word_at : Bitmap → ℕ → ℕ
word_at b i = get_or b.words (i / bits_in_word) 0

abbrev pub put_word : Bitmap → ℕ → ℕ → Bitmap
put_word b i w = record b { words = set b.words (i / bits_in_word) w }

unfoldable pub test : Bitmap → ℤ → Result Bool
test b (negsuc n) = abort
test b (pos i) = do assert (ltb i b.num_bits); ok (not (bit_and (word_at b i) (mask i) == 0))

unfoldable pub mark : Bitmap → ℤ → Result Bitmap
mark b (negsuc n) = abort
mark b (pos i) = do
  assert (ltb i b.num_bits)
  let b' = put_word b i (bit_or (word_at b i) (mask i))
  t ← test b' (pos i)
  assert t
  ok b'

unfoldable pub clear : Bitmap → ℤ → Result Bitmap
clear b (negsuc n) = abort
clear b (pos i) = do
  assert (ltb i b.num_bits)
  let b' = put_word b i (bit_and (word_at b i) (bit_not bits_in_word (mask i)))
  t ← test b' (pos i)
  assert (not t)
  ok b'

-- The loop of the constructor that clears bits i, i + 1, …, with `left` rounds to go.
unfoldable pub clear_all : Bitmap → ℕ → ℕ → Result Bitmap
clear_all b zero i = ok b
clear_all b (suc left) i = clear b (pos i) >>= λ b'. clear_all b' left (i + 1)

unfoldable pub new : ℤ → Result Bitmap
unfolding clear_all
new (negsuc n) = abort
new (pos n) = do
  assert (ltb 0 n)
  let words = div_round_up n bits_in_word
  clear_all (record { num_bits = n; num_words = words; words = replicate words 0 }) n 0

-- The loop of FindAndSet from bit i on.
unfoldable pub find_from : Bitmap → ℕ → ℕ → Result (ℤ × Bitmap)
find_from b zero i = ok (negsuc 0, b)
find_from b (suc left) i = test b (pos i) >>= λ t. elim t [
  | true ↦ find_from b left (i + 1)
  | false ↦ mark b (pos i) >>= λ b'. ok (pos i, b')
]

unfoldable pub find_and_set : Bitmap → Result (ℤ × Bitmap)
unfolding find_from
find_and_set b = find_from b b.num_bits 0

-- The loop of NumClear, from bit i on.
unfoldable pub count_from : Bitmap → ℕ → ℕ → ℕ → Result ℕ
count_from b zero i count = ok count
count_from b (suc left) i count =
    test b (pos i) >>= λ t. count_from b left (i + 1) (if t then count else count + 1)

unfoldable pub num_clear : Bitmap → Result ℕ
unfolding count_from
num_clear b = count_from b b.num_bits 0 0
