-- ===== src/Bitmap/Ops.antt =====
-- code/lib/bitmap.cc as a finite set: what each operation does to the set of marked bits.
use Prim.Native.Nat.{bit_and, bit_or}
use nachos.Prelude.{ℕ, ◌/◌, ◌%◌, ◌^◌, ◌<◌, ◌≡◌, refl, arith}
use nachos.Prelude.{Bool, true, false, ◌==◌, if◌then◌else◌, pos}
use nachos.Prelude.{ok}
use nachos.Bits.{
  digit-lt, digit-bit_or, digit-bit_and, digit-bit_not, digit-pow_self, digit-pow_ne, bit_not,
  bit_or-lt, bit_and-le, pow-lt_pow,
}
use nachos.Bitmap.{Bitmap, bits_in_word, mask, word_at, put_word, mark, clear}
use nachos.Bitmap.Words.{is_marked, IsValid, test-is_marked, put_word-IsValid, is_marked-put_word}

-- The bitmap b' is b with bit i set to `on`.
pub record Updates (b : Bitmap) (i : ℕ) (on : Bool) (b' : Bitmap) : Type 0 where
  pub valid : IsValid b'
  pub same_size : b'.num_bits ≡ b.num_bits
  pub bits : (j : ℕ) → is_marked b' j ≡ (if j == i then on else is_marked b j)

module _ (b : Bitmap) (i : ℕ) (v : IsValid b) (lt : i < b.num_bits) where
  abbrev place : ℕ
  place = i % bits_in_word

  abbrev marked_word : ℕ
  marked_word = bit_or (word_at b i) (mask i)

  abbrev cleared_word : ℕ
  cleared_word = bit_and (word_at b i) (bit_not bits_in_word (mask i))

  mask-lt : mask i < 2 ^ 32
  mask-lt = pow-lt_pow place 32 (omega arith)

  put_marked-Updates : Updates b i true (put_word b i marked_word)
  put_marked-Updates = record {
    valid = put_word-IsValid b i marked_word v lt small;
    same_size = refl;
    bits =
        is_marked-put_word b i marked_word v lt small true
          (ground (
            arith,
            digit-bit_or (word_at b i) (mask i) place,
            digit-pow_self place,
            digit-lt (word_at b i) place,
          ))
          (λ k ne lk.
            omega (arith, digit-bit_or (word_at b i) (mask i) k, digit-pow_ne place k ne));
  }
    where
      small : marked_word < 2 ^ 32
      small = bit_or-lt 32 (word_at b i) (mask i) (v.fits (i / bits_in_word)) mask-lt

  put_cleared-Updates : Updates b i false (put_word b i cleared_word)
  put_cleared-Updates = record {
    valid = put_word-IsValid b i cleared_word v lt small;
    same_size = refl;
    bits =
        is_marked-put_word b i cleared_word v lt small false
          (ground (
            arith,
            digit-bit_and (word_at b i) (bit_not 32 (mask i)) place,
            digit-bit_not 32 (mask i) place mask-lt (omega arith),
            digit-pow_self place,
          ))
          (λ k ne lk. omega (
            arith,
            digit-bit_and (word_at b i) (bit_not 32 (mask i)) k,
            digit-bit_not 32 (mask i) k mask-lt lk,
            digit-pow_ne place k ne,
            digit-lt (word_at b i) k,
          ));
  }
    where
      small : cleared_word < 2 ^ 32
      small = omega (
        arith,
        v.fits (i / bits_in_word),
        bit_and-le (word_at b i) (bit_not bits_in_word (mask i)) (word_at b i) (omega arith),
      )

  -- Mark(i) returns, its second ASSERT holds, and it adds i to the set and changes nothing else.
  pub mark_lem : (b' : Bitmap) × (mark b (pos i) ≡ ok b') × Updates b i true b'
  unfolding mark
  mark_lem = (
    put_word b i marked_word,
    ground (arith, test-is_marked (put_word b i marked_word) i lt, put_marked-Updates.bits i),
    put_marked-Updates,
  )

  -- Clear(i) returns, its second ASSERT holds, and it takes i out of the set and changes nothing
  -- else.
  pub clear_lem : (b' : Bitmap) × (clear b (pos i) ≡ ok b') × Updates b i false b'
  unfolding clear
  clear_lem = (
    put_word b i cleared_word,
    ground (arith, test-is_marked (put_word b i cleared_word) i lt, put_cleared-Updates.bits i),
    put_cleared-Updates,
  )
