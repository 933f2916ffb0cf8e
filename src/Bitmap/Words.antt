-- ===== src/Bitmap/Words.antt =====
-- The bits of a bitmap, and what one write to a word does to them.
use native.Mathlib.Nat.{one-le-pow}
use native.Mathlib.Decide.{ℕ_discrete}
use nachos.Prelude.{ℕ, ◌/◌, ◌%◌, ◌^◌, ◌<◌, ◌≡◌, ◌≢◌, ◌∙◌, arith}
use nachos.Prelude.{Bool, ◌==◌, if◌then◌else◌, length, get_or}
use nachos.Prelude.{length-set, get_or-set_self, get_or-set_ne, pos, ok}
use nachos.Bits.{digit, digit-lt, bit_and-pow}
use nachos.Bitmap.{Bitmap, bits_in_word, div_round_up, word_at, put_word, test}

-- Is bit i set?
abbrev pub is_marked : Bitmap → ℕ → Bool
is_marked b i = digit (word_at b i) (i % bits_in_word) == 1

-- There is a word for each bit, and each word has 32 digits.
pub record IsValid (b : Bitmap) : Type 0 where
  pub nonempty : 0 < b.num_bits
  pub num_words_eq : b.num_words ≡ div_round_up b.num_bits bits_in_word
  pub allocated : length b.words ≡ b.num_words
  pub fits : (k : ℕ) → get_or b.words k 0 < 2 ^ 32

pub word_in : (b : Bitmap) (i : ℕ) → IsValid b → i < b.num_bits → i / bits_in_word < length b.words
word_in b i v lt = ground (arith, v.num_words_eq, v.allocated)

-- Bits i and j stand in different words, or at different digits of one.
place_ne :
    (i j : ℕ) → i ≢ j → i / bits_in_word ≡ j / bits_in_word → i % bits_in_word ≢ j % bits_in_word
place_ne i j ne e = omega arith

pub test-is_marked : (b : Bitmap) (i : ℕ) → i < b.num_bits → test b (pos i) ≡ ok (is_marked b i)
unfolding test
test-is_marked b i lt = ground (
  arith,
  bit_and-pow (word_at b i) (i % bits_in_word),
  digit-lt (word_at b i) (i % bits_in_word),
  one-le-pow (i % bits_in_word) 2,
)

-- A write of a word whose digits are those of the old one but at bit i.
module _ (b : Bitmap) (i w : ℕ) (v : IsValid b) (lt : i < b.num_bits) (small : w < 2 ^ 32) where
  pub put_word-IsValid : IsValid (put_word b i w)
  put_word-IsValid = record {
    nonempty = v.nonempty;
    num_words_eq = v.num_words_eq;
    allocated = length-set b.words (i / bits_in_word) w ∙ v.allocated;
    fits = λ k. elim (ℕ_discrete (i / bits_in_word) k) [
      | yes e ↦ rw (← e, get_or-set_self b.words (i / bits_in_word) w 0 (word_in b i v lt)) small
      | no ne ↦ rw (get_or-set_ne b.words (i / bits_in_word) k w 0 ne) (v.fits k)
    ];
  }

  pub is_marked-put_word :
      (on : Bool)
      → (digit w (i % bits_in_word) == 1) ≡ on
      → ((k : ℕ) → i % bits_in_word ≢ k → k < 32 → digit w k ≡ digit (word_at b i) k)
      → (j : ℕ) → is_marked (put_word b i w) j ≡ (if j == i then on else is_marked b j)
  is_marked-put_word on own others j = elim (ℕ_discrete (i / bits_in_word) (j / bits_in_word)) [
    | yes e ↦ elim (ℕ_discrete i j) [
      | yes same ↦
          ground (arith, get_or-set_self b.words (i / bits_in_word) w 0 (word_in b i v lt), own)
      | no ne ↦ ground (
        arith,
        get_or-set_self b.words (i / bits_in_word) w 0 (word_in b i v lt),
        others (j % bits_in_word) (place_ne i j ne e) (omega arith),
      )
    ]
    | no ne ↦ ground (arith, get_or-set_ne b.words (i / bits_in_word) (j / bits_in_word) w 0 ne)
  ]
