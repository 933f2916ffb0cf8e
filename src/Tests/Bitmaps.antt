-- ===== src/Tests/Bitmaps.antt =====
-- A bitmap of four bits with the first and the third one set, code/lib/bitmap.cc.
use nachos.Prelude.{ℕ, zero, suc, ◌^◌, ◌<◌, ◌≡◌, refl, [], ◌∷◌, arith, ok, pos, get_or}
use nachos.Bitmap.{Bitmap, test, mark, find_from, find_and_set, count_from, num_clear}
use nachos.Bitmap.Words.{IsValid}
use nachos.Bitmap.Search.{free_bits, FindResult, find_and_set_lem, num_clear_lem}

abbrev pub four_bits : Bitmap
four_bits = record { num_bits = 4; num_words = 1; words = 5 ∷ [] }

fits : (k : ℕ) → get_or four_bits.words k 0 < 2 ^ 32
fits zero = omega arith
fits (suc k) = omega arith

pub four_bits-IsValid : IsValid four_bits
four_bits-IsValid = record {
  nonempty = omega arith;
  num_words_eq = refl;
  allocated = refl;
  fits = fits;
}

finds_bit_1 :
    find_and_set four_bits ≡ ok (pos 1, record { num_bits = 4; num_words = 1; words = 7 ∷ [] })
unfolding find_and_set find_from test mark
finds_bit_1 = refl

counts_two : num_clear four_bits ≡ ok 2
unfolding num_clear count_from test
counts_two = refl

find_and_set_lem_example : FindResult four_bits (find_and_set four_bits)
find_and_set_lem_example = find_and_set_lem four_bits four_bits-IsValid

num_clear_lem_example : num_clear four_bits ≡ ok (free_bits four_bits)
num_clear_lem_example = num_clear_lem four_bits
