-- ===== src/Tests/Files.antt =====
-- A small disk and a small directory, code/filesys.
use nachos.Prelude.{
  ℕ, zero, suc, ◌^◌, get_or, ◌<◌, ◌≡◌, refl, ◌≢◌, true, List, [], ◌∷◌, none, arith, ok, abort, pos,
  negsuc, if◌then◌else◌,
}
use nachos.Bitmap.{Bitmap}
use nachos.Bitmap.Words
use nachos.Bitmap.Words.{is_marked}
use nachos.Filesys.FileHeader.{FileHeader, allocate, deallocate}
use nachos.Filesys.FileHeader.Allocate.{Allocated, allocate_lem, allocate-too_long}
use nachos.Filesys.FileHeader.Deallocate.{deallocate-allocate}
use nachos.Filesys.Directory.{
  Directory, blank, same_name, strncmp_same, find_index, find_index_from, find, add, remove,
}
use nachos.Filesys.Directory.Lookup.{IsValid, lookup, as_int, find_lem}
use nachos.Filesys.Directory.Update.{add_lem, remove_lem}
use nachos.Tests.Bitmaps.{four_bits, four_bits-IsValid}

abbrev fresh_header : FileHeader
fresh_header = record { num_bytes = 0; num_sectors = 0; data_sectors = λ i. 0 }

allocate_lem_example :
    (h' : FileHeader) × (b' : Bitmap) × (allocate fresh_header four_bits 200 ≡ ok (true, h', b'))
    × Allocated four_bits h'.data_sectors 2 b'
    × (h'.num_sectors ≡ 2)
    × (h'.num_bytes ≡ 200)
allocate_lem_example =
    allocate_lem fresh_header four_bits 200 four_bits-IsValid (omega arith) (omega arith)

abbrev empty_map : Bitmap
empty_map = record { num_bits = 32; num_words = 1; words = 0 ∷ [] }

empty_map_fits : (k : ℕ) → get_or empty_map.words k 0 < 2 ^ 32
empty_map_fits zero = omega arith
empty_map_fits (suc k) = omega arith

empty_map-IsValid : Words.IsValid empty_map
empty_map-IsValid = record {
  nonempty = omega arith;
  num_words_eq = refl;
  allocated = refl;
  fits = empty_map_fits;
}

allocate-too_long_example : allocate fresh_header empty_map 3841 ≡ abort
allocate-too_long_example =
    allocate-too_long fresh_header empty_map 3841 empty_map-IsValid (omega arith) (omega arith)

deallocate-allocate_example :
    (h1 : FileHeader) × (b1 : Bitmap) × (b2 : Bitmap) × (allocate fresh_header four_bits 200
      ≡ ok (true, h1, b1))
    × (deallocate h1 b1 ≡ ok b2)
    × ((j : ℕ) → is_marked b2 j ≡ is_marked four_bits j)
deallocate-allocate_example =
    deallocate-allocate fresh_header four_bits 200 four_bits-IsValid (omega arith) (omega arith)

-- One file, "a" in sector 7, and a free entry.
abbrev one_file : Directory
one_file = record { table = record { in_use = true; sector = 7; name = 97 ∷ [] } ∷ blank ∷ [] }

one_file-IsValid : IsValid one_file
one_file-IsValid file = ground arith

finds_a : find one_file (97 ∷ []) ≡ pos 7
unfolding find find_index find_index_from strncmp_same
finds_a = refl

find_lem_example : find one_file (97 ∷ []) ≡ as_int (lookup one_file.table (97 ∷ []))
find_lem_example = find_lem one_file (97 ∷ [])

add_lem_example :
    (d' : Directory) × (add one_file (98 ∷ []) 9 ≡ (true, d'))
    × ((other : List ℕ)
        → find d' other ≡ (if same_name (98 ∷ []) other then pos 9 else find one_file other))
    × IsValid d'
unfolding strncmp_same
add_lem_example = add_lem one_file (98 ∷ []) 9 one_file-IsValid refl refl

a_there : lookup one_file.table (97 ∷ []) ≢ none
unfolding strncmp_same
a_there h = cc

remove_lem_example :
    (d' : Directory) × (remove one_file (97 ∷ []) ≡ (true, d'))
    × ((other : List ℕ)
        → find d' other ≡ (if same_name (97 ∷ []) other then negsuc 0 else find one_file other))
    × IsValid d'
remove_lem_example = remove_lem one_file (97 ∷ []) one_file-IsValid a_there
