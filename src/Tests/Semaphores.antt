-- ===== src/Tests/Semaphores.antt =====
-- A semaphore by the name "door", code/threads/STable.cc.
use nachos.Prelude.{
  ℕ, zero, suc, ◌^◌, ◌<◌, ◌≡◌, refl, ◌/◌, ◌%◌, [], ◌∷◌, none, some, arith, ok, ◌>>=◌, pos, get_or,
}
use nachos.Bits.{digit-zero}
use nachos.Machine.{update}
use nachos.Bitmap.{Bitmap, new, clear_all, clear, test, mark, find_from, find_and_set}
use nachos.Threads.System.{System, p, v, put_semaphore}
use nachos.Threads.Reach.{boot}
use nachos.Filesys.FileTable.{Name}
use nachos.STable
use nachos.STable.{STable, new_table, put_sem, create, wait, signal}
use nachos.STable.Names.{IsGood, Creates, create_lem, wait-create}

abbrev none_set : Bitmap
none_set = record { num_bits = 10; num_words = 1; words = 0 ∷ [] }

abbrev empty_table : STable
empty_table = record { bm = none_set; table = λ i. none }

makes_empty_table : new_table ≡ ok empty_table
unfolding new_table new clear_all clear test
makes_empty_table = refl

no_word : (k : ℕ) → get_or none_set.words k 0 ≡ 0
no_word zero = refl
no_word (suc k) = refl

fits : (k : ℕ) → get_or none_set.words k 0 < 2 ^ 32
fits k = rw (no_word k) (omega arith)

empty_table-IsGood : IsGood empty_table
empty_table-IsGood = record {
  bits = record { nonempty = omega arith; num_words_eq = refl; allocated = refl; fits = fits };
  size = refl;
  held = λ i h. rw (no_word (i / 32), digit-zero (i % 32)) refl;
}

abbrev door : Name
door = b'd' ∷ b'o' ∷ b'o' ∷ b'r' ∷ []

abbrev system : System
system = boot (λ a. 0)

abbrev with_door : STable
with_door = record {
  bm = record { num_bits = 10; num_words = 1; words = 1 ∷ [] };
  table = update empty_table.table 0 (some (record { name = door; sem = 7 }));
}

creates_door :
    create empty_table system door 1 7
    ≡ ok (pos 0, with_door, put_semaphore system 7 (record { value = 1; queue = [] }))
unfolding create STable.find_from find_from find_and_set test mark put_sem
creates_door = refl

create_lem_example : Creates empty_table system door 1 7 (create empty_table system door 1 7)
create_lem_example = create_lem empty_table system door 1 7 empty_table-IsGood (omega arith)

wait-create_example :
    (wait with_door system door ≡ (p system 7 >>= λ s. ok (pos 0, s)))
    × (signal with_door system door ≡ (v system 7 >>= λ s. ok (pos 0, s)))
wait-create_example =
    wait-create empty_table with_door system
      (put_semaphore system 7 (record { value = 1; queue = [] })) door 1 7 empty_table-IsGood
      (omega arith) creates_door system
