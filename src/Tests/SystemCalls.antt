-- ===== src/Tests/SystemCalls.antt =====
-- A user program with one page of memory that asks for a file, code/userprog/exception.cc.
use nachos.Prelude.{
  ℕ, ◌≤◌, ◌≡◌, refl, true, false, List, [], ◌∷◌, none, some, arith, ok, pos, ◌==◌, if◌then◌else◌,
  length, ◌-◌, ◌^◌,
}
use nachos.Machine.{Machine, pc_reg}
use nachos.Machine.Word.{signed}
use nachos.Machine.Memory.{
  read_mem, read_at, translate, after_lookup, find_entry, use_entry, load_bytes,
}
use nachos.Exceptions.{Outcome, returns, Kernel, Ends}
use nachos.Exceptions.Copy.{user2_system, copy_in}
use nachos.Exceptions.Copy.Bounds.{Buffered, user2_system_lem}
use nachos.Exceptions.Decimal.{number_text, digits_of}
use nachos.Exceptions.Decimal.Laws.{read_int, number_text_lem}
use nachos.Tests.FileCalls.{files}

-- The text "no" at address 0, and the system call Close(5).
abbrev program : Machine
program = record {
  registers = λ r. if r == 2 then 10 else if r == 4 then 5 else if r == pc_reg then 64 else 0;
  main_memory = λ a. if a == 128 then b'n' else if a == 129 then b'o' else 0;
  tlb = none;
  page_table = some (
      record {
        virtual_page = 0;
        physical_page = 1;
        valid = true;
        read_only = false;
        use_bit = false;
        dirty = false;
      }
      ∷ []);
  page_table_size = 1;
}

abbrev kernel : Kernel ℕ
kernel = record { machine = program; files = files }

abbrev text_of : Outcome (List ℕ × Machine) → List ℕ
text_of (returns (buffer, m)) = buffer
text_of other = []

copies_no : text_of (user2_system program 0 (pos 3)) ≡ b'n' ∷ b'o' ∷ 0 ∷ 0 ∷ []
unfolding user2_system copy_in read_mem read_at translate after_lookup find_entry use_entry
    load_bytes
copies_no = refl

-- -107, and the least int, which has no positive counterpart.
prints_number : number_text (2 ^ 32 - 107) ≡ ok (b'-' ∷ b'1' ∷ b'0' ∷ b'7' ∷ [])
unfolding number_text digits_of
prints_number = refl

prints_least_int :
    number_text (2 ^ 31)
    ≡ ok (b'-' ∷ b'.' ∷ b'/' ∷ b',' ∷ b')' ∷ b',' ∷ b'(' ∷ b'-' ∷ b'*' ∷ b',' ∷ b'(' ∷ [])
unfolding number_text digits_of
prints_least_int = refl

user2_system_lem_example : Ends (Buffered program (pos 3)) (user2_system program 0 (pos 3))
user2_system_lem_example = user2_system_lem program 0 (pos 3)

number_text_lem_example :
    (text : List ℕ) × (number_text 4294967189 ≡ ok text)
    × (read_int text ≡ signed 4294967189)
    × (length text ≤ 11)
number_text_lem_example = number_text_lem 4294967189 (omega arith) (omega arith)
