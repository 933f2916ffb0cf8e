-- ===== src/Exceptions/Copy.antt =====
-- User2System and System2User of code/userprog/exception.cc.
pub mod Bounds
use nachos.Prelude.{
  ℕ, zero, suc, ◌+◌, ◌-◌, ◌%◌, ◌^◌, true, false, List, [], ◌∷◌, ◌==◌, ltb, ltb_ℤ, if◌then◌else◌,
  replicate, ℤ, pos, negsuc, pos_part,
}
use nachos.Machine.{Machine}
use nachos.Machine.Word.{add32}
use nachos.Machine.Memory.{MemResult, value, raised, failed, read_mem, write_mem}
use nachos.Filesys.FileTable
use nachos.Exceptions.{Outcome, returns, halts, aborts, ◌>>=◌}

-- The loop of User2System, with what memset has left behind the string. Each exception that
-- ReadMem raises stops the machine.
unfoldable pub copy_in : ℕ → Machine → ℕ → Outcome (List ℕ × Machine)
copy_in zero m addr = returns (0 ∷ [], m)
copy_in (suc left) m addr = elim (read_mem m addr 1) [
  | failed ↦ aborts
  | raised e m' ↦ halts
  | value one_char m' ↦ elim (one_char == 0) [
    | true ↦ returns (replicate (suc (suc left)) 0, m')
    | false ↦
        copy_in left m' (add32 addr 1) >>= λ (rest, m''). returns (one_char % 2 ^ 8 ∷ rest, m'')
  ]
]

-- `new char[limit + 1]` has no negative size.
unfoldable pub user2_system : Machine → ℕ → ℤ → Outcome (List ℕ × Machine)
unfolding copy_in
user2_system m virt_addr (pos limit) =
    if limit == 2 ^ 31 - 1 then aborts else copy_in limit m virt_addr
user2_system m virt_addr (negsuc zero) = returns ([], m)
user2_system m virt_addr (negsuc (suc n)) = aborts

-- (int) of a char
abbrev pub int_of_char : ℕ → ℕ
int_of_char c = if ltb c 128 then c else c + (2 ^ 32 - 2 ^ 8)

-- The loop of System2User after i bytes.
unfoldable pub copy_out : ℕ → ℕ → Machine → ℕ → List ℕ → Outcome (ℤ × Machine)
copy_out zero i m addr buffer = returns (pos i, m)
copy_out (suc left) i m addr [] = aborts
copy_out (suc left) i m addr (c ∷ cs) = elim (write_mem m addr 1 (int_of_char c)) [
  | failed ↦ aborts
  | raised e m' ↦ halts
  | value written m' ↦ elim (c == 0) [
    | true ↦ returns (pos (i + 1), m')
    | false ↦ copy_out left (i + 1) m' (add32 addr 1) cs
  ]
]

unfoldable pub system2_user : Machine → ℕ → ℤ → List ℕ → Outcome (ℤ × Machine)
unfolding copy_out
system2_user m virt_addr len buffer =
    if ltb_ℤ len (pos 0)
    then returns (FileTable.failed, m)
    else copy_out (pos_part len) 0 m virt_addr buffer

-- User2System2: the arguments of ExecV.
unfoldable pub copy_args : ℕ → Machine → ℕ → ℤ → Outcome (List (List ℕ) × Machine)
unfolding user2_system
copy_args zero m addr limit = returns ([], m)
copy_args (suc left) m addr limit = elim (read_mem m addr 4) [
  | failed ↦ aborts
  | raised e m' ↦ halts
  | value arg m' ↦ (do
    (buffer, m1) ← user2_system m' arg limit
    (rest, m2) ← copy_args left m1 (add32 addr 4) limit
    returns (buffer ∷ rest, m2))
]
