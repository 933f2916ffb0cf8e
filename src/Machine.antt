-- ===== src/Machine.antt =====
-- code/machine/machine.h and machine.cc: the simulated CPU, its registers and its main memory.
-- An int of the machine is its bit pattern, a number below 2 ^ 32.
pub mod Word
pub mod Memory
pub mod Decode
pub mod Exec
pub mod Mult
use nachos.Prelude.{ℕ, zero, suc, ◌+◌, ◌*◌, Bool, true, false, List, Option, none, some}
use nachos.Prelude.{
  ℤ, pos, negsuc, if◌then◌else◌, ◌==◌, ltb, Result, ok, abort, ◌>>=◌, ◌>>◌, assert,
}

abbrev pub page_size : ℕ
page_size = 128

abbrev pub num_phys_pages : ℕ
num_phys_pages = 128

abbrev pub memory_size : ℕ
memory_size = num_phys_pages * page_size

pub data ExceptionType : Type 0 where
  no_exception syscall_exception page_fault_exception : ExceptionType
  read_only_exception bus_error_exception address_error_exception : ExceptionType
  overflow_exception illegal_instr_exception : ExceptionType

-- code/machine/translate.h
pub record TranslationEntry : Type 0 where
  pub virtual_page : ℕ
  pub physical_page : ℕ
  pub valid : Bool
  pub read_only : Bool
  pub use_bit : Bool
  pub dirty : Bool

-- The indices of `registers` behind the 32 general ones.
abbrev pub stack_reg : ℕ
stack_reg = 29

abbrev pub ret_addr_reg : ℕ
ret_addr_reg = 31

abbrev pub num_gp_regs : ℕ
num_gp_regs = 32

abbrev pub hi_reg : ℕ
hi_reg = 32

abbrev pub lo_reg : ℕ
lo_reg = 33

abbrev pub pc_reg : ℕ
pc_reg = 34

abbrev pub next_pc_reg : ℕ
next_pc_reg = 35

abbrev pub prev_pc_reg : ℕ
prev_pc_reg = 36

abbrev pub load_reg : ℕ
load_reg = 37

abbrev pub load_value_reg : ℕ
load_value_reg = 38

abbrev pub bad_vaddr_reg : ℕ
bad_vaddr_reg = 39

abbrev pub num_total_regs : ℕ
num_total_regs = 40

-- Registers and memory are arrays: functions of the index. A NULL table is `none`; the page table
-- comes with pageTableSize, its length.
pub record Machine : Type 0 where
  pub registers : ℕ → ℕ
  pub main_memory : ℕ → ℕ
  pub tlb : Option (List TranslationEntry)
  pub page_table : Option (List TranslationEntry)
  pub page_table_size : ℕ

-- An assignment to an element of an array.
abbrev pub update {ℓ} : {A : Type ℓ} → (ℕ → A) → ℕ → A → ℕ → A
update f k v j = if j == k then v else f j

abbrev pub put : Machine → ℕ → ℕ → Machine
put m r v = record m { registers = update m.registers r v }

-- The constructor, with no TLB (USE_TLB is off in every build file).
abbrev pub new : Machine
new = record {
  registers = λ _. 0;
  main_memory = λ _. 0;
  tlb = none;
  page_table = none;
  page_table_size = 0;
}

unfoldable pub read_register : Machine → ℤ → Result ℕ
read_register m (negsuc n) = abort
read_register m (pos num) = assert (ltb num num_total_regs) >> ok (m.registers num)

unfoldable pub write_register : Machine → ℤ → ℕ → Result Machine
write_register m (negsuc n) value = abort
write_register m (pos num) value = assert (ltb num num_total_regs) >> ok (put m num value)

-- Machine::DelayedLoad of mipssim.cc: four assignments, in this order.
unfoldable pub delayed_load : Machine → ℕ → ℕ → Machine
delayed_load m next_reg next_value =
    let m1 = put m (m.registers load_reg) (m.registers load_value_reg) in
    let m2 = put m1 load_reg next_reg in let m3 = put m2 load_value_reg next_value in put m3 0 0

-- Machine::RaiseException up to the call of the kernel's ExceptionHandler.
unfoldable pub raise_exception : Machine → ℕ → Machine
raise_exception m bad_vaddr = delayed_load (put m bad_vaddr_reg bad_vaddr) 0 0
