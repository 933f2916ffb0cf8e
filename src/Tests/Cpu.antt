-- ===== src/Tests/Cpu.antt =====
-- A machine with one page, whose first word is ADDIU $1, $0, 5, code/machine.
use nachos.Prelude.{
  ◌-◌, ◌^◌, ◌≡◌, refl, ◌≢◌, inl, inr, Bool, true, false, none, some, [], ◌∷◌, arith, if◌then◌else◌,
  ◌==◌, ◌*ℤ◌, ◌+ℤ◌,
}
use nachos.Machine.{Machine, TranslationEntry, update}
use nachos.Machine.Word.{signed}
use nachos.Machine.Decode.{OpCode, op_add, op_div, op_srl, Instruction, decode}
use nachos.Machine.Decode.Laws.{has_case, decode-has_case}
use nachos.Machine.Memory.{
  Access, done, translate, use_entry, after_lookup, find_entry, store_bytes, value, read_mem,
  write_at, write_mem,
}
use nachos.Machine.Memory.Laws.{translate-ne-abort}
use nachos.Machine.Memory.Maps.{Maps, translate-Maps}
use nachos.Machine.Memory.RoundTrip.{read_back, read_mem-write_mem}
use nachos.Machine.Mult.{mult}
use nachos.Machine.Mult.Laws.{signed_wide, mult-signed}
use nachos.Machine.Exec.Arith.{exec_add, exec_div}
use nachos.Machine.Exec.Arith.Laws.{Computes, exec_add_lem}
use nachos.Machine.{put}
use nachos.Machine.Exec.Effect.{advance}
use nachos.Machine.Exec.Shift.{exec_srl}
use nachos.Machine.Exec.Shift.Laws.{exec_srl_lem}
use nachos.Machine.Exec.Arith.Division.{Divides, exec_div_lem}
use nachos.Machine.Exec.Step.{one_instruction}
use nachos.Machine.Exec.Step.Laws.{Ends, one_instruction-Ends}
use nachos.Machine.Exec.Safety.{IsValid}

abbrev page : TranslationEntry
page = record {
  virtual_page = 0;
  physical_page = 2;
  valid = true;
  read_only = false;
  use_bit = false;
  dirty = false;
}

-- Register 1 holds the largest int, register 2 holds 1.
abbrev program : Machine
program = record {
  registers = λ r. if r == 1 then 2 ^ 31 - 1 else if r == 2 then 1 else 0;
  main_memory = λ a. if a == 256 then 5 else if a == 258 then 1 else if a == 259 then 0x24 else 0;
  tlb = none;
  page_table = some (page ∷ []);
  page_table_size = 1;
}

program-IsValid : IsValid program
program-IsValid = record {
  words = λ r. ground arith;
  target = omega arith;
  bytes = λ a. ground arith;
}

abbrev used_page : Bool → TranslationEntry
used_page writing = record page { use_bit = true; dirty = writing }

abbrev after_access : Bool → Machine
after_access writing = record program { page_table = some (used_page writing ∷ []) }

abbrev stored : Machine
stored = record (after_access true) {
  main_memory = update (update (update (update program.main_memory 264 77) 265 0) 266 0) 267 0;
}

translates : translate program 8 4 true ≡ done 264 (after_access true)
unfolding translate after_lookup find_entry use_entry
translates = refl

writes : write_mem program 8 4 77 ≡ value tt stored
unfolding write_mem write_at translate after_lookup find_entry use_entry store_bytes
writes = refl

translate-Maps_example : Maps program 8 4 true 264 (after_access true)
translate-Maps_example = translate-Maps program 8 4 true 264 (after_access true) translates

translate-ne-abort_example : translate program 8 4 true ≢ Access.abort
translate-ne-abort_example =
    translate-ne-abort program 8 4 true (inl (refl, page ∷ [], refl)) (inr (inr refl))

read_mem-write_mem_example : (m'' : Machine) × (read_mem stored 8 4 ≡ value (read_back 4 77) m'')
read_mem-write_mem_example = read_mem-write_mem program stored 8 4 77 (inr (inr refl)) writes

decode-has_case_example : has_case (decode 0x24010005).op_code ≡ true
decode-has_case_example = decode-has_case 0x24010005

mult-signed_example : signed_wide (mult (2 ^ 32 - 2) 3 true) ≡ signed (2 ^ 32 - 2) *ℤ signed 3
mult-signed_example = mult-signed (2 ^ 32 - 2) 3 (omega arith) (omega arith)

-- An operation on the registers 1 and 2, into 3.
abbrev on_registers : OpCode → Instruction
on_registers op = record { op_code = op; rs = 1; rt = 2; rd = 3; extra = 1 }

exec_add_lem_example :
    Computes program 3
      (signed (2 ^ 31 - 1) +ℤ signed 1)
      8
      (exec_add program (on_registers op_add) 8)
exec_add_lem_example = exec_add_lem program (on_registers op_add) 8 (omega arith) (omega arith)

exec_div_lem_example : Divides program 8 (2 ^ 31 - 1) 1 (exec_div program (on_registers op_div) 8)
exec_div_lem_example =
    exec_div_lem program (on_registers op_div) 8 (omega arith) (omega arith) (omega arith)
      (omega arith)

-- -8 in register 2, which SRL shifts to -4.
abbrev below_zero : Machine
below_zero = put program 2 (2 ^ 32 - 8)

exec_srl_lem_example :
    exec_srl below_zero (on_registers op_srl) 8 ≡ advance (put below_zero 3 (2 ^ 32 - 4)) 8
exec_srl_lem_example = exec_srl_lem below_zero (on_registers op_srl) 8 (omega arith) (omega arith)

one_instruction-Ends_example : Ends program (one_instruction program)
one_instruction-Ends_example = one_instruction-Ends program program-IsValid
