-- ===== src/Machine/Exec/Step.antt =====
-- Machine::OneInstruction, code/machine/mipssim.cc.
pub mod Laws
use nachos.Prelude.{ℕ, zero, suc, ◌+◌, Bool, true, false, Option, none, some}
use nachos.Machine.{
  Machine, ExceptionType, syscall_exception, illegal_instr_exception, put, pc_reg, next_pc_reg,
  prev_pc_reg, delayed_load,
}
use nachos.Machine.Word.{add32}
use nachos.Machine.Memory.{read_mem, value, raised, failed}
use nachos.Machine.Decode.{
  op_add, op_addi, op_addiu, op_addu, op_and, op_andi, op_beq, op_bgez, op_bgezal, op_bgtz, op_blez,
  op_bltz, op_bltzal, op_bne, op_div, op_divu, op_j, op_jal, op_jalr, op_jr, op_lb, op_lbu, op_lh,
  op_lhu, op_lui, op_lw, op_lwl, op_lwr, op_mfhi, op_mflo, op_mthi, op_mtlo, op_mult, op_multu,
  op_nor, op_or, op_ori, op_rfe, op_sb, op_sh, op_sll, op_sllv, op_slt, op_slti, op_sltiu, op_sltu,
  op_sra, op_srav, op_srl, op_srlv, op_sub, op_subu, op_sw, op_swl, op_swr, op_xor, op_xori,
  op_syscall, op_unimp, op_res, special, bcond, OpCode, Instruction, decode,
}
use nachos.Machine.Exec.Effect.{Effect, next, raise, fail, advance, trap, Case}
use nachos.Machine.Exec.Arith.{
  exec_add, exec_addi, exec_addiu, exec_addu, exec_and, exec_andi, exec_div, exec_divu, exec_lui,
  exec_mfhi, exec_mflo, exec_mthi, exec_mtlo, exec_mult, exec_nor, exec_or, exec_ori, exec_slt,
  exec_slti, exec_sltiu, exec_sltu, exec_sub, exec_subu, exec_xor, exec_xori,
}
use nachos.Machine.Exec.Shift.{exec_sll, exec_sllv, exec_sra, exec_srav, exec_srl, exec_srlv}
use nachos.Machine.Exec.Branch.{
  exec_beq, exec_bgez, exec_bgezal, exec_bgtz, exec_blez, exec_bltz, exec_bltzal, exec_bne, exec_j,
  exec_jal, exec_jr, exec_jalr,
}
use nachos.Machine.Exec.Load.{exec_lb, exec_lh, exec_lw, exec_lwl, exec_lwr}
use nachos.Machine.Exec.Store.{exec_store, exec_swl, exec_swr}

-- The switch. OP_RFE and the two values of opTable that Decode replaces have no case.
unfoldable pub exec : OpCode → Case
exec op_add = exec_add
exec op_addi = exec_addi
exec op_addiu = exec_addiu
exec op_addu = exec_addu
exec op_and = exec_and
exec op_andi = exec_andi
exec op_beq = exec_beq
exec op_bgez = exec_bgez
exec op_bgezal = exec_bgezal
exec op_bgtz = exec_bgtz
exec op_blez = exec_blez
exec op_bltz = exec_bltz
exec op_bltzal = exec_bltzal
exec op_bne = exec_bne
exec op_div = exec_div
exec op_divu = exec_divu
exec op_j = exec_j
exec op_jal = exec_jal
exec op_jalr = exec_jalr
exec op_jr = exec_jr
exec op_lb = exec_lb true
exec op_lbu = exec_lb false
exec op_lh = exec_lh true
exec op_lhu = exec_lh false
exec op_lui = exec_lui
exec op_lw = exec_lw
exec op_lwl = exec_lwl
exec op_lwr = exec_lwr
exec op_mfhi = exec_mfhi
exec op_mflo = exec_mflo
exec op_mthi = exec_mthi
exec op_mtlo = exec_mtlo
exec op_mult = exec_mult true
exec op_multu = exec_mult false
exec op_nor = exec_nor
exec op_or = exec_or
exec op_ori = exec_ori
exec op_rfe = λ m i pc. fail
exec op_sb = exec_store 1
exec op_sh = exec_store 2
exec op_sll = exec_sll
exec op_sllv = exec_sllv
exec op_slt = exec_slt
exec op_slti = exec_slti
exec op_sltiu = exec_sltiu
exec op_sltu = exec_sltu
exec op_sra = exec_sra
exec op_srav = exec_srav
exec op_srl = exec_srl
exec op_srlv = exec_srlv
exec op_sub = exec_sub
exec op_subu = exec_subu
exec op_sw = exec_store 4
exec op_swl = exec_swl
exec op_swr = exec_swr
exec op_xor = exec_xor
exec op_xori = exec_xori
exec op_syscall = λ m i pc. trap m syscall_exception 0
exec op_unimp = λ m i pc. trap m illegal_instr_exception 0
exec op_res = λ m i pc. trap m illegal_instr_exception 0
exec special = λ m i pc. fail
exec bcond = λ m i pc. fail

-- The end of OneInstruction: the delayed load, then the program counters.
unfoldable pub retire : Machine → ℕ → ℕ → ℕ → Machine
retire m pc_after next_load_reg next_load_value =
    let m1 = delayed_load m next_load_reg next_load_value in
    let m2 = put m1 prev_pc_reg (m1.registers pc_reg) in
    let m3 = put m2 pc_reg (m2.registers next_pc_reg) in put m3 next_pc_reg pc_after

-- One instruction retires, or ends in a call of the kernel's ExceptionHandler, or stops the host.
pub data Outcome : Type 0 where
  retired : Machine → Outcome
  exception : ExceptionType → Machine → Outcome
  stopped : Outcome

unfoldable pub finish : Effect → Outcome
finish (next m pc_after reg loaded) = retired (retire m pc_after reg loaded)
finish (raise e m) = exception e m
finish fail = stopped

unfoldable pub one_instruction : Machine → Outcome
one_instruction m = elim (read_mem m (m.registers pc_reg) 4) [
  | failed ↦ stopped
  | raised e m1 ↦ exception e m1
  | value raw m1 ↦
      finish (exec (decode raw).op_code m1 (decode raw) (add32 (m1.registers next_pc_reg) 4))
]
