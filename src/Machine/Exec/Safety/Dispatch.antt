-- ===== src/Machine/Exec/Safety/Dispatch.antt =====
-- The switch of Machine::OneInstruction, code/machine/mipssim.cc, over all operations, and the
-- ranges of words, bytes and indices.
use nachos.Prelude.{ℕ, ◌^◌, ◌<◌, true, false, arith}
use nachos.Machine.{Machine, syscall_exception, illegal_instr_exception}
use nachos.Machine.Decode.{
  op_add, op_addi, op_addiu, op_addu, op_and, op_andi, op_beq, op_bgez, op_bgezal, op_bgtz, op_blez,
  op_bltz, op_bltzal, op_bne, op_div, op_divu, op_j, op_jal, op_jalr, op_jr, op_lb, op_lbu, op_lh,
  op_lhu, op_lui, op_lw, op_lwl, op_lwr, op_mfhi, op_mflo, op_mthi, op_mtlo, op_mult, op_multu,
  op_nor, op_or, op_ori, op_rfe, op_sb, op_sh, op_sll, op_sllv, op_slt, op_slti, op_sltiu, op_sltu,
  op_sra, op_srav, op_srl, op_srlv, op_sub, op_subu, op_sw, op_swl, op_swr, op_xor, op_xori,
  op_syscall, op_unimp, op_res, special, bcond, OpCode, Instruction,
}
use nachos.Machine.Exec.Step.{exec}
use nachos.Machine.Exec.Safety.{IsValid, IsWellFormed, IsSafe}
use nachos.Machine.Exec.Safety.Cases.{
  trap-IsSafe, exec_add-IsSafe, exec_addi-IsSafe, exec_addiu-IsSafe, exec_addu-IsSafe,
  exec_and-IsSafe, exec_andi-IsSafe, exec_div-IsSafe, exec_divu-IsSafe, exec_lui-IsSafe,
  exec_mfhi-IsSafe, exec_mflo-IsSafe, exec_mthi-IsSafe, exec_mtlo-IsSafe, exec_mult-IsSafe,
  exec_nor-IsSafe, exec_or-IsSafe, exec_ori-IsSafe, exec_sll-IsSafe, exec_sllv-IsSafe,
  exec_slt-IsSafe, exec_slti-IsSafe, exec_sltiu-IsSafe, exec_sltu-IsSafe, exec_sra-IsSafe,
  exec_srav-IsSafe, exec_srl-IsSafe, exec_srlv-IsSafe, exec_sub-IsSafe, exec_subu-IsSafe,
  exec_xor-IsSafe, exec_xori-IsSafe,
}
use nachos.Machine.Exec.Safety.Jumps.{
  exec_beq-IsSafe, exec_bgez-IsSafe, exec_bgezal-IsSafe, exec_bgtz-IsSafe, exec_blez-IsSafe,
  exec_bltz-IsSafe, exec_bltzal-IsSafe, exec_bne-IsSafe, exec_j-IsSafe, exec_jal-IsSafe,
  exec_jalr-IsSafe, exec_jr-IsSafe,
}
use nachos.Machine.Exec.Safety.Moves.{
  exec_lb-IsSafe, exec_lh-IsSafe, exec_lw-IsSafe, exec_lwl-IsSafe, exec_lwr-IsSafe,
  exec_store-IsSafe, exec_swl-IsSafe, exec_swr-IsSafe,
}

module _ {m : Machine} (ok_m : IsValid m) (i : Instruction) (wf : IsWellFormed i) (pc : ℕ)
    (pc_word : pc < 2 ^ 32) where
  pub exec-IsSafe : (op : OpCode) → IsSafe m (exec op m i pc)
  unfolding exec
  exec-IsSafe op_add = exec_add-IsSafe ok_m i wf pc pc_word
  exec-IsSafe op_addi = exec_addi-IsSafe ok_m i wf pc pc_word
  exec-IsSafe op_addiu = exec_addiu-IsSafe ok_m i wf pc pc_word
  exec-IsSafe op_addu = exec_addu-IsSafe ok_m i wf pc pc_word
  exec-IsSafe op_and = exec_and-IsSafe ok_m i wf pc pc_word
  exec-IsSafe op_andi = exec_andi-IsSafe ok_m i wf pc pc_word
  exec-IsSafe op_beq = exec_beq-IsSafe ok_m i wf pc pc_word
  exec-IsSafe op_bgez = exec_bgez-IsSafe ok_m i wf pc pc_word
  exec-IsSafe op_bgezal = exec_bgezal-IsSafe ok_m i wf pc pc_word
  exec-IsSafe op_bgtz = exec_bgtz-IsSafe ok_m i wf pc pc_word
  exec-IsSafe op_blez = exec_blez-IsSafe ok_m i wf pc pc_word
  exec-IsSafe op_bltz = exec_bltz-IsSafe ok_m i wf pc pc_word
  exec-IsSafe op_bltzal = exec_bltzal-IsSafe ok_m i wf pc pc_word
  exec-IsSafe op_bne = exec_bne-IsSafe ok_m i wf pc pc_word
  exec-IsSafe op_div = exec_div-IsSafe ok_m i wf pc pc_word
  exec-IsSafe op_divu = exec_divu-IsSafe ok_m i wf pc pc_word
  exec-IsSafe op_j = exec_j-IsSafe ok_m i wf pc pc_word
  exec-IsSafe op_jal = exec_jal-IsSafe ok_m i wf pc pc_word
  exec-IsSafe op_jalr = exec_jalr-IsSafe ok_m i wf pc pc_word
  exec-IsSafe op_jr = exec_jr-IsSafe ok_m i wf pc pc_word
  exec-IsSafe op_lb = exec_lb-IsSafe ok_m i wf pc pc_word true
  exec-IsSafe op_lbu = exec_lb-IsSafe ok_m i wf pc pc_word false
  exec-IsSafe op_lh = exec_lh-IsSafe ok_m i wf pc pc_word true
  exec-IsSafe op_lhu = exec_lh-IsSafe ok_m i wf pc pc_word false
  exec-IsSafe op_lui = exec_lui-IsSafe ok_m i wf pc pc_word
  exec-IsSafe op_lw = exec_lw-IsSafe ok_m i wf pc pc_word
  exec-IsSafe op_lwl = exec_lwl-IsSafe ok_m i wf pc pc_word
  exec-IsSafe op_lwr = exec_lwr-IsSafe ok_m i wf pc pc_word
  exec-IsSafe op_mfhi = exec_mfhi-IsSafe ok_m i wf pc pc_word
  exec-IsSafe op_mflo = exec_mflo-IsSafe ok_m i wf pc pc_word
  exec-IsSafe op_mthi = exec_mthi-IsSafe ok_m i wf pc pc_word
  exec-IsSafe op_mtlo = exec_mtlo-IsSafe ok_m i wf pc pc_word
  exec-IsSafe op_mult = exec_mult-IsSafe ok_m i wf pc pc_word true
  exec-IsSafe op_multu = exec_mult-IsSafe ok_m i wf pc pc_word false
  exec-IsSafe op_nor = exec_nor-IsSafe ok_m i wf pc pc_word
  exec-IsSafe op_or = exec_or-IsSafe ok_m i wf pc pc_word
  exec-IsSafe op_ori = exec_ori-IsSafe ok_m i wf pc pc_word
  exec-IsSafe op_rfe = tt
  exec-IsSafe op_sb = exec_store-IsSafe ok_m i wf pc pc_word 1
  exec-IsSafe op_sh = exec_store-IsSafe ok_m i wf pc pc_word 2
  exec-IsSafe op_sll = exec_sll-IsSafe ok_m i wf pc pc_word
  exec-IsSafe op_sllv = exec_sllv-IsSafe ok_m i wf pc pc_word
  exec-IsSafe op_slt = exec_slt-IsSafe ok_m i wf pc pc_word
  exec-IsSafe op_slti = exec_slti-IsSafe ok_m i wf pc pc_word
  exec-IsSafe op_sltiu = exec_sltiu-IsSafe ok_m i wf pc pc_word
  exec-IsSafe op_sltu = exec_sltu-IsSafe ok_m i wf pc pc_word
  exec-IsSafe op_sra = exec_sra-IsSafe ok_m i wf pc pc_word
  exec-IsSafe op_srav = exec_srav-IsSafe ok_m i wf pc pc_word
  exec-IsSafe op_srl = exec_srl-IsSafe ok_m i wf pc pc_word
  exec-IsSafe op_srlv = exec_srlv-IsSafe ok_m i wf pc pc_word
  exec-IsSafe op_sub = exec_sub-IsSafe ok_m i wf pc pc_word
  exec-IsSafe op_subu = exec_subu-IsSafe ok_m i wf pc pc_word
  exec-IsSafe op_sw = exec_store-IsSafe ok_m i wf pc pc_word 4
  exec-IsSafe op_swl = exec_swl-IsSafe ok_m i wf pc pc_word
  exec-IsSafe op_swr = exec_swr-IsSafe ok_m i wf pc pc_word
  exec-IsSafe op_xor = exec_xor-IsSafe ok_m i wf pc pc_word
  exec-IsSafe op_xori = exec_xori-IsSafe ok_m i wf pc pc_word
  exec-IsSafe op_syscall = trap-IsSafe ok_m i wf pc pc_word syscall_exception 0 (omega arith)
  exec-IsSafe op_unimp = trap-IsSafe ok_m i wf pc pc_word illegal_instr_exception 0 (omega arith)
  exec-IsSafe op_res = trap-IsSafe ok_m i wf pc pc_word illegal_instr_exception 0 (omega arith)
  exec-IsSafe special = tt
  exec-IsSafe bcond = tt
