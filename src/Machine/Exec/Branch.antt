-- ===== src/Machine/Exec/Branch.antt =====
-- The branches and jumps of code/machine/mipssim.cc.
use Prim.Native.Nat.{bit_and, bit_or}
use nachos.Prelude.{ℕ, Bool, not, if◌then◌else◌, ◌==◌}
use nachos.Machine.{Machine, put, next_pc_reg, ret_addr_reg}
use nachos.Machine.Word.{add32, is_neg, lt_int, shl32}
use nachos.Machine.Exec.Effect.{advance, Case}

-- IndexToAddr(x)
abbrev pub index_to_addr : ℕ → ℕ
index_to_addr x = shl32 x 2

-- `pcAfter = registers[NextPCReg] + IndexToAddr(instr->extra)` if the test holds
abbrev pub branch_if : Bool → Case
branch_if taken m i pc =
    advance m (if taken then add32 (m.registers next_pc_reg) (index_to_addr i.extra) else pc)

-- `registers[R31] = registers[NextPCReg] + 4`
abbrev pub link : Machine → Machine
link m = put m ret_addr_reg (add32 (m.registers next_pc_reg) 4)

unfoldable pub exec_beq : Case
exec_beq m i pc = branch_if (m.registers i.rs == m.registers i.rt) m i pc

unfoldable pub exec_bgez : Case
exec_bgez m i pc = branch_if (not (is_neg (m.registers i.rs))) m i pc

unfoldable pub exec_bgezal : Case
exec_bgezal m i pc = exec_bgez (link m) i pc

unfoldable pub exec_bgtz : Case
exec_bgtz m i pc = branch_if (lt_int 0 (m.registers i.rs)) m i pc

unfoldable pub exec_blez : Case
exec_blez m i pc = branch_if (not (lt_int 0 (m.registers i.rs))) m i pc

unfoldable pub exec_bltz : Case
exec_bltz m i pc = branch_if (is_neg (m.registers i.rs)) m i pc

unfoldable pub exec_bltzal : Case
exec_bltzal m i pc = exec_bltz (link m) i pc

unfoldable pub exec_bne : Case
exec_bne m i pc = branch_if (not (m.registers i.rs == m.registers i.rt)) m i pc

unfoldable pub exec_j : Case
exec_j m i pc = advance m (bit_or (bit_and pc 0xf0000000) (index_to_addr i.extra))

unfoldable pub exec_jal : Case
exec_jal m i pc = exec_j (link m) i pc

unfoldable pub exec_jr : Case
exec_jr m i pc = advance m (m.registers i.rs)

unfoldable pub exec_jalr : Case
exec_jalr m i pc = exec_jr (put m i.rd (add32 (m.registers next_pc_reg) 4)) i pc
