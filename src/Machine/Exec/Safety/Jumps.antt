-- ===== src/Machine/Exec/Safety/Jumps.antt =====
-- The branches and jumps of code/machine/mipssim.cc, and the ranges of words, bytes and indices.
use Prim.Native.Nat.{bit_and}
use nachos.Prelude.{ℕ, ◌^◌, ◌<◌, refl, Bool, not, arith, ◌==◌}
use nachos.Machine.{Machine, put, ret_addr_reg, next_pc_reg}
use nachos.Machine.Word.{add32, is_neg, lt_int}
use nachos.Machine.Decode.{Instruction}
use nachos.Machine.Exec.Effect.{advance}
use nachos.Machine.Exec.Branch.{
  index_to_addr, branch_if, link, exec_beq, exec_bgez, exec_bgezal, exec_bgtz, exec_blez, exec_bltz,
  exec_bltzal, exec_bne, exec_j, exec_jal, exec_jr, exec_jalr,
}
use nachos.Machine.Exec.Safety.{IsValid, IsWellFormed, SameSpecial, IsSafe, put-IsValid}
use nachos.Machine.Exec.Safety.Words.{bit_and-word, bit_or-word}

to_IsSafe :
    (m m1 : Machine) (pc : ℕ)
    → IsValid m1
    → SameSpecial m m1
    → pc < 2 ^ 32
    → IsSafe m (advance m1 pc)
to_IsSafe m m1 pc v s h = (v, s, h, omega arith, omega arith)

module _ (m m1 : Machine) (ok_m1 : IsValid m1) (same : SameSpecial m m1) (i : Instruction) (pc : ℕ)
    (pc_word : pc < 2 ^ 32) where
  branch_if-IsSafe : (b : Bool) → IsSafe m (branch_if b m1 i pc)
  branch_if-IsSafe b = to_IsSafe m m1 _ ok_m1 same (ground arith)

  bgez-IsSafe : IsSafe m (exec_bgez m1 i pc)
  unfolding exec_bgez
  bgez-IsSafe = branch_if-IsSafe (not (is_neg (m1.registers i.rs)))

  bltz-IsSafe : IsSafe m (exec_bltz m1 i pc)
  unfolding exec_bltz
  bltz-IsSafe = branch_if-IsSafe (is_neg (m1.registers i.rs))

  j-IsSafe : IsSafe m (exec_j m1 i pc)
  unfolding exec_j
  j-IsSafe = to_IsSafe m m1 _ ok_m1 same (
      bit_or-word (bit_and pc 0xf0000000) (index_to_addr i.extra)
        (bit_and-word pc 0xf0000000 pc_word) (omega arith))

  jr-IsSafe : IsSafe m (exec_jr m1 i pc)
  unfolding exec_jr
  jr-IsSafe = to_IsSafe m m1 _ ok_m1 same (ok_m1.words i.rs)

module _ {m : Machine} (ok_m : IsValid m) (i : Instruction) (wf : IsWellFormed i) (pc : ℕ)
    (pc_word : pc < 2 ^ 32) where
  link-IsValid : IsValid (link m)
  link-IsValid = put-IsValid ok_m ret_addr_reg _ (omega arith) (omega arith)

  link-SameSpecial : SameSpecial m (link m)
  link-SameSpecial r h = ground arith

  branch-IsSafe : (b : Bool) → IsSafe m (branch_if b m i pc)
  branch-IsSafe = branch_if-IsSafe m m ok_m (λ r h. refl) i pc pc_word

  pub exec_beq-IsSafe : IsSafe m (exec_beq m i pc)
  unfolding exec_beq
  exec_beq-IsSafe = branch-IsSafe (m.registers i.rs == m.registers i.rt)

  pub exec_bne-IsSafe : IsSafe m (exec_bne m i pc)
  unfolding exec_bne
  exec_bne-IsSafe = branch-IsSafe (not (m.registers i.rs == m.registers i.rt))

  pub exec_bgtz-IsSafe : IsSafe m (exec_bgtz m i pc)
  unfolding exec_bgtz
  exec_bgtz-IsSafe = branch-IsSafe (lt_int 0 (m.registers i.rs))

  pub exec_blez-IsSafe : IsSafe m (exec_blez m i pc)
  unfolding exec_blez
  exec_blez-IsSafe = branch-IsSafe (not (lt_int 0 (m.registers i.rs)))

  pub exec_bgez-IsSafe : IsSafe m (exec_bgez m i pc)
  exec_bgez-IsSafe = bgez-IsSafe m m ok_m (λ r h. refl) i pc pc_word

  pub exec_bltz-IsSafe : IsSafe m (exec_bltz m i pc)
  exec_bltz-IsSafe = bltz-IsSafe m m ok_m (λ r h. refl) i pc pc_word

  pub exec_bgezal-IsSafe : IsSafe m (exec_bgezal m i pc)
  unfolding exec_bgezal
  exec_bgezal-IsSafe = bgez-IsSafe m (link m) link-IsValid link-SameSpecial i pc pc_word

  pub exec_bltzal-IsSafe : IsSafe m (exec_bltzal m i pc)
  unfolding exec_bltzal
  exec_bltzal-IsSafe = bltz-IsSafe m (link m) link-IsValid link-SameSpecial i pc pc_word

  pub exec_j-IsSafe : IsSafe m (exec_j m i pc)
  exec_j-IsSafe = j-IsSafe m m ok_m (λ r h. refl) i pc pc_word

  pub exec_jal-IsSafe : IsSafe m (exec_jal m i pc)
  unfolding exec_jal
  exec_jal-IsSafe = j-IsSafe m (link m) link-IsValid link-SameSpecial i pc pc_word

  pub exec_jr-IsSafe : IsSafe m (exec_jr m i pc)
  exec_jr-IsSafe = jr-IsSafe m m ok_m (λ r h. refl) i pc pc_word

  pub exec_jalr-IsSafe : IsSafe m (exec_jalr m i pc)
  unfolding exec_jalr
  exec_jalr-IsSafe =
      jr-IsSafe m (put m i.rd (add32 (m.registers next_pc_reg) 4))
        (put-IsValid ok_m i.rd _ (omega (arith, wf.rd_in)) (omega arith))
        (λ r h. ground (arith, wf.rd_in)) i pc pc_word
