-- ===== src/Machine/Exec/Safety/Cases.antt =====
-- The cases of the switch of Machine::OneInstruction, code/machine/mipssim.cc, and the ranges of
-- words and indices.
use Prim.Native.Nat.{bit_or, bit_xor}
use nachos.Prelude.{
  ℕ, ◌-◌, ◌%◌, ◌^◌, ◌<◌, refl, inl, inr, Bool, true, false, not, ◌&&◌, arith, if◌then◌else◌, ◌==◌,
  ltb, Bool-cases,
}
use native.Mathlib.Nat.{mod-le, div-le_self}
use nachos.Bits.{bit_not}
use nachos.Machine.{Machine, ExceptionType, put, overflow_exception, hi_reg, lo_reg}
use nachos.Machine.Word.{add32, sub32, is_neg, lt_int, shl32}
use nachos.Machine.Decode.{Instruction}
use nachos.Machine.Exec.Effect.{advance, trap}
use nachos.Machine.Exec.Arith.{
  exec_add, exec_addi, exec_addiu, exec_addu, exec_and, exec_andi, exec_div, exec_divu, exec_lui,
  exec_mfhi, exec_mflo, exec_mthi, exec_mtlo, exec_mult, exec_nor, exec_or, exec_ori, exec_slt,
  exec_slti, exec_sltiu, exec_sltu, exec_sub, exec_subu, exec_xor, exec_xori, div_int,
}
use nachos.Machine.Exec.Shift.{exec_sll, exec_sllv, exec_sra, exec_srav, exec_srl, exec_srlv}
use nachos.Machine.Exec.Safety.{IsValid, IsWellFormed, IsSafe, put-IsValid, raise_exception-IsValid}
use nachos.Machine.Exec.Safety.Words.{
  bit_and-word, bit_or-word, bit_xor-word, sar32-word, div_int-word, rem_int-word, mult-IsWide,
}

module _ {m : Machine} (ok_m : IsValid m) (i : Instruction) (wf : IsWellFormed i) (pc : ℕ)
    (pc_word : pc < 2 ^ 32) where
  pub advance-IsSafe : IsSafe m (advance m pc)
  advance-IsSafe = (ok_m, (λ r h. refl), pc_word, omega arith, omega arith)

  pub trap-IsSafe : (e : ExceptionType) (v : ℕ) → v < 2 ^ 32 → IsSafe m (trap m e v)
  trap-IsSafe e v h = raise_exception-IsValid ok_m v h

  pub write-IsSafe : (r v : ℕ) → r < 34 → v < 2 ^ 32 → IsSafe m (advance (put m r v) pc)
  write-IsSafe r v hr hv =
      (put-IsValid ok_m r v hr hv, (λ k h. ground arith), pc_word, omega arith, omega arith)

  two_writes-IsSafe :
      (r v s w : ℕ)
      → r < 34
      → v < 2 ^ 32
      → s < 34
      → w < 2 ^ 32
      → IsSafe m (advance (put (put m r v) s w) pc)
  two_writes-IsSafe r v s w hr hv hs hw = (
    put-IsValid (put-IsValid ok_m r v hr hv) s w hs hw,
    (λ k h. ground arith),
    pc_word,
    omega arith,
    omega arith,
  )

  to_rd : (v : ℕ) → v < 2 ^ 32 → IsSafe m (advance (put m i.rd v) pc)
  to_rd v = write-IsSafe i.rd v (omega (arith, wf.rd_in))

  to_rt : (v : ℕ) → v < 2 ^ 32 → IsSafe m (advance (put m i.rt v) pc)
  to_rt v = write-IsSafe i.rt v (omega (arith, wf.rt_in))

  -- `if (test) { RaiseException(...); return; }`
  unless_rd :
      (b : Bool) (v : ℕ)
      → v < 2 ^ 32
      → IsSafe m (if b then trap m overflow_exception 0 else advance (put m i.rd v) pc)
  unless_rd true v h = trap-IsSafe overflow_exception 0 (omega arith)
  unless_rd false v h = to_rd v h

  flag_rd :
      (b : Bool) → IsSafe m (if b then advance (put m i.rd 1) pc else advance (put m i.rd 0) pc)
  flag_rd true = to_rd 1 (omega arith)
  flag_rd false = to_rd 0 (omega arith)

  flag_rt :
      (b : Bool) → IsSafe m (if b then advance (put m i.rt 1) pc else advance (put m i.rt 0) pc)
  flag_rt true = to_rt 1 (omega arith)
  flag_rt false = to_rt 0 (omega arith)

  pub exec_add-IsSafe : IsSafe m (exec_add m i pc)
  unfolding exec_add
  exec_add-IsSafe =
      unless_rd
        (not (is_neg (bit_xor (m.registers i.rs) (m.registers i.rt)))
          && is_neg (bit_xor (m.registers i.rs) (add32 (m.registers i.rs) (m.registers i.rt))))
        (add32 (m.registers i.rs) (m.registers i.rt)) (omega arith)

  pub exec_addi-IsSafe : IsSafe m (exec_addi m i pc)
  unfolding exec_addi
  exec_addi-IsSafe =
      elim (Bool-cases (
        not (is_neg (bit_xor (m.registers i.rs) i.extra))
        && is_neg (bit_xor i.extra (add32 (m.registers i.rs) i.extra)))) [
          | inl e ↦ rw e (trap-IsSafe overflow_exception 0 (omega arith))
          | inr e ↦ rw e (to_rt (add32 (m.registers i.rs) i.extra) (omega arith))
        ]

  pub exec_sub-IsSafe : IsSafe m (exec_sub m i pc)
  unfolding exec_sub
  exec_sub-IsSafe =
      unless_rd
        (is_neg (bit_xor (m.registers i.rs) (m.registers i.rt))
          && is_neg (bit_xor (m.registers i.rs) (sub32 (m.registers i.rs) (m.registers i.rt))))
        (sub32 (m.registers i.rs) (m.registers i.rt)) (omega arith)

  pub exec_addiu-IsSafe : IsSafe m (exec_addiu m i pc)
  unfolding exec_addiu
  exec_addiu-IsSafe = to_rt (add32 (m.registers i.rs) i.extra) (omega arith)

  pub exec_addu-IsSafe : IsSafe m (exec_addu m i pc)
  unfolding exec_addu
  exec_addu-IsSafe = to_rd (add32 (m.registers i.rs) (m.registers i.rt)) (omega arith)

  pub exec_subu-IsSafe : IsSafe m (exec_subu m i pc)
  unfolding exec_subu
  exec_subu-IsSafe = to_rd (sub32 (m.registers i.rs) (m.registers i.rt)) (omega arith)

  pub exec_and-IsSafe : IsSafe m (exec_and m i pc)
  unfolding exec_and
  exec_and-IsSafe = to_rd _ (bit_and-word _ _ (ok_m.words i.rs))

  pub exec_andi-IsSafe : IsSafe m (exec_andi m i pc)
  unfolding exec_andi
  exec_andi-IsSafe = to_rt _ (bit_and-word _ _ (ok_m.words i.rs))

  pub exec_or-IsSafe : IsSafe m (exec_or m i pc)
  unfolding exec_or
  exec_or-IsSafe = to_rd _ (bit_or-word _ _ (ok_m.words i.rs) (ok_m.words i.rt))

  pub exec_ori-IsSafe : IsSafe m (exec_ori m i pc)
  unfolding exec_ori
  exec_ori-IsSafe =
      to_rt _ (bit_or-word (m.registers i.rs) (i.extra % 2 ^ 16) (ok_m.words i.rs) (omega arith))

  pub exec_xor-IsSafe : IsSafe m (exec_xor m i pc)
  unfolding exec_xor
  exec_xor-IsSafe = to_rd _ (bit_xor-word _ _ (ok_m.words i.rs) (ok_m.words i.rt))

  pub exec_xori-IsSafe : IsSafe m (exec_xori m i pc)
  unfolding exec_xori
  exec_xori-IsSafe =
      to_rt _ (bit_xor-word (m.registers i.rs) (i.extra % 2 ^ 16) (ok_m.words i.rs) (omega arith))

  pub exec_nor-IsSafe : IsSafe m (exec_nor m i pc)
  unfolding exec_nor
  exec_nor-IsSafe = to_rd (bit_not 32 (bit_or (m.registers i.rs) (m.registers i.rt))) (omega arith)

  pub exec_lui-IsSafe : IsSafe m (exec_lui m i pc)
  unfolding exec_lui
  exec_lui-IsSafe = to_rt (shl32 i.extra 16) (omega arith)

  pub exec_mfhi-IsSafe : IsSafe m (exec_mfhi m i pc)
  unfolding exec_mfhi
  exec_mfhi-IsSafe = to_rd _ (ok_m.words hi_reg)

  pub exec_mflo-IsSafe : IsSafe m (exec_mflo m i pc)
  unfolding exec_mflo
  exec_mflo-IsSafe = to_rd _ (ok_m.words lo_reg)

  pub exec_mthi-IsSafe : IsSafe m (exec_mthi m i pc)
  unfolding exec_mthi
  exec_mthi-IsSafe = write-IsSafe hi_reg _ (omega arith) (ok_m.words i.rs)

  pub exec_mtlo-IsSafe : IsSafe m (exec_mtlo m i pc)
  unfolding exec_mtlo
  exec_mtlo-IsSafe = write-IsSafe lo_reg _ (omega arith) (ok_m.words i.rs)

  pub exec_mult-IsSafe : (s : Bool) → IsSafe m (exec_mult s m i pc)
  unfolding exec_mult
  exec_mult-IsSafe s =
      let (hi, lo) = mult-IsWide _ _ s (ok_m.words i.rs) (ok_m.words i.rt) in
      two_writes-IsSafe hi_reg _ lo_reg _ (omega arith) hi (omega arith) lo

  pub exec_div-IsSafe : IsSafe m (exec_div m i pc)
  unfolding exec_div
  exec_div-IsSafe = elim (Bool-cases (m.registers i.rt == 0)) [
    | inl z ↦ rw z (
        two_writes-IsSafe lo_reg 0 hi_reg 0 (omega arith) (omega arith) (omega arith) (omega arith))
    | inr nz ↦
        rw nz
          (elim (Bool-cases ((m.registers i.rs == 2 ^ 31) && (m.registers i.rt == 2 ^ 32 - 1))) [
            | inl t ↦ rw t tt
            | inr n ↦ rw n (
                two_writes-IsSafe lo_reg (div_int (m.registers i.rs) (m.registers i.rt)) hi_reg _
                  (omega arith) (div_int-word _ _ (ok_m.words i.rs)) (omega arith)
                  (rem_int-word _
                    ((put m lo_reg (div_int (m.registers i.rs) (m.registers i.rt))).registers i.rt)
                    (ground (
                      arith,
                      ok_m.words i.rs,
                      div_int-word (m.registers i.rs) (m.registers i.rt),
                    ))))
          ])
  ]

  pub exec_divu-IsSafe : IsSafe m (exec_divu m i pc)
  unfolding exec_divu
  exec_divu-IsSafe = elim (Bool-cases (m.registers i.rt == 0)) [
    | inl z ↦ rw z (
        two_writes-IsSafe lo_reg 0 hi_reg 0 (omega arith) (omega arith) (omega arith) (omega arith))
    | inr nz ↦ rw nz (
        two_writes-IsSafe lo_reg _ hi_reg _ (omega arith)
          (omega (arith, ok_m.words i.rs, div-le_self (m.registers i.rs) (m.registers i.rt)))
          (omega arith)
          (omega (arith, ok_m.words i.rs, mod-le (m.registers i.rs) (m.registers i.rt))))
  ]

  pub exec_slt-IsSafe : IsSafe m (exec_slt m i pc)
  unfolding exec_slt
  exec_slt-IsSafe = flag_rd (lt_int (m.registers i.rs) (m.registers i.rt))

  pub exec_slti-IsSafe : IsSafe m (exec_slti m i pc)
  unfolding exec_slti
  exec_slti-IsSafe = flag_rt (lt_int (m.registers i.rs) i.extra)

  pub exec_sltiu-IsSafe : IsSafe m (exec_sltiu m i pc)
  unfolding exec_sltiu
  exec_sltiu-IsSafe = flag_rt (ltb (m.registers i.rs) i.extra)

  pub exec_sltu-IsSafe : IsSafe m (exec_sltu m i pc)
  unfolding exec_sltu
  exec_sltu-IsSafe = flag_rd (ltb (m.registers i.rs) (m.registers i.rt))

  pub exec_sll-IsSafe : IsSafe m (exec_sll m i pc)
  unfolding exec_sll
  exec_sll-IsSafe = to_rd (shl32 (m.registers i.rt) i.extra) (omega arith)

  pub exec_sllv-IsSafe : IsSafe m (exec_sllv m i pc)
  unfolding exec_sllv
  exec_sllv-IsSafe = to_rd (shl32 (m.registers i.rt) (m.registers i.rs % 32)) (omega arith)

  pub exec_sra-IsSafe : IsSafe m (exec_sra m i pc)
  unfolding exec_sra
  exec_sra-IsSafe = to_rd _ (sar32-word _ _ (ok_m.words i.rt))

  pub exec_srav-IsSafe : IsSafe m (exec_srav m i pc)
  unfolding exec_srav
  exec_srav-IsSafe = to_rd _ (sar32-word _ _ (ok_m.words i.rt))

  pub exec_srl-IsSafe : IsSafe m (exec_srl m i pc)
  unfolding exec_srl
  exec_srl-IsSafe = to_rd _ (sar32-word _ _ (ok_m.words i.rt))

  pub exec_srlv-IsSafe : IsSafe m (exec_srlv m i pc)
  unfolding exec_srlv
  exec_srlv-IsSafe = to_rd _ (sar32-word _ _ (ok_m.words i.rt))
