-- ===== src/Machine/Exec/Safety/Moves.antt =====
-- The loads and stores of code/machine/mipssim.cc, and the ranges of words, bytes and indices.
use Prim.Native.Nat.{bit_and}
use nachos.Prelude.{
  ℕ, ◌-◌, ◌%◌, ◌^◌, ◌<◌, ◌≡◌, ap, ◌∙◌, inl, inr, Bool, not, arith, ◌==◌, Bool-cases,
}
use nachos.Machine.{Machine, load_value_reg}
use nachos.Machine.Word.{shl32, sar32}
use nachos.Machine.Decode.{Instruction}
use nachos.Machine.Exec.Effect.{next, advance}
use nachos.Machine.Exec.Load.{
  effective, pending_value, merge_left, merge_right, exec_lb, exec_lh, exec_lw, exec_lwl, exec_lwr,
}
use nachos.Machine.Exec.Store.{exec_store, exec_swl, exec_swr}
use nachos.Machine.Exec.Safety.Transfers.{read_mem-IsSafe, write_mem-IsSafe}
use nachos.Machine.Exec.Safety.{IsValid, IsWellFormed, IsSafe, raise_exception-IsValid}
use nachos.Machine.Exec.Safety.Words.{bit_and-word, bit_or-word, sar32-word}

module _ {m : Machine} (ok_m : IsValid m) (i : Instruction) (wf : IsWellFormed i) (pc : ℕ)
    (pc_word : pc < 2 ^ 32) where
  pending_value-word : pending_value m i.rt < 2 ^ 32
  pending_value-word = ground (arith, ok_m.words load_value_reg, ok_m.words i.rt)

  merge_left-word : (b o v : ℕ) → o < 2 ^ 32 → v < 2 ^ 32 → merge_left b o v < 2 ^ 32
  unfolding merge_left
  merge_left-word b o v ho hv = ground (
    arith,
    bit_or-word (bit_and o 0xff) (shl32 v 8) (bit_and-word o 0xff ho) (omega arith),
    bit_or-word (bit_and o 0xffff) (shl32 v 16) (bit_and-word o 0xffff ho) (omega arith),
    bit_or-word (bit_and o 0xffffff) (shl32 v 24) (bit_and-word o 0xffffff ho) (omega arith),
  )

  merge_right-word : (b o v : ℕ) → o < 2 ^ 32 → v < 2 ^ 32 → merge_right b o v < 2 ^ 32
  unfolding merge_right
  merge_right-word b o v ho hv = ground (
    arith,
    bit_or-word (bit_and o 0xffffff00) (bit_and (sar32 v 24) 0xff) (bit_and-word o _ ho)
        (bit_and-word _ _ (sar32-word v 24 hv)),
    bit_or-word (bit_and o 0xffff0000) (bit_and (sar32 v 16) 0xffff) (bit_and-word o _ ho)
        (bit_and-word _ _ (sar32-word v 16 hv)),
    bit_or-word (bit_and o 0xff000000) (bit_and (sar32 v 8) 0xffffff) (bit_and-word o _ ho)
        (bit_and-word _ _ (sar32-word v 8 hv)),
  )

  -- The end of a load: the word goes to rt.
  loaded-IsSafe :
      (v : ℕ) (m1 : Machine)
      → v < 2 ^ 32
      → IsValid m1
      → m1.registers ≡ m.registers
      → IsSafe m (next m1 pc i.rt v)
  loaded-IsSafe v m1 hv valid same = (valid, (λ r h. ap (λ f. f r) same), pc_word, wf.rt_in, hv)

  -- The end of a store.
  stored-IsSafe :
      (m1 : Machine) → IsValid m1 → m1.registers ≡ m.registers → IsSafe m (advance m1 pc)
  stored-IsSafe m1 valid same =
      (valid, (λ r h. ap (λ f. f r) same), pc_word, omega arith, omega arith)

  effective-word : effective m i < 2 ^ 32
  effective-word = omega arith

  pub exec_lw-IsSafe : IsSafe m (exec_lw m i pc)
  unfolding exec_lw
  exec_lw-IsSafe = elim (Bool-cases (not (effective m i % 4 == 0))) [
    | inl e ↦ rw e (raise_exception-IsValid ok_m (effective m i) effective-word)
    | inr e ↦ rw e (read_mem-IsSafe ok_m (effective m i) 4 effective-word _ loaded-IsSafe)
  ]

  pub exec_lb-IsSafe : (s : Bool) → IsSafe m (exec_lb s m i pc)
  unfolding exec_lb
  exec_lb-IsSafe s = read_mem-IsSafe ok_m (effective m i) 1 effective-word _ (λ v m1 hv valid same.
      loaded-IsSafe _ m1
        (ground (arith, bit_or-word v 0xffffff00 hv (omega arith), bit_and-word v 0xff hv)) valid
        same)

  pub exec_lh-IsSafe : (s : Bool) → IsSafe m (exec_lh s m i pc)
  unfolding exec_lh
  exec_lh-IsSafe s = elim (Bool-cases (not (effective m i % 2 == 0))) [
    | inl e ↦ rw e (raise_exception-IsValid ok_m (effective m i) effective-word)
    | inr e ↦ rw e (
        read_mem-IsSafe ok_m (effective m i) 2 effective-word _ (λ v m1 hv valid same.
          loaded-IsSafe _ m1
            (ground (arith, bit_or-word v 0xffff0000 hv (omega arith), bit_and-word v 0xffff hv))
            valid same))
  ]

  pub exec_lwl-IsSafe : IsSafe m (exec_lwl m i pc)
  unfolding exec_lwl
  exec_lwl-IsSafe =
      read_mem-IsSafe ok_m (effective m i - effective m i % 4) 4 (omega arith) _
        (λ v m1 hv valid same.
          loaded-IsSafe _ m1
            (merge_left-word (effective m i % 4) _ v
              (ground (arith, pending_value-word, valid.words load_value_reg, valid.words i.rt)) hv)
            valid same)

  pub exec_lwr-IsSafe : IsSafe m (exec_lwr m i pc)
  unfolding exec_lwr
  exec_lwr-IsSafe =
      read_mem-IsSafe ok_m (effective m i - effective m i % 4) 4 (omega arith) _
        (λ v m1 hv valid same.
          loaded-IsSafe _ m1
            (merge_right-word (effective m i % 4) _ v
              (ground (arith, pending_value-word, valid.words load_value_reg, valid.words i.rt)) hv)
            valid same)

  pub exec_store-IsSafe : (size : ℕ) → IsSafe m (exec_store size m i pc)
  unfolding exec_store
  exec_store-IsSafe size =
      write_mem-IsSafe m ok_m (effective m i) size (m.registers i.rt) effective-word _ stored-IsSafe

  pub exec_swl-IsSafe : IsSafe m (exec_swl m i pc)
  unfolding exec_swl
  exec_swl-IsSafe =
      read_mem-IsSafe ok_m (effective m i - effective m i % 4) 4 (omega arith) _
        (λ v m1 hv valid same.
          write_mem-IsSafe m valid (effective m i - effective m i % 4) 4 _ (omega arith) _
            (λ m2 valid2 same2. stored-IsSafe m2 valid2 (same2 ∙ same)))

  pub exec_swr-IsSafe : IsSafe m (exec_swr m i pc)
  unfolding exec_swr
  exec_swr-IsSafe =
      read_mem-IsSafe ok_m (effective m i - effective m i % 4) 4 (omega arith) _
        (λ v m1 hv valid same.
          write_mem-IsSafe m valid (effective m i - effective m i % 4) 4 _ (omega arith) _
            (λ m2 valid2 same2. stored-IsSafe m2 valid2 (same2 ∙ same)))
