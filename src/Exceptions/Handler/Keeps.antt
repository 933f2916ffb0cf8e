-- ===== src/Exceptions/Handler/Keeps.antt =====
-- ExceptionHandler of code/userprog/exception.cc: the registers of the user program after a system
-- call.
use nachos.Prelude.{ℕ, ◌≡◌, ◌≢◌, ap, ◌∙◌, List, ℤ, arith}
use nachos.Machine.{Machine, update, pc_reg, next_pc_reg, prev_pc_reg}
use nachos.Machine.Word.{add32}
use nachos.Exceptions.{lift, c_string, Kernel, word_of, increase_pc, Ends, Ends->>=, Ends-lift}
use nachos.Exceptions.Copy.{user2_system, system2_user}
use nachos.Exceptions.Copy.Bounds.{SameAfter, user2_system_registers, system2_user_registers}
use nachos.Exceptions.Calls.{write_result, next_instruction, buffer_at, name_at, to_user}

-- Only register 2 may differ.
abbrev pub Agrees : (ℕ → ℕ) → (ℕ → ℕ) → Type 0
Agrees old new = (r : ℕ) → r ≢ 2 → new r ≡ old r

-- The program goes on behind the system call, with every other register as it was.
abbrev pub Advances : (ℕ → ℕ) → (ℕ → ℕ) → Type 0
Advances old new =
    (new pc_reg ≡ add32 (old pc_reg) 4)
    × (new prev_pc_reg ≡ old pc_reg)
    × (new next_pc_reg ≡ add32 (add32 (old pc_reg) 4) 4)
    × ((r : ℕ) → r ≢ 2 → r ≢ pc_reg → r ≢ prev_pc_reg → r ≢ next_pc_reg → new r ≡ old r)

increase_pc-Advances :
    (old : ℕ → ℕ) (m : Machine) → Agrees old m.registers → Advances old (increase_pc m).registers
unfolding increase_pc
increase_pc-Advances old m agrees =
    let at_pc : m.registers pc_reg ≡ old pc_reg = agrees pc_reg (omega arith) in
    (
      ap (λ x. add32 x 4) at_pc,
      at_pc,
      ap (λ x. add32 (add32 x 4) 4) at_pc,
      λ r a b c d.
          let unchanged : (increase_pc m).registers r ≡ m.registers r = ground arith in
          unchanged ∙ agrees r a,
    )

module _ {S : Type 0} where
  abbrev pub regs : Kernel S → ℕ → ℕ
  regs k = k.machine.registers

  abbrev pub Kept : {A : Type 0} → (ℕ → ℕ) → A × Kernel S → Type 0
  Kept old (x, k) = Agrees old (regs k)

  pub next_instruction-Advances :
      (old : ℕ → ℕ) (k : Kernel S) → Agrees old (regs k) → Advances old (regs (next_instruction k))
  unfolding next_instruction
  next_instruction-Advances old k h = increase_pc-Advances old k.machine h

  pub write_result-Agrees :
      (old : ℕ → ℕ) (k : Kernel S) (result : ℤ)
      → Agrees old (regs k)
      → Agrees old (regs (write_result k result))
  unfolding write_result
  write_result-Agrees old k result h r ne =
      let unchanged : update (regs k) 2 (word_of result) r ≡ regs k r = ground arith in
      unchanged ∙ h r ne

  pub buffer_at-Kept :
      (old : ℕ → ℕ) (k : Kernel S) (addr : ℕ) (limit : ℤ)
      → Agrees old (regs k)
      → Ends (Kept old) (buffer_at k addr limit)
  unfolding buffer_at
  buffer_at-Kept old k addr limit h =
      Ends->>= (SameAfter k.machine) _ (user2_system k.machine addr limit) _
        (user2_system_registers k.machine addr limit)
        (λ (buffer, m) same r ne. ap (λ (f : ℕ → ℕ). f r) same ∙ h r ne)

  pub name_at-Kept :
      (old : ℕ → ℕ) (k : Kernel S) (addr : ℕ) (limit : ℤ)
      → Agrees old (regs k)
      → Ends (Kept old) (name_at k addr limit)
  unfolding name_at
  name_at-Kept old k addr limit h =
      Ends->>= (Kept old) _ (buffer_at k addr limit) _ (buffer_at-Kept old k addr limit h)
        (λ (buffer, k1) same.
          Ends->>= (λ x. Unit {0}) _ (lift (c_string buffer)) _ (Ends-lift (c_string buffer))
            (λ name _. same))

  pub to_user-Kept :
      (old : ℕ → ℕ) (k : Kernel S) (addr : ℕ) (len : ℤ) (buffer : List ℕ)
      → Agrees old (regs k)
      → Ends (λ k1. Agrees old (regs k1)) (to_user k addr len buffer)
  unfolding to_user
  to_user-Kept old k addr len buffer h =
      Ends->>= (SameAfter k.machine) _ (system2_user k.machine addr len buffer) _
        (system2_user_registers k.machine addr len buffer)
        (λ (count, m) same r ne. ap (λ (f : ℕ → ℕ). f r) same ∙ h r ne)
