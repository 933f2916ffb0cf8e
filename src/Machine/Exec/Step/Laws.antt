-- ===== src/Machine/Exec/Step/Laws.antt =====
-- Machine::OneInstruction, code/machine/mipssim.cc, over all instructions.
use nachos.Prelude.{◌==◌, if◌then◌else◌, ℕ, zero, suc, ◌<◌, ◌≡◌, refl, sym, ap, ◌∙◌, subst, arith}
use nachos.Machine.{
  Machine, pc_reg, next_pc_reg, prev_pc_reg, load_reg, load_value_reg, delayed_load,
}
use nachos.Machine.Word.{add32}
use nachos.Machine.Memory.{read_mem, MemResult, value, raised, failed}
use nachos.Machine.Decode.{decode}
use nachos.Machine.Exec.Effect.{Effect, next, raise, fail, ◌>>=◌ as bind}
use nachos.Machine.Exec.Step.{
  exec, retire, Outcome, retired, exception, stopped, finish, one_instruction,
}
use nachos.Machine.Exec.Safety.Transfers.{read_mem-IsSafe}
use nachos.Machine.Exec.Safety.{IsValid, IsSafe, decode-IsWellFormed}
use nachos.Machine.Exec.Safety.Dispatch.{exec-IsSafe}

-- A machine after an instruction has retired: the program counters have moved on by one branch
-- delay slot, register 0 is 0, and the load that was pending has reached its register.
pub record Retired (m m' : Machine) : Type 0 where
  pub valid : IsValid m'
  pub pc : m'.registers pc_reg ≡ m.registers next_pc_reg
  pub prev_pc : m'.registers prev_pc_reg ≡ m.registers pc_reg
  pub zero_reg : m'.registers 0 ≡ 0
  pub pending :
      m'.registers (m.registers load_reg)
      ≡ (if m.registers load_reg == 0 then 0 else m.registers load_value_reg)

pub Ends : Machine → Outcome → Type 0
Ends m (retired m') = Retired m m'
Ends m (exception e m') = IsValid m'
Ends m stopped = Unit {0}

retire_lem :
    (m m1 : Machine) (pc r v : ℕ)
    → IsValid m
    → IsSafe m (next m1 pc r v)
    → Retired m (retire m1 pc r v)
unfolding retire delayed_load
retire_lem m m1 pc r v ok_m (valid, same, hpc, hr, hv) = record {
  valid = record {
    words = λ k. ground (
      arith,
      valid.words k,
      valid.words load_value_reg,
      valid.words pc_reg,
      valid.words next_pc_reg,
    );
    target = ground (arith, valid.target);
    bytes = valid.bytes;
  };
  pc = ground (arith, valid.target, same next_pc_reg (omega arith));
  prev_pc = ground (arith, valid.target, same pc_reg (omega arith));
  zero_reg = ground (arith, valid.target);
  pending = pending_at (m.registers load_reg) refl;
}
  where
    zeroed : (retire m1 pc r v).registers 0 ≡ 0
    zeroed = ground (arith, valid.target)

    loaded :
        0 < m.registers load_reg
        → (retire m1 pc r v).registers (m.registers load_reg) ≡ m.registers load_value_reg
    loaded h =
        ground (arith, ok_m.target, same load_reg (omega arith), same load_value_reg (omega arith))

    pending_at :
        (l : ℕ)
        → m.registers load_reg ≡ l
        → (retire m1 pc r v).registers (m.registers load_reg)
          ≡ (if m.registers load_reg == 0 then 0 else m.registers load_value_reg)
    pending_at zero e =
        ap (λ k. (retire m1 pc r v).registers k) e
        ∙ zeroed
        ∙ sym (ap (λ k. if k == 0 then 0 else m.registers load_value_reg) e)
    pending_at (suc l) e =
        let chosen : (if suc l == 0 then 0 else m.registers load_value_reg)
            ≡ m.registers load_value_reg =
          ground arith in
        loaded (omega arith)
        ∙ sym (ap (λ k. if k == 0 then 0 else m.registers load_value_reg) e ∙ chosen)

finish_lem : (m : Machine) (e : Effect) → IsValid m → IsSafe m e → Ends m (finish e)
unfolding finish Ends
finish_lem m (next m1 pc r v) ok_m s = retire_lem m m1 pc r v ok_m s
finish_lem m (raise e m1) ok_m s = s
finish_lem m fail ok_m s = tt

-- What OneInstruction does with the instruction it has fetched.
abbrev after_fetch : ℕ → Machine → Effect
after_fetch raw m1 = exec (decode raw).op_code m1 (decode raw) (add32 (m1.registers next_pc_reg) 4)

one_instruction_at :
    (m : Machine) (r : MemResult ℕ)
    → read_mem m (m.registers pc_reg) 4 ≡ r
    → one_instruction m ≡ finish (bind r after_fetch)
unfolding one_instruction finish
one_instruction_at m (value raw m1) e = rw (e, one_instruction) refl
one_instruction_at m (raised x m1) e = rw (e, one_instruction) refl
one_instruction_at m failed e = rw (e, one_instruction) refl

IsSafe-of_same :
    (m m1 : Machine) (e : Effect) → m1.registers ≡ m.registers → IsSafe m1 e → IsSafe m e
IsSafe-of_same m m1 (next m2 pc r v) h (valid, same, hpc, hr, hv) =
    (valid, (λ k b. same k b ∙ ap (λ f. f k) h), hpc, hr, hv)
IsSafe-of_same m m1 (raise e m2) h s = s
IsSafe-of_same m m1 fail h s = s

-- From a well-formed machine, one instruction that retires leaves a well-formed machine with PC
-- the old NextPC, PrevPC the old PC, register 0 zero and the pending delayed load in its register,
-- and one that raises an exception leaves a well-formed machine.
pub one_instruction-Ends : (m : Machine) → IsValid m → Ends m (one_instruction m)
one_instruction-Ends m ok_m = subst (Ends m) (sym (one_instruction_at m _ refl)) (
    finish_lem m _ ok_m (
      read_mem-IsSafe ok_m (m.registers pc_reg) 4 (ok_m.words pc_reg) after_fetch
        (λ raw m1 hv valid same. IsSafe-of_same m m1 _ same (
          exec-IsSafe valid (decode raw) (decode-IsWellFormed raw) _ (omega arith)
            (decode raw).op_code))))
