-- ===== src/Machine/Exec/Effect.antt =====
-- How one pass through the switch of Machine::OneInstruction ends.
use nachos.Prelude.{ℕ}
use nachos.Machine.{ExceptionType, Machine, raise_exception}
use nachos.Machine.Decode.{Instruction}
use nachos.Machine.Memory.{MemResult, value, raised, failed}

-- `next m pc_after next_load_reg next_load_value`: the switch is left by break.
-- `raise e m`: it returned after RaiseException; the kernel's handler goes on from m.
-- `fail`: an ASSERT fails, or the host traps.
pub data Effect : Type 0 where
  next : Machine → ℕ → ℕ → ℕ → Effect
  raise : ExceptionType → Machine → Effect
  fail : Effect

-- No delayed load is started.
abbrev pub advance : Machine → ℕ → Effect
advance m pc_after = next m pc_after 0 0

abbrev pub trap : Machine → ExceptionType → ℕ → Effect
trap m e bad_vaddr = raise e (raise_exception m bad_vaddr)

-- `if (!ReadMem(…)) return;` and `if (!WriteMem(…)) return;`
infixl 5 ◌>>=◌
abbrev pub ◌>>=◌ {ℓ} : {A : Type ℓ} → MemResult A → (A → Machine → Effect) → Effect
value a m >>= k = k a m
raised e m >>= k = raise e m
failed >>= k = fail

-- A case of the switch: the machine, the instruction, and NextPC + 4.
abbrev pub Case : Type 0
Case = Machine → Instruction → ℕ → Effect
