-- ===== src/Exceptions.antt =====
-- code/userprog/exception.cc: from a user program's system calls into the kernel.
pub mod Copy
pub mod Decimal
pub mod Calls
pub mod Handler
use nachos.Prelude.{
  ℕ, zero, suc, List, [], ◌∷◌, Result, ok, abort, ℤ, pos, negsuc, ◌+◌, ◌-◌, ◌%◌, ◌^◌,
}
use nachos.Machine.{Machine, put, pc_reg, next_pc_reg, prev_pc_reg}
use nachos.Machine.Word.{add32}
use nachos.Filesys.FileTable.{Name, Files}

-- A call comes back, stops the machine by Interrupt::Halt, or fails an ASSERT or leaves the bounds
-- of an array.
pub data Outcome {ℓ} (A : Type ℓ) : Type ℓ where
  returns : A → Outcome A
  halts aborts : Outcome A

infixl 5 ◌>>=◌
abbrev pub ◌>>=◌ {ℓ κ} : {A : Type ℓ} {B : Type κ} → Outcome A → (A → Outcome B) → Outcome B
returns x >>= rest = rest x
halts >>= rest = halts
aborts >>= rest = aborts

abbrev pub lift {ℓ} : {A : Type ℓ} → Result A → Outcome A
lift abort = aborts
lift (ok x) = returns x

-- strlen and what uses it: the characters before the NUL, which the array must have.
abbrev pub c_string : List ℕ → Result Name
c_string [] = abort
c_string (zero ∷ cs) = ok []
c_string (suc c ∷ cs) = elim (c_string cs) as (λ r. Result Name) [
  | ok name ↦ ok (suc c ∷ name)
  | abort ↦ abort
]

pub record Kernel (S : Type 0) : Type 0 where
  pub machine : Machine
  pub files : Files S

-- The calls of PTable and STable, which may go to other threads: Exec, Join and Exit of processes,
-- and Create, Wait and Signal of semaphores. ExecV makes the one of Exec.
pub data Request : Type 0 where
  exec_update exec_v_update : Name → Request
  join_update exit_update : ℤ → Request
  create : Name → ℤ → Request
  wait signal : Name → Request

-- How the case of a system call ends: the user program goes on, or a table is called.
pub data Served (S : Type 0) : Type 0 where
  goes_on : Kernel S → Served S
  asks : Request → Kernel S → Served S

-- The bit pattern of an int.
abbrev pub word_of : ℤ → ℕ
word_of (pos n) = n % 2 ^ 32
word_of (negsuc n) = 2 ^ 32 - 1 - n % 2 ^ 32

-- IncreasePC of ksyscall.h
unfoldable pub increase_pc : Machine → Machine
increase_pc m =
    let m1 = put m prev_pc_reg (m.registers pc_reg) in
    let m2 = put m1 pc_reg (add32 (m1.registers pc_reg) 4) in
    put m2 next_pc_reg (add32 (m2.registers pc_reg) 4)

-- What holds of every result that comes back.
abbrev pub Ends : {A : Type 0} → (A → Type 0) → Outcome A → Type 0
Ends P (returns x) = P x
Ends P halts = Unit {0}
Ends P aborts = Unit {0}

pub Ends->>= :
    {A B : Type 0} (P : A → Type 0) (Q : B → Type 0) (o : Outcome A) (f : A → Outcome B)
    → Ends P o
    → ((x : A) → P x → Ends Q (f x))
    → Ends Q (o >>= f)
Ends->>= P Q (returns x) f h next = next x h
Ends->>= P Q halts f h next = tt
Ends->>= P Q aborts f h next = tt

pub Ends-weaken :
    {A : Type 0} {P Q : A → Type 0} (o : Outcome A) → Ends P o → ((x : A) → P x → Q x) → Ends Q o
Ends-weaken (returns x) h next = next x h
Ends-weaken halts h next = tt
Ends-weaken aborts h next = tt

pub Ends-lift : {A : Type 0} (r : Result A) → Ends (λ x. Unit {0}) (lift r)
Ends-lift abort = tt
Ends-lift (ok x) = tt
