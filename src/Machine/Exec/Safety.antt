-- ===== src/Machine/Exec/Safety.antt =====
-- The ranges of the words, bytes and indices of registers of a machine, code/machine/mipssim.cc.
pub mod Words
pub mod Transfers
pub mod Cases
pub mod Jumps
pub mod Moves
pub mod Dispatch
use nachos.Prelude.{ℕ, ◌-◌, ◌/◌, ◌^◌, ◌≤◌, ◌<◌, ◌≡◌, arith}
use nachos.Machine.{
  Machine, put, raise_exception, delayed_load, load_reg, load_value_reg, bad_vaddr_reg,
}
use nachos.Machine.Decode.{Instruction, Format, ifmt, jfmt, rfmt, extra_of, decode, table_entry}
use nachos.Machine.Exec.Effect.{Effect, next, raise, fail}

-- Registers hold words, the pending load has a general register for its target, memory holds bytes.
pub record IsValid (m : Machine) : Type 0 where
  pub words : (r : ℕ) → m.registers r < 2 ^ 32
  pub target : m.registers load_reg < 32
  pub bytes : (a : ℕ) → m.main_memory a < 2 ^ 8

pub record IsWellFormed (i : Instruction) : Type 0 where
  pub rs_in : i.rs < 32
  pub rt_in : i.rt < 32
  pub rd_in : i.rd < 32
  pub extra_in : i.extra < 2 ^ 32

-- The special registers, from PCReg on, are those of m.
abbrev pub SameSpecial : Machine → Machine → Type 0
SameSpecial m m' = (r : ℕ) → 34 ≤ r → m'.registers r ≡ m.registers r

-- How a case of the switch may end.
abbrev pub IsSafe : Machine → Effect → Type 0
IsSafe m (next m' pc r v) = IsValid m' × SameSpecial m m' × (pc < 2 ^ 32) × (r < 32) × (v < 2 ^ 32)
IsSafe m (raise e m') = IsValid m'
IsSafe m fail = Unit {0}

extra_of-lt : (f : Format) (bits : ℕ) → extra_of f bits < 2 ^ 32
unfolding extra_of
extra_of-lt ifmt bits = ground arith
extra_of-lt rfmt bits = omega arith
extra_of-lt jfmt bits = omega arith

-- Decode gives three register numbers and an int.
pub decode-IsWellFormed : (bits : ℕ) → IsWellFormed (decode bits)
unfolding decode
decode-IsWellFormed bits = record {
  rs_in = omega arith;
  rt_in = omega arith;
  rd_in = omega arith;
  extra_in = extra_of-lt (table_entry bits).1 bits;
}

module _ {m : Machine} (ok_m : IsValid m) where
  pub put-IsValid : (r v : ℕ) → r < 34 → v < 2 ^ 32 → IsValid (put m r v)
  put-IsValid r v h w = record {
    words = λ k. ground (arith, ok_m.words k);
    target = ground (arith, ok_m.target);
    bytes = ok_m.bytes;
  }

  pub delayed_load-IsValid : (r v : ℕ) → r < 32 → v < 2 ^ 32 → IsValid (delayed_load m r v)
  unfolding delayed_load
  delayed_load-IsValid r v h w = record {
    words = λ k. ground (arith, ok_m.words k, ok_m.words load_value_reg);
    target = ground (arith, ok_m.target);
    bytes = ok_m.bytes;
  }

  put_bad_vaddr-IsValid : (v : ℕ) → v < 2 ^ 32 → IsValid (put m bad_vaddr_reg v)
  put_bad_vaddr-IsValid v w = record {
    words = λ k. ground (arith, ok_m.words k);
    target = ok_m.target;
    bytes = ok_m.bytes;
  }

pub raise_exception-IsValid :
    {m : Machine} → IsValid m → (v : ℕ) → v < 2 ^ 32 → IsValid (raise_exception m v)
unfolding raise_exception
raise_exception-IsValid ok_m v w =
    delayed_load-IsValid (put_bad_vaddr-IsValid ok_m v w) 0 0 (omega arith) (omega arith)
