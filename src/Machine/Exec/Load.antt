-- ===== src/Machine/Exec/Load.antt =====
-- The loads of code/machine/mipssim.cc. What they read is put in place one instruction later.
use Prim.Native.Nat.{bit_and, bit_or}
use nachos.Prelude.{ℕ, ◌-◌, ◌%◌, Bool, not, ◌&&◌, if◌then◌else◌, ◌==◌}
use nachos.Machine.{Machine, address_error_exception, load_reg, load_value_reg}
use nachos.Machine.Word.{add32, shl32, sar32}
use nachos.Machine.Memory.{read_mem}
use nachos.Machine.Decode.{Instruction}
use nachos.Machine.Exec.Effect.{next, trap, Case, ◌>>=◌}

abbrev pub effective : Machine → Instruction → ℕ
effective m i = add32 (m.registers i.rs) i.extra

-- OP_LB (`signed_load`) and OP_LBU.
unfoldable pub exec_lb : Bool → Case
exec_lb signed_load m i pc = read_mem m (effective m i) 1 >>= λ value m1. next m1 pc i.rt (
    if not (bit_and value 0x80 == 0) && signed_load
    then bit_or value 0xffffff00
    else bit_and value 0xff)

-- OP_LH and OP_LHU.
unfoldable pub exec_lh : Bool → Case
exec_lh signed_load m i pc =
    if not (effective m i % 2 == 0)
    then trap m address_error_exception (effective m i)
    else (read_mem m (effective m i) 2 >>= λ value m1. next m1 pc i.rt (
        if not (bit_and value 0x8000 == 0) && signed_load
        then bit_or value 0xffff0000
        else bit_and value 0xffff))

unfoldable pub exec_lw : Case
exec_lw m i pc =
    if not (effective m i % 4 == 0)
    then trap m address_error_exception (effective m i)
    else (read_mem m (effective m i) 4 >>= λ value m1. next m1 pc i.rt value)

-- The old value of the target: what a delayed load is about to put there, or the register.
abbrev pub pending_value : Machine → ℕ → ℕ
pending_value m rt =
    if m.registers load_reg == rt then m.registers load_value_reg else m.registers rt

-- `switch (3 - byte)` of OP_LWL
unfoldable pub merge_left : ℕ → ℕ → ℕ → ℕ
merge_left byte old value =
    if byte == 3
    then value
    else if byte == 2
    then bit_or (bit_and old 0xff) (shl32 value 8)
    else if byte == 1
    then bit_or (bit_and old 0xffff) (shl32 value 16)
    else bit_or (bit_and old 0xffffff) (shl32 value 24)

unfoldable pub exec_lwl : Case
exec_lwl m i pc =
    let tmp = effective m i in
    let byte = tmp % 4 in
    read_mem m (tmp - byte) 4 >>= λ value m1.
    next m1 pc i.rt (merge_left byte (pending_value m1 i.rt) value)

-- `switch (3 - byte)` of OP_LWR.
unfoldable pub merge_right : ℕ → ℕ → ℕ → ℕ
merge_right byte old value =
    if byte == 3
    then bit_or (bit_and old 0xffffff00) (bit_and (sar32 value 24) 0xff)
    else if byte == 2
    then bit_or (bit_and old 0xffff0000) (bit_and (sar32 value 16) 0xffff)
    else if byte == 1
    then bit_or (bit_and old 0xff000000) (bit_and (sar32 value 8) 0xffffff)
    else value

unfoldable pub exec_lwr : Case
exec_lwr m i pc =
    let tmp = effective m i in
    let byte = tmp % 4 in
    read_mem m (tmp - byte) 4 >>= λ value m1.
    next m1 pc i.rt (merge_right byte (pending_value m1 i.rt) value)
