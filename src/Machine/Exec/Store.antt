-- ===== src/Machine/Exec/Store.antt =====
-- The stores of code/machine/mipssim.cc.
use Prim.Native.Nat.{bit_and, bit_or}
use nachos.Prelude.{ℕ, ◌-◌, ◌%◌, if◌then◌else◌, ◌==◌}
use nachos.Machine.Word.{shl32, sar32}
use nachos.Machine.Memory.{read_mem, write_mem}
use nachos.Machine.Exec.Effect.{advance, Case, ◌>>=◌}
use nachos.Machine.Exec.Load.{effective}

-- OP_SB, OP_SH and OP_SW: `size` bytes.
unfoldable pub exec_store : ℕ → Case
exec_store size m i pc =
    write_mem m (effective m i) size (m.registers i.rt) >>= λ done m1. advance m1 pc

-- `switch (3 - byte)` of OP_SWL
unfoldable pub store_left : ℕ → ℕ → ℕ → ℕ
store_left byte reg value =
    if byte == 3
    then reg
    else if byte == 2
    then bit_or (bit_and value 0xff000000) (bit_and (sar32 reg 8) 0xffffff)
    else if byte == 1
    then bit_or (bit_and value 0xffff0000) (bit_and (sar32 reg 16) 0xffff)
    else bit_or (bit_and value 0xffffff00) (bit_and (sar32 reg 24) 0xff)

unfoldable pub exec_swl : Case
exec_swl m i pc =
    let tmp = effective m i in
    let byte = tmp % 4 in
    read_mem m (tmp - byte) 4 >>= λ value m1.
    (write_mem m1 (tmp - byte) 4 (store_left byte (m1.registers i.rt) value) >>= λ done m2.
    advance m2 pc)

-- `switch (3 - byte)` of OP_SWR
unfoldable pub store_right : ℕ → ℕ → ℕ → ℕ
store_right byte reg value =
    if byte == 3
    then bit_or (bit_and value 0xffffff) (shl32 reg 24)
    else if byte == 2
    then bit_or (bit_and value 0xffff) (shl32 reg 16)
    else if byte == 1
    then bit_or (bit_and value 0xff) (shl32 reg 8)
    else reg

unfoldable pub exec_swr : Case
exec_swr m i pc =
    let tmp = effective m i in
    let byte = tmp % 4 in
    read_mem m (tmp - byte) 4 >>= λ value m1.
    (write_mem m1 (tmp - byte) 4 (store_right byte (m1.registers i.rt) value) >>= λ done m2.
    advance m2 pc)
