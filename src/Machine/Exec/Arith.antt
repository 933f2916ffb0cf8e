-- ===== src/Machine/Exec/Arith.antt =====
-- The arithmetic and logical instructions of code/machine/mipssim.cc.
pub mod Laws
pub mod Division
use Prim.Native.Nat.{bit_and, bit_or, bit_xor}
use nachos.Prelude.{ℕ, ◌+◌, ◌-◌, ◌*◌, ◌/◌, ◌%◌, ◌^◌, Bool, true, false, not, ◌&&◌, if◌then◌else◌}
use nachos.Prelude.{◌==◌, ltb}
use nachos.Bits.{bit_not}
use nachos.Machine.{Machine, put, overflow_exception, hi_reg, lo_reg}
use nachos.Machine.Word.{add32, sub32, is_neg, lt_int, shl32, neg32, magnitude}
use nachos.Machine.Decode.{Instruction}
use nachos.Machine.Mult.{mult}
use nachos.Machine.Exec.Effect.{Effect, fail, advance, trap, Case}

unfoldable pub exec_add : Case
exec_add m i pc =
    let a = m.registers i.rs in
    let b = m.registers i.rt in
    let sum = add32 a b in
    if not (is_neg (bit_xor a b)) && is_neg (bit_xor a sum)
    then trap m overflow_exception 0
    else advance (put m i.rd sum) pc

unfoldable pub exec_addi : Case
exec_addi m i pc =
    let a = m.registers i.rs in
    let sum = add32 a i.extra in
    if not (is_neg (bit_xor a i.extra)) && is_neg (bit_xor i.extra sum)
    then trap m overflow_exception 0
    else advance (put m i.rt sum) pc

unfoldable pub exec_addiu : Case
exec_addiu m i pc = advance (put m i.rt (add32 (m.registers i.rs) i.extra)) pc

unfoldable pub exec_addu : Case
exec_addu m i pc = advance (put m i.rd (add32 (m.registers i.rs) (m.registers i.rt))) pc

unfoldable pub exec_and : Case
exec_and m i pc = advance (put m i.rd (bit_and (m.registers i.rs) (m.registers i.rt))) pc

unfoldable pub exec_andi : Case
exec_andi m i pc = advance (put m i.rt (bit_and (m.registers i.rs) (i.extra % 2 ^ 16))) pc

-- C's `/` and `%` on int; INT_MIN / -1 traps on the host.
unfoldable pub div_int : ℕ → ℕ → ℕ
div_int a b =
    let q = magnitude a / magnitude b in
    if is_neg a then (if is_neg b then q else neg32 q) else (if is_neg b then neg32 q else q)

unfoldable pub rem_int : ℕ → ℕ → ℕ
rem_int a b = let r = magnitude a % magnitude b in if is_neg a then neg32 r else r

unfoldable pub exec_div : Case
exec_div m i pc =
    let a = m.registers i.rs in
    let b = m.registers i.rt in
    if b == 0
    then advance (put (put m lo_reg 0) hi_reg 0) pc
    else if (a == 2 ^ 31) && (b == 2 ^ 32 - 1)
    then fail
    else (let m1 = put m lo_reg (div_int a b) in
        advance (put m1 hi_reg (rem_int (m1.registers i.rs) (m1.registers i.rt))) pc)

unfoldable pub exec_divu : Case
exec_divu m i pc =
    let a = m.registers i.rs in
    let b = m.registers i.rt in
    if b == 0
    then advance (put (put m lo_reg 0) hi_reg 0) pc
    else advance (put (put m lo_reg (a / b)) hi_reg (a % b)) pc

unfoldable pub exec_lui : Case
exec_lui m i pc = advance (put m i.rt (shl32 i.extra 16)) pc

unfoldable pub exec_mfhi : Case
exec_mfhi m i pc = advance (put m i.rd (m.registers hi_reg)) pc

unfoldable pub exec_mflo : Case
exec_mflo m i pc = advance (put m i.rd (m.registers lo_reg)) pc

unfoldable pub exec_mthi : Case
exec_mthi m i pc = advance (put m hi_reg (m.registers i.rs)) pc

unfoldable pub exec_mtlo : Case
exec_mtlo m i pc = advance (put m lo_reg (m.registers i.rs)) pc

-- MULT and MULTU: the results go to HiReg and LoReg.
unfoldable pub exec_mult : Bool → Case
exec_mult signed_arith m i pc =
    let (hi, lo) = mult (m.registers i.rs) (m.registers i.rt) signed_arith in
    advance (put (put m hi_reg hi) lo_reg lo) pc

unfoldable pub exec_nor : Case
exec_nor m i pc =
    advance (put m i.rd (bit_not 32 (bit_or (m.registers i.rs) (m.registers i.rt)))) pc

unfoldable pub exec_or : Case
exec_or m i pc = advance (put m i.rd (bit_or (m.registers i.rs) (m.registers i.rt))) pc

unfoldable pub exec_ori : Case
exec_ori m i pc = advance (put m i.rt (bit_or (m.registers i.rs) (i.extra % 2 ^ 16))) pc

unfoldable pub exec_slt : Case
exec_slt m i pc =
    if lt_int (m.registers i.rs) (m.registers i.rt)
    then advance (put m i.rd 1) pc
    else advance (put m i.rd 0) pc

unfoldable pub exec_slti : Case
exec_slti m i pc =
    if lt_int (m.registers i.rs) i.extra
    then advance (put m i.rt 1) pc
    else advance (put m i.rt 0) pc

unfoldable pub exec_sltiu : Case
exec_sltiu m i pc =
    if ltb (m.registers i.rs) i.extra then advance (put m i.rt 1) pc else advance (put m i.rt 0) pc

unfoldable pub exec_sltu : Case
exec_sltu m i pc =
    if ltb (m.registers i.rs) (m.registers i.rt)
    then advance (put m i.rd 1) pc
    else advance (put m i.rd 0) pc

unfoldable pub exec_sub : Case
exec_sub m i pc =
    let a = m.registers i.rs in
    let b = m.registers i.rt in
    let diff = sub32 a b in
    if is_neg (bit_xor a b) && is_neg (bit_xor a diff)
    then trap m overflow_exception 0
    else advance (put m i.rd diff) pc

unfoldable pub exec_subu : Case
exec_subu m i pc = advance (put m i.rd (sub32 (m.registers i.rs) (m.registers i.rt))) pc

unfoldable pub exec_xor : Case
exec_xor m i pc = advance (put m i.rd (bit_xor (m.registers i.rs) (m.registers i.rt))) pc

unfoldable pub exec_xori : Case
exec_xori m i pc = advance (put m i.rt (bit_xor (m.registers i.rs) (i.extra % 2 ^ 16))) pc
