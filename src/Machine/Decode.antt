-- ===== src/Machine/Decode.antt =====
-- code/machine/mipssim.h and Instruction::Decode of mipssim.cc: from the bits of an instruction to
-- its operation and operands.
pub mod Laws
use Prim.Native.Nat.{bit_and, bit_or}
use nachos.Prelude.{ℕ, ◌+◌, ◌-◌, ◌/◌, ◌%◌, ◌^◌, Bool, true, false, List, [], ◌∷◌}
use nachos.Prelude.{if◌then◌else◌, ◌==◌, get_or}

-- The values of the opCode field; `special` and `bcond` want further decoding.
pub data OpCode : Type 0 where
  op_add op_addi op_addiu op_addu op_and op_andi op_beq op_bgez : OpCode
  op_bgezal op_bgtz op_blez op_bltz op_bltzal op_bne op_div op_divu : OpCode
  op_j op_jal op_jalr op_jr op_lb op_lbu op_lh op_lhu : OpCode
  op_lui op_lw op_lwl op_lwr op_mfhi op_mflo op_mthi op_mtlo : OpCode
  op_mult op_multu op_nor op_or op_ori op_rfe op_sb op_sh : OpCode
  op_sll op_sllv op_slt op_slti op_sltiu op_sltu op_sra op_srav : OpCode
  op_srl op_srlv op_sub op_subu op_sw op_swl op_swr op_xor : OpCode
  op_xori op_syscall op_unimp op_res : OpCode
  special bcond : OpCode

pub data Format : Type 0 where
  ifmt jfmt rfmt : Format

-- opTable, by bits 31:26.
unfoldable pub op_table : List (OpCode × Format)
op_table =
    (special, rfmt)
    ∷ (bcond, ifmt)
    ∷ (op_j, jfmt)
    ∷ (op_jal, jfmt)
    ∷ (op_beq, ifmt)
    ∷ (op_bne, ifmt)
    ∷ (op_blez, ifmt)
    ∷ (op_bgtz, ifmt)
    ∷ (op_addi, ifmt)
    ∷ (op_addiu, ifmt)
    ∷ (op_slti, ifmt)
    ∷ (op_sltiu, ifmt)
    ∷ (op_andi, ifmt)
    ∷ (op_ori, ifmt)
    ∷ (op_xori, ifmt)
    ∷ (op_lui, ifmt)
    ∷ (op_unimp, ifmt)
    ∷ (op_unimp, ifmt)
    ∷ (op_unimp, ifmt)
    ∷ (op_unimp, ifmt)
    ∷ (op_res, ifmt)
    ∷ (op_res, ifmt)
    ∷ (op_res, ifmt)
    ∷ (op_res, ifmt)
    ∷ (op_res, ifmt)
    ∷ (op_res, ifmt)
    ∷ (op_res, ifmt)
    ∷ (op_res, ifmt)
    ∷ (op_res, ifmt)
    ∷ (op_res, ifmt)
    ∷ (op_res, ifmt)
    ∷ (op_res, ifmt)
    ∷ (op_lb, ifmt)
    ∷ (op_lh, ifmt)
    ∷ (op_lwl, ifmt)
    ∷ (op_lw, ifmt)
    ∷ (op_lbu, ifmt)
    ∷ (op_lhu, ifmt)
    ∷ (op_lwr, ifmt)
    ∷ (op_res, ifmt)
    ∷ (op_sb, ifmt)
    ∷ (op_sh, ifmt)
    ∷ (op_swl, ifmt)
    ∷ (op_sw, ifmt)
    ∷ (op_res, ifmt)
    ∷ (op_res, ifmt)
    ∷ (op_swr, ifmt)
    ∷ (op_res, ifmt)
    ∷ (op_unimp, ifmt)
    ∷ (op_unimp, ifmt)
    ∷ (op_unimp, ifmt)
    ∷ (op_unimp, ifmt)
    ∷ (op_res, ifmt)
    ∷ (op_res, ifmt)
    ∷ (op_res, ifmt)
    ∷ (op_res, ifmt)
    ∷ (op_unimp, ifmt)
    ∷ (op_unimp, ifmt)
    ∷ (op_unimp, ifmt)
    ∷ (op_unimp, ifmt)
    ∷ (op_res, ifmt)
    ∷ (op_res, ifmt)
    ∷ (op_res, ifmt)
    ∷ (op_res, ifmt)
    ∷ []

-- specialTable, by the funct field.
unfoldable pub special_table : List OpCode
special_table =
    op_sll ∷ op_res ∷ op_srl ∷ op_sra ∷ op_sllv ∷ op_res ∷ op_srlv ∷ op_srav ∷ op_jr ∷ op_jalr
    ∷ op_res ∷ op_res ∷ op_syscall ∷ op_unimp ∷ op_res ∷ op_res ∷ op_mfhi ∷ op_mthi ∷ op_mflo
    ∷ op_mtlo ∷ op_res ∷ op_res ∷ op_res ∷ op_res ∷ op_mult ∷ op_multu ∷ op_div ∷ op_divu ∷ op_res
    ∷ op_res ∷ op_res ∷ op_res ∷ op_add ∷ op_addu ∷ op_sub ∷ op_subu ∷ op_and ∷ op_or ∷ op_xor
    ∷ op_nor ∷ op_res ∷ op_res ∷ op_slt ∷ op_sltu ∷ op_res ∷ op_res ∷ op_res ∷ op_res ∷ op_res
    ∷ op_res ∷ op_res ∷ op_res ∷ op_res ∷ op_res ∷ op_res ∷ op_res ∷ op_res ∷ op_res ∷ op_res
    ∷ op_res ∷ op_res ∷ op_res ∷ op_res ∷ op_res ∷ []

-- class Instruction, decoded. `extra` is the bit pattern of an int.
pub record Instruction : Type 0 where
  pub op_code : OpCode
  pub rs : ℕ
  pub rt : ℕ
  pub rd : ℕ
  pub extra : ℕ

-- A bit field: `(value >> k) & (2 ^ w - 1)`.
abbrev pub field : ℕ → ℕ → ℕ → ℕ
field value k w = value / 2 ^ k % 2 ^ w

-- The immediate, target, shamt or offset.
unfoldable pub extra_of : Format → ℕ → ℕ
extra_of ifmt value =
    let imm = value % 2 ^ 16 in if imm / 2 ^ 15 % 2 == 0 then imm else imm + (2 ^ 32 - 2 ^ 16)
extra_of rfmt value = field value 6 5
extra_of jfmt value = value % 2 ^ 26

-- The branches of BCOND: `value & 0x1f0000`, here shifted down.
unfoldable pub bcond_op : ℕ → OpCode
bcond_op i =
    if i == 0
    then op_bltz
    else if i == 1
    then op_bgez
    else if i == 0x10
    then op_bltzal
    else if i == 0x11
    then op_bgezal
    else op_unimp

unfoldable pub final_op : OpCode → ℕ → OpCode
final_op special value = get_or special_table (field value 0 6) op_res
final_op bcond value = bcond_op (field value 16 5)
final_op op value = op

-- `opTable[(value >> 26) & 0x3f]`
unfoldable pub table_entry : ℕ → OpCode × Format
table_entry value = get_or op_table (field value 26 6) (op_res, ifmt)

unfoldable pub decode : ℕ → Instruction
decode value =
    let (op, format) = table_entry value in
    record {
      op_code = final_op op value;
      rs = field value 21 5;
      rt = field value 16 5;
      rd = field value 11 5;
      extra = extra_of format value;
    }
