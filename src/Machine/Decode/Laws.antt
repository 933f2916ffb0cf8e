-- ===== src/Machine/Decode/Laws.antt =====
-- Instruction::Decode of code/machine/mipssim.cc, and the fields of an instruction.
use nachos.Prelude.{
  ℕ, zero, suc, ◌+◌, ◌-◌, ◌*◌, ◌^◌, ◌<◌, ◌≡◌, refl, ◌∙◌, Bool, true, false, ◌&&◌, List, [], ◌∷◌,
  arith, if◌then◌else◌, ltb, get_or, pos, negsuc,
}
use nachos.Machine.Word.{signed}
use nachos.Machine.Decode.{
  OpCode, op_rfe, op_res, special, bcond, Format, ifmt, rfmt, op_table, special_table, field,
  extra_of, bcond_op, final_op, decode, table_entry,
}

-- The instruction word of each format.
abbrev pub r_type : ℕ → ℕ → ℕ → ℕ → ℕ → ℕ
r_type rs rt rd shamt funct = rs * 2 ^ 21 + rt * 2 ^ 16 + rd * 2 ^ 11 + shamt * 2 ^ 6 + funct

abbrev pub i_type : ℕ → ℕ → ℕ → ℕ → ℕ
i_type op rs rt imm = op * 2 ^ 26 + rs * 2 ^ 21 + rt * 2 ^ 16 + imm

entry_at :
    (value k : ℕ) → field value 26 6 ≡ k → table_entry value ≡ get_or op_table k (op_res, ifmt)
unfolding table_entry
entry_at value k e = rw e refl

-- Decode by the entry of the table and the fields.
decode_fields :
    (value : ℕ) (o : OpCode) (f : Format) (rs rt rd : ℕ)
    → table_entry value ≡ (o, f)
    → field value 21 5 ≡ rs
    → field value 16 5 ≡ rt
    → field value 11 5 ≡ rd
    → decode value
      ≡ record { op_code = final_op o value; rs = rs; rt = rt; rd = rd; extra = extra_of f value }
unfolding decode
decode_fields value o f rs rt rd e h1 h2 h3 = rw (e, h1, h2, h3) refl

-- An instruction of the SPECIAL group is decoded to the operation of its funct field, with its
-- three registers and its shift amount.
pub decode-r_type :
    (rs rt rd shamt funct : ℕ)
    → rs < 32
    → rt < 32
    → rd < 32
    → shamt < 32
    → funct < 64
    → decode (r_type rs rt rd shamt funct) ≡ record {
      op_code = get_or special_table funct op_res;
      rs = rs;
      rt = rt;
      rd = rd;
      extra = shamt;
    }
unfolding final_op extra_of op_table
decode-r_type rs rt rd shamt funct h1 h2 h3 h4 h5 =
    decode_fields value special rfmt rs rt rd special_entry (omega arith) (omega arith)
      (omega arith)
    ∙ λ i. record {
      op_code = get_or special_table (funct_eq i) op_res;
      rs = rs;
      rt = rt;
      rd = rd;
      extra = shamt_eq i;
    }
  where
    value : ℕ
    value = r_type rs rt rd shamt funct

    funct_eq : field value 0 6 ≡ funct
    funct_eq = omega arith

    shamt_eq : field value 6 5 ≡ shamt
    shamt_eq = omega arith

    special_entry : table_entry value ≡ (special, rfmt)
    special_entry = entry_at value 0 (omega arith)

-- An instruction with an immediate is decoded with its registers, and the immediate with its sign.
pub decode-i_type :
    (op rs rt imm : ℕ) (o : OpCode)
    → op < 64
    → rs < 32
    → rt < 32
    → imm < 2 ^ 16
    → get_or op_table op (op_res, ifmt) ≡ (o, ifmt)
    → ((decode (i_type op rs rt imm)).rs ≡ rs)
      × ((decode (i_type op rs rt imm)).rt ≡ rt)
      × (signed (decode (i_type op rs rt imm)).extra
          ≡ (if ltb imm (2 ^ 15) then pos imm else negsuc (2 ^ 16 - imm - 1)))
      × ((decode (i_type op rs rt imm)).op_code ≡ final_op o (i_type op rs rt imm))
unfolding decode extra_of
decode-i_type op rs rt imm o h1 h2 h3 h4 e = (
  omega arith,
  omega arith,
  rw (entry_at (i_type op rs rt imm) op (omega arith), e) (ground arith),
  rw (entry_at (i_type op rs rt imm) op (omega arith), e) refl,
)

-- The operations that have a case in the switch of OneInstruction.
abbrev pub has_case : OpCode → Bool
has_case op_rfe = false
has_case special = false
has_case bcond = false
has_case _ = true

all_entries : {A : Type 0} → (A → Bool) → List A → Bool
all_entries p [] = true
all_entries p (x ∷ xs) = p x && all_entries p xs

get_or-all_entries :
    {A : Type 0} (p : A → Bool) (xs : List A) (i : ℕ) (d : A)
    → all_entries p xs ≡ true
    → p d ≡ true
    → p (get_or xs i d) ≡ true
unfolding all_entries
get_or-all_entries p [] i d h hd = hd
get_or-all_entries p (x ∷ xs) zero d h hd = ground arith
get_or-all_entries p (x ∷ xs) (suc i) d h hd = get_or-all_entries p xs i d (ground arith) hd

-- What opTable may hold: an operation with a case, or one of the two markers.
abbrev decodable : OpCode → Bool
decodable special = true
decodable bcond = true
decodable o = has_case o

special_table-has_case : all_entries has_case special_table ≡ true
unfolding all_entries special_table
special_table-has_case = refl

op_table-decodable : all_entries (λ (e : OpCode × Format). decodable e.0) op_table ≡ true
unfolding all_entries op_table
op_table-decodable = refl

bcond_op-has_case : (k : ℕ) → has_case (bcond_op k) ≡ true
unfolding bcond_op
bcond_op-has_case k = ground arith

final_op-has_case :
    (o : OpCode) (value : ℕ) → decodable o ≡ true → has_case (final_op o value) ≡ true
unfolding final_op
final_op-has_case special value h =
    get_or-all_entries has_case special_table (field value 0 6) op_res special_table-has_case refl
final_op-has_case bcond value h = bcond_op-has_case (field value 16 5)
final_op-has_case op_rfe value h = cc
final_op-has_case o value h = h

-- For every instruction word Decode gives an operation with a case in OneInstruction, never OP_RFE
-- or one of the two markers.
pub decode-has_case : (value : ℕ) → has_case (decode value).op_code ≡ true
unfolding decode table_entry
decode-has_case value = final_op-has_case (table_entry value).0 value (
    get_or-all_entries (λ (e : OpCode × Format). decodable e.0) op_table (field value 26 6)
      (op_res, ifmt) op_table-decodable refl)
