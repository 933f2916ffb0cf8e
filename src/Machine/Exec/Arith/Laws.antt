-- ===== src/Machine/Exec/Arith/Laws.antt =====
-- The arithmetic instructions of code/machine/mipssim.cc against the integers.
use Prim.Native.Nat.{bit_xor, differ}
use nachos.Prelude.{
  ℕ, zero, suc, ◌/◌, ◌^◌, ◌<◌, ◌≡◌, refl, ◌⊎◌, inl, inr, Bool, true, false, not, ◌&&◌, arith,
  if◌then◌else◌, ◌==◌, leb, ltb, Bool-cases, ℤ, ◌+ℤ◌, ◌-ℤ◌, pos_part, neg_part,
}
use nachos.Bits.{digit-top, digit-bit_xor, bit_xor-lt}
use nachos.Machine.{Machine, put, overflow_exception}
use nachos.Machine.Word.{add32, sub32, is_neg, signed}
use nachos.Machine.Decode.{Instruction}
use nachos.Machine.Exec.Effect.{Effect, advance, trap}
use nachos.Machine.Exec.Arith.{exec_add, exec_addi, exec_sub}

differ_digits : (x y : ℕ) → x < 2 → y < 2 → differ x y ≡ (if x == y then 0 else 1)
differ_digits zero y p q = ground arith
differ_digits (suc zero) zero p q = refl
differ_digits (suc zero) (suc zero) p q = refl
differ_digits (suc zero) (suc (suc y)) p q = absurd (omega arith)
differ_digits (suc (suc x)) y p q = absurd (omega arith)

top_of_xor :
    (a b : ℕ) → a < 2 ^ 32 → b < 2 ^ 32 → bit_xor a b / 2 ^ 31 ≡ differ (a / 2 ^ 31) (b / 2 ^ 31)
top_of_xor a b ha hb = cc (
  digit-bit_xor a b 31,
  digit-top 31 (bit_xor a b) (bit_xor-lt 32 a b ha hb),
  digit-top 31 a ha,
  digit-top 31 b hb,
)

-- The sign of an exclusive or tells whether the signs differ.
pub is_neg-bit_xor :
    (a b : ℕ)
    → a < 2 ^ 32
    → b < 2 ^ 32
    → is_neg (bit_xor a b) ≡ (if is_neg a then not (is_neg b) else is_neg b)
is_neg-bit_xor a b ha hb = ground (
  arith,
  top_of_xor a b ha hb,
  bit_xor-lt 32 a b ha hb,
  differ_digits (a / 2 ^ 31) (b / 2 ^ 31) (omega arith) (omega arith),
)

-- Does an integer fit an int?
abbrev pub fits_int : ℤ → Bool
fits_int z = ltb (pos_part z) (2 ^ 31) && leb (neg_part z) (2 ^ 31)

signed-add32 :
    (a b : ℕ)
    → a < 2 ^ 32
    → b < 2 ^ 32
    → fits_int (signed a +ℤ signed b) ≡ true
    → signed (add32 a b) ≡ signed a +ℤ signed b
unfolding ◌+ℤ◌
signed-add32 a b ha hb h = ground arith

-- The test for an overflow of a sum.
overflow_add :
    (a b : ℕ)
    → a < 2 ^ 32
    → b < 2 ^ 32
    → (not (is_neg (bit_xor a b)) && is_neg (bit_xor a (add32 a b)))
      ≡ not (fits_int (signed a +ℤ signed b))
unfolding ◌+ℤ◌
overflow_add a b ha hb =
    rw (is_neg-bit_xor a b ha hb, is_neg-bit_xor a (add32 a b) ha (omega arith)) (ground arith)

overflow_sub :
    (a b : ℕ)
    → a < 2 ^ 32
    → b < 2 ^ 32
    → (is_neg (bit_xor a b) && is_neg (bit_xor a (sub32 a b)))
      ≡ not (fits_int (signed a -ℤ signed b))
unfolding ◌-ℤ◌
overflow_sub a b ha hb =
    rw (is_neg-bit_xor a b ha hb, is_neg-bit_xor a (sub32 a b) ha (omega arith)) (ground arith)

signed-sub32 :
    (a b : ℕ)
    → a < 2 ^ 32
    → b < 2 ^ 32
    → fits_int (signed a -ℤ signed b) ≡ true
    → signed (sub32 a b) ≡ signed a -ℤ signed b
unfolding ◌-ℤ◌
signed-sub32 a b ha hb h = ground arith

-- The instruction writes to `target` the word that stands for z, or z fits no int, and it raises
-- an overflow and writes nothing.
abbrev pub Computes : Machine → ℕ → ℤ → ℕ → Effect → Type 0
Computes m target z pc e =
    ((fits_int z ≡ true)
      × (w : ℕ) × (w < 2 ^ 32)
      × (signed w ≡ z)
      × (e ≡ advance (put m target w) pc))
    ⊎ ((fits_int z ≡ false) × (e ≡ trap m overflow_exception 0))

computes :
    (m : Machine) (target : ℕ) (z : ℤ) (pc w : ℕ) (t : Bool)
    → t ≡ not (fits_int z)
    → w < 2 ^ 32
    → (fits_int z ≡ true → signed w ≡ z)
    → Computes m target z pc
        (if t then trap m overflow_exception 0 else advance (put m target w) pc)
computes m target z pc w t e hw hs = elim (Bool-cases (fits_int z)) [
  | inl f ↦ inl (f, w, hw, hs f, rw (e, f) refl)
  | inr n ↦ inr (n, rw (e, n) refl)
]

-- ADDI tests the signs against the immediate.
overflow_addi :
    (a b : ℕ)
    → a < 2 ^ 32
    → b < 2 ^ 32
    → (not (is_neg (bit_xor a b)) && is_neg (bit_xor b (add32 a b)))
      ≡ not (fits_int (signed a +ℤ signed b))
unfolding ◌+ℤ◌
overflow_addi a b ha hb =
    rw (is_neg-bit_xor a b ha hb, is_neg-bit_xor b (add32 a b) hb (omega arith)) (ground arith)

module _ (m : Machine) (i : Instruction) (pc : ℕ) (rs_word : m.registers i.rs < 2 ^ 32) where
  abbrev a : ℕ
  a = m.registers i.rs

  abbrev b : ℕ
  b = m.registers i.rt

  -- ADD on words writes the word of the integer sum to rd, or raises OverflowException and writes
  -- nothing, exactly when the sum fits no int.
  pub exec_add_lem : b < 2 ^ 32 → Computes m i.rd (signed a +ℤ signed b) pc (exec_add m i pc)
  unfolding exec_add
  exec_add_lem rt_word =
      computes m i.rd (signed a +ℤ signed b) pc (add32 a b) _ (overflow_add a b rs_word rt_word)
        (omega arith) (signed-add32 a b rs_word rt_word)

  -- ADDI does so with the immediate, into rt.
  pub exec_addi_lem :
      i.extra < 2 ^ 32 → Computes m i.rt (signed a +ℤ signed i.extra) pc (exec_addi m i pc)
  unfolding exec_addi
  exec_addi_lem extra_word =
      computes m i.rt (signed a +ℤ signed i.extra) pc (add32 a i.extra) _
        (overflow_addi a i.extra rs_word extra_word) (omega arith)
        (signed-add32 a i.extra rs_word extra_word)

  -- SUB subtracts as integers, with the same exception.
  pub exec_sub_lem : b < 2 ^ 32 → Computes m i.rd (signed a -ℤ signed b) pc (exec_sub m i pc)
  unfolding exec_sub
  exec_sub_lem rt_word =
      computes m i.rd (signed a -ℤ signed b) pc (sub32 a b) _ (overflow_sub a b rs_word rt_word)
        (omega arith) (signed-sub32 a b rs_word rt_word)
