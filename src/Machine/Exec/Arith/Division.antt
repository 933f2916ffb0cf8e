-- ===== src/Machine/Exec/Arith/Division.antt =====
-- DIV of code/machine/mipssim.cc against the integers.
use native.Mathlib.Nat.{mod-add-div', mod-lt, div-le_self, div-lt_iff_lt-mul}
use nachos.Prelude.{
  ℕ, ◌+◌, ◌-◌, ◌*◌, ◌/◌, ◌%◌, ◌^◌, ◌≤◌, ◌<◌, ◌≡◌, refl, ap, ◌≢◌, ◌⊎◌, inl, inr, Bool, true, false,
  not, ◌&&◌, arith, if◌then◌else◌, ◌==◌, Bool-cases, ℤ, pos, ◌*ℤ◌, ◌+ℤ◌, sub_ℕ,
}
use native.Mathlib.Decide.{ℕ_discrete, dec_le}
use nachos.Machine.{Machine, put, hi_reg, lo_reg}
use nachos.Machine.Word.{is_neg, neg32, magnitude, signed}
use nachos.Machine.Decode.{Instruction}
use nachos.Machine.Exec.Effect.{Effect, fail, advance}
use nachos.Machine.Exec.Arith.{exec_div, div_int, rem_int}

-- The integer of a sign and a magnitude, and its word.
abbrev of_int : Bool → ℕ → ℤ
of_int true x = sub_ℕ 0 x
of_int false x = pos x

abbrev to_word : Bool → ℕ → ℕ
to_word s x = if s then neg32 x else x

signed-to_word :
    (s : Bool) (x : ℕ) → x ≤ 2 ^ 31 → (s ≡ false → x < 2 ^ 31) → signed (to_word s x) ≡ of_int s x
signed-to_word true x h k = ground arith
signed-to_word false x h k = ground (arith, k refl)

signed-magnitude : (a : ℕ) → a < 2 ^ 32 → signed a ≡ of_int (is_neg a) (magnitude a)
signed-magnitude a h = ground arith

differs : Bool → Bool → Bool
differs s t = if s then not t else t

-- Division of the magnitudes is division of the integers, towards 0.
divides :
    (s t : Bool) (q y r : ℕ)
    → of_int (differs s t) q *ℤ of_int t y +ℤ of_int s r ≡ of_int s (r + q * y)
unfolding ◌*ℤ◌ ◌+ℤ◌ differs
divides true true q y r = ground arith
divides true false q y r = ground arith
divides false true q y r = ground arith
divides false false q y r = ground arith

module _ (a b : ℕ) (ha : a < 2 ^ 32) (hb : b < 2 ^ 32) (nb : b ≢ 0) where
  abbrev q : ℕ
  q = magnitude a / magnitude b

  abbrev r : ℕ
  r = magnitude a % magnitude b

  div_int-to_word : div_int a b ≡ to_word (differs (is_neg a) (is_neg b)) q
  unfolding div_int differs
  div_int-to_word = ground arith

  rem_int-to_word : rem_int a b ≡ to_word (is_neg a) r
  unfolding rem_int
  rem_int-to_word = ground arith

  r-lt : r < magnitude b
  r-lt = mod-lt (magnitude a) {m = magnitude b} (ground arith)

  -- A quotient of 2 ^ 31 is one of INT_MIN by 1 or -1.
  q-lt : 2 ≤ magnitude b → q < 2 ^ 31
  q-lt two =
      (div-lt_iff_lt-mul {k = magnitude b} {x = magnitude a} {y = 2 ^ 31} (omega arith)).1
        (ground arith)

  q-one : magnitude b ≡ 1 → q ≡ magnitude a
  q-one e = rw e (omega arith)

  dividend-lt :
      ((a ≡ 2 ^ 31) × (b ≡ 2 ^ 32 - 1) → ⊥)
      → magnitude b ≡ 1
      → differs (is_neg a) (is_neg b) ≡ false
      → magnitude a < 2 ^ 31
  unfolding differs
  dividend-lt safe one s = elim (ℕ_discrete a (2 ^ 31)) [
    | yes e ↦ elim (ℕ_discrete b (2 ^ 32 - 1)) [
      | yes f ↦ absurd (safe (e, f))
      | no nf ↦ ground arith
    ]
    | no ne ↦ ground arith
  ]

  -- DIV: quotient times divisor plus remainder is the dividend, and the remainder is smaller than
  -- the divisor, unless the quotient fits no int.
  pub div_int-rem_int :
      ((a ≡ 2 ^ 31) × (b ≡ 2 ^ 32 - 1) → ⊥)
      → (signed (div_int a b) *ℤ signed b +ℤ signed (rem_int a b) ≡ signed a)
        × (magnitude (rem_int a b) < magnitude b)
  div_int-rem_int safe = (
    cc (
      ap signed div_int-to_word,
      ap signed rem_int-to_word,
      signed-to_word (differs (is_neg a) (is_neg b)) q
          (omega (arith, div-le_self (magnitude a) (magnitude b), a-le)) quotient_small,
      signed-to_word (is_neg a) r (omega (arith, r-lt, b-le)) (λ s. omega (arith, r-lt, b-le)),
      signed-magnitude b hb,
      signed-magnitude a ha,
      divides (is_neg a) (is_neg b) q (magnitude b) r,
      ap (of_int (is_neg a)) (mod-add-div' (magnitude a) (magnitude b)),
    ),
    rw rem_int-to_word (ground (arith, r-lt, b-le)),
  )
    where
      a-le : magnitude a ≤ 2 ^ 31
      a-le = ground arith

      b-le : magnitude b ≤ 2 ^ 31
      b-le = ground arith

      quotient_small : differs (is_neg a) (is_neg b) ≡ false → q < 2 ^ 31
      quotient_small s = elim (dec_le 2 (magnitude b)) [
        | yes two ↦ q-lt two
        | no one ↦
            let e : magnitude b ≡ 1 = ground arith in omega (arith, q-one e, dividend-lt safe e s)
      ]

-- The three ways in which DIV can end.
abbrev pub Divides : Machine → ℕ → ℕ → ℕ → Effect → Type 0
Divides m pc a b e =
    ((b ≡ 0) × (e ≡ advance (put (put m lo_reg 0) hi_reg 0) pc))
    ⊎ (((a ≡ 2 ^ 31) × (b ≡ 2 ^ 32 - 1) × (e ≡ fail))
        ⊎ ((quotient : ℕ) × (remainder : ℕ) × (b ≢ 0)
            × (e ≡ advance (put (put m lo_reg quotient) hi_reg remainder) pc)
            × (signed quotient *ℤ signed b +ℤ signed remainder ≡ signed a)
            × (magnitude remainder < magnitude b)))

-- DIV on words gives 0 and 0 for a division by 0, stops the host for INT_MIN by -1, and otherwise
-- leaves a quotient and a remainder with quotient * divisor + remainder = dividend and the
-- remainder smaller in magnitude than the divisor.
pub exec_div_lem :
    (m : Machine) (i : Instruction) (pc : ℕ)
    → m.registers i.rs < 2 ^ 32
    → m.registers i.rt < 2 ^ 32
    → i.rs < 32
    → i.rt < 32
    → Divides m pc (m.registers i.rs) (m.registers i.rt) (exec_div m i pc)
unfolding exec_div
exec_div_lem m i pc ha hb rs rt = elim (ℕ_discrete (m.registers i.rt) 0) [
  | yes zero_divisor ↦ inl (zero_divisor, ground arith)
  | no nb ↦ elim (Bool-cases ((m.registers i.rs == 2 ^ 31) && (m.registers i.rt == 2 ^ 32 - 1))) [
    | inl int_min ↦ inr (inl (ground arith, ground arith, ground arith))
    | inr other ↦
        let (eq, lt) =
          div_int-rem_int (m.registers i.rs) (m.registers i.rt) ha hb nb (λ p. ground arith) in
        inr (
          inr (
            div_int (m.registers i.rs) (m.registers i.rt),
            rem_int (m.registers i.rs) (m.registers i.rt),
            nb,
            ground arith,
            eq,
            lt,
          ))
  ]
]
