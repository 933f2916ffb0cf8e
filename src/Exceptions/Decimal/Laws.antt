-- ===== src/Exceptions/Decimal/Laws.antt =====
-- Handle_PrintNum of code/userprog/exception.cc: what is printed reads as the int.
use nachos.Prelude.{
  ℕ, zero, suc, ◌+◌, ◌-◌, ◌*◌, ◌/◌, ◌%◌, ◌^◌, ◌≤◌, ◌<◌, ◌≡◌, ◌≢◌, refl, ap, ◌∙◌, inl, inr, Bool,
  true, false, List, [], ◌∷◌, ◌++◌, ◌==◌, leb, length, length-append, if◌then◌else◌, ℤ, pos, negsuc,
  Result, ok, ◌>>=◌, ◌>>◌, assert, Bool-cases, arith,
}
use native.Mathlib.Decide.{ℕ_discrete}
use native.Mathlib.Nat.{pow-suc}
use nachos.Machine.Word.{is_neg, neg32, signed}
use nachos.Exceptions.Decimal.{quot10, is_zero, digits_of, from_last, number_text}

-- A decimal number as it is read, from the left; and an int, with its sign.
abbrev pub read_digits : ℕ → List ℕ → ℕ
read_digits acc [] = acc
read_digits acc (c ∷ cs) = read_digits (acc * 10 + (c - 48)) cs

abbrev pub minus : ℕ → ℤ
minus zero = pos 0
minus (suc n) = negsuc n

abbrev pub read_int : List ℕ → ℤ
read_int [] = pos 0
read_int (c ∷ cs) = if c == 45 then minus (read_digits 0 cs) else pos (read_digits 0 (c ∷ cs))

read_digits-append_one :
    (acc : ℕ) (xs : List ℕ) (c : ℕ)
    → read_digits acc (xs ++ c ∷ []) ≡ read_digits acc xs * 10 + (c - 48)
read_digits-append_one acc [] c = refl
read_digits-append_one acc (x ∷ xs) c = read_digits-append_one (acc * 10 + (x - 48)) xs c

-- A character of a digit is none of the sign.
abbrev IsNumber : List ℕ → Type 0
IsNumber [] = ⊥
IsNumber (c ∷ cs) = 48 ≤ c

IsNumber-append : (xs ys : List ℕ) → IsNumber xs → IsNumber (xs ++ ys)
IsNumber-append [] ys h = elim h [ ]
IsNumber-append (x ∷ xs) ys h = h

-- What the loop gives for n, with room for the digits of `bound`.
abbrev Digits : ℕ → ℕ → Result (List ℤ) → Type 0
Digits room n r =
    (ds : List ℤ) × (r ≡ ok ds)
    × (read_digits 0 (from_last ds) ≡ n)
    × (length (from_last ds) ≤ room)
    × IsNumber (from_last ds)

digits_of_lem :
    (room n : ℕ) → n < 10 ^ (room + 1) → Digits (room + 1) n (digits_of (suc (suc room)) (pos n))
unfolding digits_of
digits_of_lem zero n h =
    let small : n / 10 ≡ 0 = omega arith in
    (pos (n % 10) ∷ [], rw (small, digits_of) refl, omega arith, omega arith, omega arith)
digits_of_lem (suc room) n h = elim (ℕ_discrete (n / 10) 0) [
  | yes small ↦
      (pos (n % 10) ∷ [], rw (small, digits_of) refl, omega arith, omega arith, omega arith)
  | no more ↦
      let same : suc room + 1 ≡ suc (room + 1) = omega arith in
      let power : 10 ^ (suc room + 1) ≡ 10 ^ (room + 1) * 10 =
        ap (λ (i : ℕ). 10 ^ i) same ∙ pow-suc 10 (room + 1) in
      let (ds, e, reads, size, first) = digits_of_lem room (n / 10) (omega arith) in
      let big : is_zero (quot10 (pos n)) ≡ false = ground arith in
      (
        pos (n % 10) ∷ ds,
        rw (big, digits_of) (rw (e) refl),
        read_digits-append_one 0 (from_last ds) (48 + n % 10) ∙ omega (arith, reads),
        omega (arith, size, length-append (from_last ds) ((48 + n % 10) ∷ [])),
        IsNumber-append (from_last ds) ((48 + n % 10) ∷ []) first,
      )
]

minus_lem : (n : ℕ) → n ≢ 0 → minus n ≡ negsuc (n - 1)
minus_lem zero h = absurd (h refl)
minus_lem (suc n) h = ap negsuc (omega arith)

unsigned_text :
    (text : List ℕ) (n : ℕ) → IsNumber text → read_digits 0 text ≡ n → read_int text ≡ pos n
unsigned_text [] n first reads = elim first [ ]
unsigned_text (c ∷ cs) n first reads =
    let digit : (c == 45) ≡ false = ground arith in rw digit (ap pos reads)

-- The end of Handle_PrintNum, after the digits and after the sign.
abbrev in_buffer : Bool → List ℤ → Result (List ℕ)
in_buffer negative temp =
    let text = (if negative then b'-' ∷ [] else []) ++ from_last temp in
    assert (leb (length text) 11) >> ok text

abbrev text_for : ℕ → Bool → Result (List ℕ)
text_for number negative =
    digits_of 11 (signed (if negative then neg32 number else number)) >>= in_buffer negative

-- For an int other than the least one, PrintNum fills num_buffer with at most 11 characters,
-- inside the arrays, that read in decimal, with a minus sign where there is one, as the int.
pub number_text_lem :
    (number : ℕ)
    → number < 2 ^ 32
    → number ≢ 2 ^ 31
    → (text : List ℕ) × (number_text number ≡ ok text)
      × (read_int text ≡ signed number)
      × (length text ≤ 11)
unfolding number_text
number_text_lem number h usual = elim (Bool-cases (is_neg number)) [
  | inl below ↦
      let n : ℕ = 2 ^ 32 - number in
      let lo : 2 ^ 31 ≤ number = ground arith in
      let (ds, e, reads, size, first) = digits_of_lem 9 n (omega arith) in
      let value : signed (neg32 number) ≡ pos n = ground arith in
      let fits : leb (length (b'-' ∷ from_last ds)) 11 ≡ true = ground arith in
      (
        b'-' ∷ from_last ds,
        (let ran : digits_of 11 (signed (if true then neg32 number else number)) ≡ ok ds =
              ap (digits_of 11) value ∙ e in
            ap (text_for number) below
            ∙ ap (λ (r : Result (List ℤ)). r >>= in_buffer true) ran
            ∙ ap (λ (b : Bool). assert b >> ok (b'-' ∷ from_last ds)) fits),
        ap minus reads ∙ minus_lem n (omega arith) ∙ ground arith,
        omega arith,
      )
  | inr above ↦
      let lo : number < 2 ^ 31 = ground arith in
      let (ds, e, reads, size, first) = digits_of_lem 9 number (omega arith) in
      let value : signed number ≡ pos number = ground arith in
      let fits : leb (length (from_last ds)) 11 ≡ true = ground arith in
      (
        from_last ds,
        (let ran : digits_of 11 (signed number) ≡ ok ds = ap (digits_of 11) value ∙ e in
            ap (text_for number) above
            ∙ ap (λ (r : Result (List ℤ)). r >>= in_buffer false) ran
            ∙ ap (λ (b : Bool). assert b >> ok (from_last ds)) fits),
        unsigned_text (from_last ds) number first reads ∙ ground arith,
        omega arith,
      )
]
