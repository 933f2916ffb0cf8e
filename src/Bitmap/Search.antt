-- ===== src/Bitmap/Search.antt =====
-- FindAndSet, NumClear and the constructor of code/lib/bitmap.cc: their loops over the bits.
use nachos.Prelude.{
  ℕ, zero, suc, ◌+◌, ◌/◌, ◌%◌, ◌≤◌, ◌<◌, ◌≡◌, refl, ap, ◌∙◌, ◌⊎◌, inl, inr, Bool, true, false,
  arith, if◌then◌else◌, Bool-cases, get_or, replicate, length-replicate, Result, ok, ℤ, pos, negsuc,
}
use native.Mathlib.Decide.{ℕ_discrete}
use nachos.Bits.{digit-zero}
use nachos.Bitmap.{
  Bitmap, bits_in_word, div_round_up, clear_all, new, find_from, find_and_set, count_from,
  num_clear,
}
use nachos.Bitmap.Words.{is_marked, IsValid, test-is_marked}
use nachos.Bitmap.Ops.{Updates, mark_lem, clear_lem}

-- The number of clear bits below n.
abbrev pub clear_below : Bitmap → ℕ → ℕ
clear_below b zero = 0
clear_below b (suc n) = clear_below b n + (if is_marked b n then 0 else 1)

abbrev pub free_bits : Bitmap → ℕ
free_bits b = clear_below b b.num_bits

count_from-clear_below :
    (b : Bitmap) (left i : ℕ)
    → i + left ≤ b.num_bits
    → count_from b left i (clear_below b i) ≡ ok (clear_below b (i + left))
unfolding count_from
count_from-clear_below b zero i h = ap (λ n. ok (clear_below b n)) (omega arith)
count_from-clear_below b (suc left) i h =
    ground
      (arith, test-is_marked b i (omega arith), count_from-clear_below b left (suc i) (omega arith))

-- NumClear returns the number of clear bits.
pub num_clear_lem : (b : Bitmap) → num_clear b ≡ ok (free_bits b)
unfolding num_clear
num_clear_lem b =
    count_from-clear_below b b.num_bits 0 (omega arith)
    ∙ ap (λ n. ok (clear_below b n)) (omega arith)

pub clear_below_le : (b : Bitmap) (n : ℕ) → clear_below b n ≤ n
clear_below_le b zero = omega arith
clear_below_le b (suc n) = ground (arith, clear_below_le b n)

-- What clear_below says of one bit.
pub clear_below_pos : (b : Bitmap) (n i : ℕ) → i < n → is_marked b i ≡ false → 0 < clear_below b n
clear_below_pos b zero i h e = elim h [ ]
clear_below_pos b (suc n) i h e = ground (arith, clear_below_pos b n i)

pub clear_below_zero :
    (b : Bitmap) (n : ℕ) → ((i : ℕ) → i < n → is_marked b i ≡ true) → clear_below b n ≡ 0
clear_below_zero b zero h = refl
clear_below_zero b (suc n) h =
    ground (arith, clear_below_zero b n (λ i lt. h i (omega arith)), h n (omega arith))

-- A change of one bit changes the count by one.
module _ {b b' : Bitmap} {i : ℕ} {on : Bool} (u : Updates b i on b') where
  pub clear_below-above : (n : ℕ) → n ≤ i → clear_below b' n ≡ clear_below b n
  clear_below-above zero h = refl
  clear_below-above (suc n) h = ground (arith, clear_below-above n, u.bits n)

pub clear_below-mark :
    {b b' : Bitmap} {i : ℕ} (u : Updates b i true b') (n : ℕ)
    → i < n
    → is_marked b i ≡ false
    → clear_below b' n + 1 ≡ clear_below b n
clear_below-mark u zero h e = elim h [ ]
clear_below-mark {b} {b'} {i} u (suc n) h e = elim (ℕ_discrete n i) [
  | yes same ↦ ground (arith, clear_below-above u n (omega arith), u.bits n)
  | no ne ↦ ground (arith, clear_below-mark u n (omega arith) e, u.bits n)
]

pub clear_below-clear :
    {b b' : Bitmap} {i : ℕ} (u : Updates b i false b') (n : ℕ)
    → i < n
    → is_marked b i ≡ true
    → clear_below b' n ≡ clear_below b n + 1
clear_below-clear u zero h e = elim h [ ]
clear_below-clear {b} {b'} {i} u (suc n) h e = elim (ℕ_discrete n i) [
  | yes same ↦ ground (arith, clear_below-above u n (omega arith), u.bits n)
  | no ne ↦ ground (arith, clear_below-clear u n (omega arith) e, u.bits n)
]

-- Bit k is the first clear bit of b, and b' is b with it marked.
pub record TakesFirst (b : Bitmap) (k : ℕ) (b' : Bitmap) : Type 0 where
  pub in_range : k < b.num_bits
  pub was_clear : is_marked b k ≡ false
  pub is_first : (j : ℕ) → j < k → is_marked b j ≡ true
  pub updates : Updates b k true b'

abbrev pub FindResult : Bitmap → Result (ℤ × Bitmap) → Type 0
FindResult b r =
    (((j : ℕ) → j < b.num_bits → is_marked b j ≡ true) × (r ≡ ok (negsuc 0, b)))
    ⊎ ((k : ℕ) × (b' : Bitmap) × (r ≡ ok (pos k, b')) × TakesFirst b k b')

find_from_lem :
    (b : Bitmap) (left i : ℕ)
    → IsValid b
    → i + left ≡ b.num_bits
    → ((j : ℕ) → j < i → is_marked b j ≡ true)
    → FindResult b (find_from b left i)
unfolding find_from
find_from_lem b zero i v h seen = inl ((λ j lt. seen j (omega arith)), refl)
find_from_lem b (suc left) i v h seen = elim (Bool-cases (is_marked b i)) [
  | inl on ↦
      rw (test-is_marked b i (omega arith), on)
        (find_from_lem b left (i + 1) v (omega arith) (λ j lt. ground (arith, seen j)))
  | inr off ↦
      let (b', e, u) = mark_lem b i v (omega arith) in
      inr (
        i,
        b',
        rw (test-is_marked b i (omega arith), off, e) refl,
        record { in_range = omega arith; was_clear = off; is_first = seen; updates = u },
      )
]

-- On a valid bitmap FindAndSet either gives -1 with every bit set and changes nothing, or gives
-- the first clear bit and sets exactly that one.
pub find_and_set_lem : (b : Bitmap) → IsValid b → FindResult b (find_and_set b)
unfolding find_and_set
find_and_set_lem b v = find_from_lem b b.num_bits 0 v (omega arith) (λ j lt. elim lt [ ])

free_bits-TakesFirst : {b b' : Bitmap} {k : ℕ} → TakesFirst b k b' → free_bits b' + 1 ≡ free_bits b
free_bits-TakesFirst {b} {b'} t =
    ap (λ n. clear_below b' n + 1) (t.updates.same_size)
    ∙ clear_below-mark t.updates b.num_bits t.in_range t.was_clear

-- While a bit is clear FindAndSet succeeds, and one clear bit fewer is left.
pub find_and_set-free :
    (b : Bitmap)
    → IsValid b
    → 0 < free_bits b
    → (k : ℕ) × (b' : Bitmap) × (find_and_set b ≡ ok (pos k, b'))
      × TakesFirst b k b'
      × (free_bits b' + 1 ≡ free_bits b)
find_and_set-free b v h = elim (find_and_set_lem b v) [
  | inl (full, e) ↦ absurd (omega (arith, clear_below_zero b b.num_bits full))
  | inr (k, b', e, t) ↦ (k, b', e, t, free_bits-TakesFirst t)
]

-- The loop of the constructor clears the bits from i on and keeps the others.
clear_all_lem :
    (b : Bitmap) (left i : ℕ)
    → IsValid b
    → i + left ≡ b.num_bits
    → ((j : ℕ) → is_marked b j ≡ false)
    → (b' : Bitmap) × (clear_all b left i ≡ ok b')
      × IsValid b'
      × (b'.num_bits ≡ b.num_bits)
      × ((j : ℕ) → is_marked b' j ≡ false)
unfolding clear_all
clear_all_lem b zero i v h none_on = (b, refl, v, refl, none_on)
clear_all_lem b (suc left) i v h none_on =
    let (b1, e1, u) = clear_lem b i v (omega arith) in
    let (b2, e2, v2, s2, n2) =
      clear_all_lem b1 left (i + 1) u.valid (omega (arith, u.same_size))
        (λ j. ground (arith, u.bits j, none_on j)) in
    (b2, rw e1 e2, v2, s2 ∙ u.same_size, n2)

get_or-zeros : (n k : ℕ) → get_or (replicate {A = ℕ} n 0) k 0 ≡ 0
get_or-zeros zero k = refl
get_or-zeros (suc n) zero = refl
get_or-zeros (suc n) (suc k) = get_or-zeros n k

-- The constructor returns for each positive size, with no bit set.
pub new_lem :
    (n : ℕ)
    → 0 < n
    → (b : Bitmap) × (new (pos n) ≡ ok b)
      × IsValid b
      × (b.num_bits ≡ n)
      × ((j : ℕ) → is_marked b j ≡ false)
unfolding new
new_lem n h =
    let (b', e, v, s, clean) = clear_all_lem zeroed n 0 zeroed-IsValid (omega arith) zeroed-clear in
    (b', ground (arith, e), v, s, clean)
  where
    zeroed : Bitmap
    zeroed = record {
      num_bits = n;
      num_words = div_round_up n bits_in_word;
      words = replicate (div_round_up n bits_in_word) 0;
    }

    zeroed-clear : (j : ℕ) → is_marked zeroed j ≡ false
    zeroed-clear j = ground (
      arith,
      get_or-zeros (div_round_up n bits_in_word) (j / bits_in_word),
      digit-zero (j % bits_in_word),
    )

    zeroed-IsValid : IsValid zeroed
    zeroed-IsValid = record {
      nonempty = h;
      num_words_eq = refl;
      allocated = length-replicate (div_round_up n bits_in_word) 0;
      fits = λ k. omega (arith, get_or-zeros (div_round_up n bits_in_word) k);
    }
