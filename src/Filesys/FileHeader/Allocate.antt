-- ===== src/Filesys/FileHeader/Allocate.antt =====
-- FileHeader::Allocate of code/filesys/filehdr.cc: which sectors a new file gets.
use nachos.Prelude.{
  ℕ, zero, suc, ◌+◌, ◌≤◌, ◌<◌, ◌≡◌, refl, ap, ◌∙◌, subst, Bool, true, false, ◌||◌, arith, ◌==◌, ltb,
  ok, abort,
}
use native.Mathlib.Decide.{ℕ_discrete, dec_lt}
use nachos.Bitmap.{Bitmap, div_round_up}
use nachos.Bitmap.Words.{is_marked}
use nachos.Bitmap.Words
use nachos.Bitmap.Search.{free_bits, TakesFirst, num_clear_lem, find_and_set-free}
use nachos.Machine.{update}
use nachos.Filesys.{sector_size}
use nachos.Filesys.FileHeader.{
  FileHeader, num_direct, put_sector, store_found, allocate_from, allocate,
}

-- Sector j is one of the first n of the header.
abbrev pub owned : (ℕ → ℕ) → ℕ → ℕ → Bool
owned ds zero j = false
owned ds (suc n) j = (j == ds n) || owned ds n j

-- b' is b with n sectors more in use, and these are the first n of the header.
pub record Allocated (b : Bitmap) (ds : ℕ → ℕ) (n : ℕ) (b' : Bitmap) : Type 0 where
  pub valid : Words.IsValid b'
  pub same_size : b'.num_bits ≡ b.num_bits
  pub bits : (j : ℕ) → is_marked b' j ≡ (is_marked b j || owned ds n j)
  pub were_free : (j : ℕ) → owned ds n j ≡ true → is_marked b j ≡ false
  pub in_range : (i : ℕ) → i < n → ds i < b.num_bits
  pub distinct : (i : ℕ) → i < n → owned ds i (ds i) ≡ false
  pub used : free_bits b' + n ≡ free_bits b

pub owned_lem : (ds : ℕ → ℕ) (n i : ℕ) → i < n → owned ds n (ds i) ≡ true
owned_lem ds zero i h = absurd (omega arith)
owned_lem ds (suc n) i h = elim (ℕ_discrete i n) [
  | yes e ↦ let own : (ds i == ds n) ≡ true = ground (arith, ap ds e) in rw own refl
  | no ne ↦ ground (arith, owned_lem ds n i)
]

owned-update : (ds : ℕ → ℕ) (i k n j : ℕ) → n ≤ i → owned (update ds i k) n j ≡ owned ds n j
owned-update ds i k zero j h = refl
owned-update ds i k (suc n) j h = ground (arith, owned-update ds i k n j)

Allocated-suc :
    {b b1 b2 : Bitmap} {ds : ℕ → ℕ} (i k : ℕ)
    → Allocated b ds i b1
    → TakesFirst b1 k b2
    → free_bits b2 + 1 ≡ free_bits b1
    → Allocated b (update ds i k) (suc i) b2
Allocated-suc {b} {b1} {b2} {ds} i k a t free = record {
  valid = t.updates.valid;
  same_size = t.updates.same_size ∙ a.same_size;
  bits = λ j. ground (arith, t.updates.bits j, a.bits j, owned-update ds i k i j);
  were_free = λ j h. ground (arith, a.were_free j, a.bits j, t.was_clear, owned-update ds i k i j);
  in_range = λ j h. ground (arith, a.in_range j, t.in_range, a.same_size);
  distinct = λ j h.
      ground (arith, a.distinct j, a.bits k, t.was_clear, owned-update ds i k j (update ds i k j));
  used = omega (arith, a.used, free);
}

allocate_from_lem :
    (b b1 : Bitmap) (h : FileHeader) (left i : ℕ)
    → Allocated b h.data_sectors i b1
    → left ≤ free_bits b1
    → i + left ≤ num_direct
    → (h2 : FileHeader) × (b2 : Bitmap) × (allocate_from h b1 left i ≡ ok (h2, b2))
      × Allocated b h2.data_sectors (i + left) b2
      × (h2.num_sectors ≡ h.num_sectors)
      × (h2.num_bytes ≡ h.num_bytes)
unfolding allocate_from store_found put_sector
allocate_from_lem b b1 h zero i a f lt =
    (h, b1, refl, subst (λ n. Allocated b h.data_sectors n b1) (omega arith) a, refl, refl)
allocate_from_lem b b1 h (suc left) i a f lt =
    let (k, b2, found, t, free) = find_and_set-free b1 a.valid (omega arith) in
    let h1 : FileHeader = record h { data_sectors = update h.data_sectors i k } in
    let (h3, b3, runs, a3, s3, n3) =
      allocate_from_lem b b2 h1 left (i + 1)
        (subst (λ n. Allocated b h1.data_sectors n b2) (omega arith) (Allocated-suc i k a t free))
        (omega arith) (omega arith) in
    let fits : ltb i num_direct ≡ true = ground arith in
    (
      h3,
      b3,
      rw (found, fits) runs,
      subst (λ n. Allocated b h3.data_sectors n b3) (omega arith) a3,
      s3,
      n3,
    )

Allocated-zero : (b : Bitmap) (ds : ℕ → ℕ) → Words.IsValid b → Allocated b ds 0 b
Allocated-zero b ds v = record {
  valid = v;
  same_size = refl;
  bits = λ j. ground arith;
  were_free = λ j h. let c = h in cc;
  in_range = λ i h. absurd (omega arith);
  distinct = λ i h. absurd (omega arith);
  used = omega arith;
}

-- The loop gets to the index behind the array.
allocate_from-too_long :
    (b b1 : Bitmap) (h : FileHeader) (left i : ℕ)
    → Allocated b h.data_sectors i b1
    → left ≤ free_bits b1
    → num_direct < i + left
    → i ≤ num_direct
    → allocate_from h b1 left i ≡ abort
unfolding allocate_from store_found put_sector
allocate_from-too_long b b1 h zero i a f lt le = absurd (omega arith)
allocate_from-too_long b b1 h (suc left) i a f lt le =
    let (k, b2, found, t, free) = find_and_set-free b1 a.valid (omega arith) in
    let h1 : FileHeader = record h { data_sectors = update h.data_sectors i k } in
    elim (dec_lt i num_direct) [
      | yes y ↦
          let fits : ltb i num_direct ≡ true = ground arith in
          rw (found, fits)
            (allocate_from-too_long b b2 h1 left (i + 1)
              (subst (λ n. Allocated b h1.data_sectors n b2) (omega arith)
                (Allocated-suc i k a t free))
              (omega arith) (omega arith) (omega arith))
      | no n ↦ let over : ltb i num_direct ≡ false = ground arith in rw (found, over) refl
    ]

module _ (h : FileHeader) (b : Bitmap) (file_size : ℕ) (v : Words.IsValid b) where
  abbrev wanted : ℕ
  wanted = div_round_up file_size sector_size

  -- Allocate refuses a file for which too few sectors are free, and takes none.
  pub allocate-full :
      free_bits b < wanted
      → allocate h b file_size
        ≡ ok (false, record h { num_bytes = file_size; num_sectors = wanted }, b)
  unfolding allocate
  allocate-full lt = rw (num_clear_lem b) (ground arith)

  -- When enough sectors are free and the file has at most NumDirect sectors, Allocate succeeds
  -- with distinct sectors that were free, marks exactly these and records the size.
  pub allocate_lem :
      wanted ≤ free_bits b
      → wanted ≤ num_direct
      → (h' : FileHeader) × (b' : Bitmap) × (allocate h b file_size ≡ ok (true, h', b'))
        × Allocated b h'.data_sectors wanted b'
        × (h'.num_sectors ≡ wanted)
        × (h'.num_bytes ≡ file_size)
  unfolding allocate
  allocate_lem le fits =
      let h1 : FileHeader = record h { num_bytes = file_size; num_sectors = wanted } in
      let (h2, b2, runs, a, s, n) =
        allocate_from_lem b b h1 wanted 0 (Allocated-zero b h.data_sectors v) le (omega arith) in
      let enough : ltb (free_bits b) wanted ≡ false = ground arith in
      (
        h2,
        b2,
        rw (num_clear_lem b) (rw (enough, runs) refl),
        subst (λ n. Allocated b h2.data_sectors n b2) (omega arith) a,
        s,
        n,
      )

  -- Allocate of a file of more than NumDirect sectors, for which enough sectors are free, writes
  -- behind the array dataSectors.
  pub allocate-too_long :
      wanted ≤ free_bits b → num_direct < wanted → allocate h b file_size ≡ abort
  unfolding allocate
  allocate-too_long le long =
      let h1 : FileHeader = record h { num_bytes = file_size; num_sectors = wanted } in
      let enough : ltb (free_bits b) wanted ≡ false = ground arith in
      rw (num_clear_lem b) (
        rw
          (
            enough,
            allocate_from-too_long b b h1 wanted 0 (Allocated-zero b h.data_sectors v) le
                (omega arith) (omega arith),
          )
          refl)
