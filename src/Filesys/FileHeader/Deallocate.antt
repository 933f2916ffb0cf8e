-- ===== src/Filesys/FileHeader/Deallocate.antt =====
-- FileHeader::Deallocate of code/filesys/filehdr.cc.
use nachos.Prelude.{
  ◌≤◌, ℕ, zero, suc, ◌+◌, ◌<◌, ◌≡◌, refl, ap, ◌∙◌, subst, true, not, ◌&&◌, arith, ok,
}
use nachos.Bitmap.{div_round_up, Bitmap}
use nachos.Bitmap.Search.{free_bits}
use nachos.Filesys.{sector_size}
use nachos.Bitmap.Words.{is_marked, test-is_marked}
use nachos.Bitmap.Words
use nachos.Bitmap.Ops.{clear_lem}
use nachos.Filesys.FileHeader.{num_direct, allocate, FileHeader, deallocate_from, deallocate}
use nachos.Filesys.FileHeader.Allocate.{allocate_lem, owned, Allocated, owned_lem}

-- b is b1 without the first i sectors of the header.
record Freed (b1 : Bitmap) (ds : ℕ → ℕ) (i : ℕ) (b : Bitmap) : Type 0 where
  valid : Words.IsValid b
  same_size : b.num_bits ≡ b1.num_bits
  bits : (j : ℕ) → is_marked b j ≡ (is_marked b1 j && not (owned ds i j))

module _ (b0 b1 : Bitmap) (h : FileHeader) (n : ℕ) (a : Allocated b0 h.data_sectors n b1) where
  deallocate_from_lem :
      (b : Bitmap) (left i : ℕ)
      → Freed b1 h.data_sectors i b
      → i + left ≡ n
      → (b' : Bitmap) × (deallocate_from h b left i ≡ ok b') × Freed b1 h.data_sectors n b'
  unfolding deallocate_from
  deallocate_from_lem b zero i f e =
      (b, refl, subst (λ k. Freed b1 h.data_sectors k b) (omega arith) f)
  deallocate_from_lem b (suc left) i f e =
      let s = h.data_sectors i in
      let in_map : s < b.num_bits =
        omega (arith, a.in_range i (omega arith), a.same_size, f.same_size) in
      let marked : is_marked b s ≡ true = ground (
        arith,
        f.bits s,
        a.bits s,
        a.distinct i (omega arith),
        owned_lem h.data_sectors n i (omega arith),
      ) in
      let (b2, cleared, u) = clear_lem b s f.valid in_map in
      let f2 : Freed b1 h.data_sectors (suc i) b2 = record {
        valid = u.valid;
        same_size = u.same_size ∙ f.same_size;
        bits = λ j. ground (arith, u.bits j, f.bits j);
      } in
      let (b3, runs, f3) =
        deallocate_from_lem b2 left (i + 1)
          (subst (λ k. Freed b1 h.data_sectors k b2) (omega arith) f2) (omega arith) in
      (b3, rw (test-is_marked b s in_map, marked, cleared) runs, f3)

  freed_lem :
      h.num_sectors ≡ n
      → (b2 : Bitmap) × (deallocate h b1 ≡ ok b2)
        × Words.IsValid b2
        × ((j : ℕ) → is_marked b2 j ≡ is_marked b0 j)
  unfolding deallocate
  freed_lem e =
      let (b2, runs, f) =
        deallocate_from_lem b1 n 0
          (record { valid = a.valid; same_size = refl; bits = λ j. ground arith }) (omega arith) in
      (
        b2,
        ap (λ k. deallocate_from h b1 k 0) e ∙ runs,
        f.valid,
        λ j. ground (arith, f.bits j, a.bits j, a.were_free j),
      )

-- When enough sectors are free and the file has at most NumDirect sectors, Allocate succeeds,
-- Deallocate of its header returns, and every bit of the free map is again what it was.
pub deallocate-allocate :
    (h : FileHeader) (b : Bitmap) (file_size : ℕ)
    → Words.IsValid b
    → div_round_up file_size sector_size ≤ free_bits b
    → div_round_up file_size sector_size ≤ num_direct
    → (h1 : FileHeader) × (b1 : Bitmap) × (b2 : Bitmap) × (allocate h b file_size
        ≡ ok (true, h1, b1))
      × (deallocate h1 b1 ≡ ok b2)
      × ((j : ℕ) → is_marked b2 j ≡ is_marked b j)
deallocate-allocate h b file_size v enough fits =
    let (h1, b1, runs, a, sectors, bytes) = allocate_lem h b file_size v enough fits in
    let (b2, freed, valid, same) =
      freed_lem b b1 h1 (div_round_up file_size sector_size) a sectors in
    (h1, b1, b2, runs, freed, same)
