-- ===== src/Filesys/OpenFile/RoundTrip.antt =====
-- OpenFile::Write, Seek and Read of code/filesys/openfile.cc, one after the other.
use nachos.Prelude.{ℕ, ◌+◌, ◌*◌, ◌^◌, ◌≤◌, ◌<◌, ◌≡◌, ap, ◌∙◌, sym, arith, Result, ok, ◌>>=◌, inr}
use nachos.Filesys.FileHeader.{FileHeader}
use nachos.Filesys.OpenFile.{Buffer, Disk, OpenFile, seek, read, write}
use nachos.Filesys.OpenFile.Blocks.{IsGood}
use nachos.Filesys.OpenFile.Read.{served, read_at_lem}
use nachos.Filesys.FileHeader.Allocate.{Allocated, owned, owned_lem, allocate_lem}
use nachos.Filesys.FileHeader.{num_direct, allocate}
use nachos.Bitmap.{Bitmap, div_round_up}
use nachos.Bitmap.Words
use nachos.Bitmap.Search.{free_bits}
use native.Mathlib.Decide.{ℕ_discrete, dec_lt}
use nachos.Prelude.{true, subst}
use nachos.Filesys.OpenFile.{num_sectors_on_disk}
use nachos.Filesys.OpenFile.Write.{write_at_lem}

module _ (disk : Disk) (file : OpenFile) (good : IsGood file.hdr)
    (fresh fresh' fresh'' buf from into : Buffer) (num_bytes : ℕ) where
  abbrev n : ℕ
  n = served file.hdr num_bytes file.seek_position

  abbrev moved : OpenFile
  moved = record file { seek_position = file.seek_position + n }

  -- For an open file with a good header, while the position and the number of bytes add up to an
  -- int, Write comes back with as many bytes as the file has room for and moves the position by
  -- it; after Seek to the old position, Read of as many gives exactly the bytes written and the
  -- same new position, and leaves the rest of the buffer alone, whatever fresh buffers held.
  pub read-write :
      file.seek_position + num_bytes < 2 ^ 31
      → (disk' : Disk) × (into' : Buffer) × (write disk file fresh fresh' buf from num_bytes
          ≡ ok (n, moved, disk'))
        × (read disk' (seek moved file.seek_position) fresh'' into num_bytes ≡ ok (n, moved, into'))
        × ((k : ℕ) → k < n → into' k ≡ from k)
        × ((k : ℕ) → n ≤ k → into' k ≡ into k)
  unfolding read write seek
  read-write small =
      let (disk', e, w) =
        write_at_lem disk file.hdr good fresh fresh' buf from num_bytes file.seek_position small in
      let (into', f, (copied, rest)) =
        read_at_lem disk' file.hdr good fresh'' into 0 num_bytes file.seek_position small in
      (
        disk',
        into',
        ap
            (λ (r : Result (ℕ × Disk)).
              r >>= λ p. ok (p.0, record file { seek_position = file.seek_position + p.0 }, p.1))
            e,
        ap
            (λ (r : Result (ℕ × Buffer)).
              r >>= λ p. ok (p.0, record file { seek_position = file.seek_position + p.0 }, p.1))
            f,
        λ k h. ap into' {x = k} {y = 0 + k} (omega arith) ∙ copied k h ∙ w.stored k h,
        λ k h. rest k (inr (omega arith)),
      )

-- The header of a new file is a good one, on a disk as large as the free map.
owned_at : (ds : ℕ → ℕ) (n j : ℕ) → j < n → (i : ℕ) → ds j ≡ ds i → owned ds n (ds i) ≡ true
owned_at ds n j h i e = subst (λ s. owned ds n s ≡ true) e (owned_lem ds n j h)

Allocated-IsGood :
    (b b' : Bitmap) (hdr : FileHeader)
    → b.num_bits ≡ num_sectors_on_disk
    → hdr.num_bytes ≤ hdr.num_sectors * 128
    → hdr.num_sectors ≤ num_direct
    → Allocated b hdr.data_sectors hdr.num_sectors b'
    → IsGood hdr
Allocated-IsGood b b' hdr size covers few a = record {
  in_header = few;
  covers = covers;
  on_disk = λ i h. omega (arith, a.in_range i h, size);
  apart = λ i j hi hj e. elim (ℕ_discrete i j) [
    | yes same ↦ same
    | no other ↦ elim (dec_lt i j) [
      | yes lt ↦ let t = owned_at hdr.data_sectors j i lt j e in let f = a.distinct j hj in cc
      | no ge ↦
          let t = owned_at hdr.data_sectors i j (omega arith) i (sym e) in
          let f = a.distinct i hi in cc
    ]
  ];
}

-- On a valid free map of the disk with enough free sectors, Allocate of a file that fits the
-- header makes a header of that size whose sectors lie on the disk, are pairwise distinct and
-- cover the file, as reading and writing need it.
pub allocate-IsGood :
    (h : FileHeader) (b : Bitmap) (file_size : ℕ)
    → Words.IsValid b
    → b.num_bits ≡ num_sectors_on_disk
    → div_round_up file_size 128 ≤ free_bits b
    → div_round_up file_size 128 ≤ num_direct
    → (h' : FileHeader) × (b' : Bitmap) × (allocate h b file_size ≡ ok (true, h', b'))
      × IsGood h'
      × (h'.num_bytes ≡ file_size)
allocate-IsGood h b file_size v size free fits =
    let (h', b', e, a, sectors, bytes) = allocate_lem h b file_size v free fits in
    (
      h',
      b',
      e,
      Allocated-IsGood b b' h' size (rw (sectors, bytes) (round_up file_size)) (rw sectors fits)
          (subst (λ n. Allocated b h'.data_sectors n b') (sym sectors) a),
      bytes,
    )
  where
    round_up : (n : ℕ) → n ≤ div_round_up n 128 * 128
    round_up n = ground arith
