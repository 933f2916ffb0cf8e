-- ===== src/Filesys/OpenFile/Blocks.antt =====
-- The loops of ReadAt and WriteAt in code/filesys/openfile.cc, over whole sectors.
use nachos.Prelude.{
  ℕ, zero, suc, ◌+◌, ◌-◌, ◌*◌, ◌/◌, ◌%◌, ◌≤◌, ◌<◌, ◌≡◌, refl, ap, ◌∙◌, sym, Bool, arith, ltb,
  Result, ok, ◌>>=◌, ◌>>◌, assert, inl, inr, ◌⊎◌, ◌≢◌, ltb_iff,
}
use native.Mathlib.Decide.{ℕ_discrete, dec_le}
use nachos.Machine.{update}
use nachos.Filesys.FileHeader.{FileHeader, byte_to_sector, num_direct}
use nachos.Filesys.OpenFile.{
  Buffer, Disk, num_sectors_on_disk, read_sector, write_sector, bcopy, read_sectors, write_sectors,
}

-- A header of a file on this disk, with a sector of its own for each 128 bytes.
pub record IsGood (hdr : FileHeader) : Type 0 where
  pub in_header : hdr.num_sectors ≤ num_direct
  pub covers : hdr.num_bytes ≤ hdr.num_sectors * 128
  pub on_disk : (i : ℕ) → i < hdr.num_sectors → hdr.data_sectors i < num_sectors_on_disk
  pub apart :
      (i j : ℕ)
      → i < hdr.num_sectors
      → j < hdr.num_sectors
      → hdr.data_sectors i ≡ hdr.data_sectors j
      → i ≡ j

-- Byte k of the file.
abbrev pub content : Disk → FileHeader → Buffer
content disk hdr k = disk (hdr.data_sectors (k / 128)) (k % 128)

sector_of : (hdr : FileHeader) (i : ℕ) → byte_to_sector hdr (i * 128) ≡ hdr.data_sectors i
unfolding byte_to_sector
sector_of hdr i = ap hdr.data_sectors (omega arith)

read_sector_lem :
    (disk : Disk) (hdr : FileHeader)
    → IsGood hdr
    → (i : ℕ) → i < hdr.num_sectors
    → read_sector disk (byte_to_sector hdr (i * 128)) ≡ ok (disk (hdr.data_sectors i))
unfolding read_sector
read_sector_lem disk hdr good i h =
    ap (λ (s : ℕ). assert (ltb s num_sectors_on_disk) >> ok (disk s)) (sector_of hdr i)
    ∙ ap (λ (b : Bool). assert b >> ok (disk (hdr.data_sectors i)))
        ((ltb_iff _ _).1 (good.on_disk i h))

pub bcopy-inside :
    (from : Buffer) (at : ℕ) (into : Buffer) (to n k : ℕ)
    → to ≤ k
    → k < to + n
    → bcopy from at into to n k ≡ from (at + (k - to))
bcopy-inside from at into to n k h h' = ground arith

pub bcopy-outside :
    (from : Buffer) (at : ℕ) (into : Buffer) (to n k : ℕ)
    → (k < to) ⊎ (to + n ≤ k)
    → bcopy from at into to n k ≡ into k
bcopy-outside from at into to n k (inl h) = ground arith
bcopy-outside from at into to n k (inr h) = ground arith

-- The rounds for sectors first + j to first + j + left fill their part of the buffer.
pub read_sectors_lem :
    (disk : Disk) (hdr : FileHeader)
    → IsGood hdr
    → (first j left : ℕ) (buf : Buffer) → first + j + left ≤ hdr.num_sectors
    → (buf' : Buffer) × (read_sectors disk hdr first (first + j) left buf ≡ ok buf')
      × ((k : ℕ) → j * 128 ≤ k → k < (j + left) * 128 → buf' k ≡ content disk hdr (first * 128 + k))
      × ((k : ℕ) → k < j * 128 → buf' k ≡ buf k)
unfolding read_sectors
read_sectors_lem disk hdr good first j zero buf h =
    (buf, refl, λ k a b. absurd (omega arith), λ k a. refl)
read_sectors_lem disk hdr good first j (suc left) buf h =
    let bytes : Buffer = disk (hdr.data_sectors (first + j)) in
    let next : Buffer = bcopy bytes 0 buf (j * 128) 128 in
    let (buf', e, inside, below) =
      read_sectors_lem disk hdr good first (j + 1) left next (omega arith) in
    (
      buf',
      ap
            (λ (r : Result Buffer). r >>= λ bytes'.
              read_sectors disk hdr first (first + j + 1) left
                (bcopy bytes' 0 buf ((first + j - first) * 128) 128))
            (read_sector_lem disk hdr good (first + j) (omega arith))
          ∙ ap
              (λ (i : ℕ).
                read_sectors disk hdr first i left
                  (bcopy bytes 0 buf ((first + j - first) * 128) 128))
              {x = first + j + 1} {y = first + (j + 1)} (omega arith)
          ∙ ap
              (λ (n : ℕ).
                read_sectors disk hdr first (first + (j + 1)) left
                  (bcopy bytes 0 buf (n * 128) 128))
              {x = first + j - first} {y = j} (omega arith)
          ∙ e,
      λ k a b. elim (dec_le ((j + 1) * 128) k) [
        | yes later ↦ inside k later (omega arith)
        | no here ↦
            below k (omega arith)
            ∙ bcopy-inside bytes 0 buf (j * 128) 128 k a (omega arith)
            ∙ ap (λ (n : ℕ). disk (hdr.data_sectors n) (0 + (k - j * 128))) {x = first + j}
                {y = (first * 128 + k) / 128} (omega arith)
            ∙ ap (λ (n : ℕ). disk (hdr.data_sectors ((first * 128 + k) / 128)) n)
                {x = 0 + (k - j * 128)} {y = (first * 128 + k) % 128} (omega arith)
      ],
      λ k a. below k (omega arith) ∙ bcopy-outside bytes 0 buf (j * 128) 128 k (inl a),
    )

-- What the rounds of WriteAt leave in the sectors.
pub record Written (disk disk' : Disk) (hdr : FileHeader) (first j left : ℕ) (buf : Buffer)
    : Type 0 where
  pub inside :
      (i k : ℕ) → j ≤ i → i < j + left → disk' (hdr.data_sectors (first + i)) k ≡ buf (i * 128 + k)
  pub outside :
      (sector k : ℕ)
      → ((i : ℕ) → j ≤ i → i < j + left → hdr.data_sectors (first + i) ≢ sector)
      → disk' sector k ≡ disk sector k

write_sector_lem :
    (disk : Disk) (hdr : FileHeader)
    → IsGood hdr
    → (i : ℕ) (bytes : Buffer) → i < hdr.num_sectors
    → write_sector disk (byte_to_sector hdr (i * 128)) bytes
      ≡ ok (update disk (hdr.data_sectors i) bytes)
unfolding write_sector
write_sector_lem disk hdr good i bytes h =
    ap (λ (s : ℕ). assert (ltb s num_sectors_on_disk) >> ok (update disk s bytes)) (sector_of hdr i)
    ∙ ap (λ (b : Bool). assert b >> ok (update disk (hdr.data_sectors i) bytes))
        ((ltb_iff _ _).1 (good.on_disk i h))

update_self : (disk : Disk) (s k : ℕ) (bytes : Buffer) → update disk s bytes s k ≡ bytes k
update_self disk s k bytes = ground arith

update-ne : (disk : Disk) (s t k : ℕ) (bytes : Buffer) → s ≢ t → update disk s bytes t k ≡ disk t k
update-ne disk s t k bytes h = ground arith

pub write_sectors_lem :
    (hdr : FileHeader)
    → IsGood hdr
    → (first j left : ℕ) (buf : Buffer) (disk : Disk) → first + j + left ≤ hdr.num_sectors
    → (disk' : Disk) × (write_sectors hdr first buf (first + j) left disk ≡ ok disk')
      × Written disk disk' hdr first j left buf
unfolding write_sectors
write_sectors_lem hdr good first j zero buf disk h =
    (disk, refl, record { inside = λ i k a b. absurd (omega arith); outside = λ sector k a. refl })
write_sectors_lem hdr good first j (suc left) buf disk h =
    let bytes : Buffer = λ k. buf (j * 128 + k) in
    let next : Disk = update disk (hdr.data_sectors (first + j)) bytes in
    let (disk', e, w) = write_sectors_lem hdr good first (j + 1) left buf next (omega arith) in
    (
      disk',
      ap
            (λ (n : ℕ).
              write_sector disk (byte_to_sector hdr ((first + j) * 128)) (λ k. buf (n * 128 + k))
              >>= λ d. write_sectors hdr first buf (first + j + 1) left d)
            {x = first + j - first} {y = j} (omega arith)
          ∙ ap (λ (r : Result Disk). r >>= λ d. write_sectors hdr first buf (first + j + 1) left d)
              (write_sector_lem disk hdr good (first + j) bytes (omega arith))
          ∙ ap (λ (i : ℕ). write_sectors hdr first buf i left next) {x = first + j + 1}
              {y = first + (j + 1)} (omega arith)
          ∙ e,
      record {
        inside = λ i k a b. elim (ℕ_discrete i j) [
          | yes same ↦
              w.outside (hdr.data_sectors (first + i)) k (λ i' a' b' clash. absurd (
                omega
                  (arith, good.apart (first + i') (first + i) (omega arith) (omega arith) clash)))
              ∙ ap (λ (n : ℕ). next (hdr.data_sectors (first + n)) k) same
              ∙ update_self disk (hdr.data_sectors (first + j)) k bytes
              ∙ ap (λ (n : ℕ). buf (n * 128 + k)) (sym same)
          | no other ↦ w.inside i k (omega arith) (omega arith)
        ];
        outside = λ sector k away.
            w.outside sector k (λ i a b. away i (omega arith) (omega arith))
            ∙ update-ne disk (hdr.data_sectors (first + j)) sector k bytes
                (away j (omega arith) (omega arith));
      },
    )
