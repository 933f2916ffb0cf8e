-- ===== src/Tests/OpenFiles.antt =====
-- A file of two sectors on a disk of zeros, code/filesys/openfile.cc.
use nachos.Prelude.{ℕ, ◌+◌, ◌≤◌, ◌<◌, ◌≡◌, refl, true, arith, ok, replicate, zero, suc, get_or, ◌^◌}
use nachos.Bitmap.{Bitmap}
use nachos.Bitmap.Words
use nachos.Filesys.FileHeader.{FileHeader, allocate}
use nachos.Filesys.OpenFile.{Buffer, Disk, OpenFile, seek, read, write, read_at, write_at}
use nachos.Filesys.OpenFile.Blocks.{IsGood}
use nachos.Filesys.OpenFile.Read.{Copied, read_at_lem}
use nachos.Filesys.OpenFile.Write.{Stored, write_at_lem}
use nachos.Filesys.OpenFile.RoundTrip.{read-write, allocate-IsGood}

abbrev header : FileHeader
header = record { num_bytes = 200; num_sectors = 2; data_sectors = λ i. i + 5 }

header-IsGood : IsGood header
header-IsGood = record {
  in_header = omega arith;
  covers = omega arith;
  on_disk = λ i h. omega arith;
  apart = λ i j h k e. omega arith;
}

abbrev zeros : Disk
zeros = λ sector k. 0

abbrev junk : Buffer
junk = λ k. 0xcc

abbrev letters : Buffer
letters = λ k. 97 + k

abbrev file : OpenFile
file = record { hdr = header; seek_position = 120 }

read-write_example :
    (disk' : Disk) × (into' : Buffer) × (write zeros file junk junk junk letters 20
      ≡ ok (20, record file { seek_position = 140 }, disk'))
    × (read disk' (seek (record file { seek_position = 140 }) 120) junk junk 20
        ≡ ok (20, record file { seek_position = 140 }, into'))
    × ((k : ℕ) → k < 20 → into' k ≡ letters k)
    × ((k : ℕ) → 20 ≤ k → into' k ≡ junk k)
read-write_example =
    read-write zeros file header-IsGood junk junk junk junk letters junk 20 (omega arith)

write_at_lem_example :
    (disk' : Disk) × (write_at zeros header junk junk junk letters 20 120 ≡ ok (20, disk'))
    × Stored zeros header header-IsGood junk junk junk letters 20 120 20 disk'
write_at_lem_example =
    write_at_lem zeros header header-IsGood junk junk junk letters 20 120 (omega arith)

read_at_lem_example :
    (into' : Buffer) × (read_at zeros header junk junk 3 20 120 ≡ ok (20, into'))
    × Copied zeros header 120 3 20 junk into'
read_at_lem_example = read_at_lem zeros header header-IsGood junk junk 3 20 120 (omega arith)

abbrev free_map : Bitmap
free_map = record { num_bits = 1024; num_words = 32; words = replicate 32 0 }

abbrev unused : FileHeader
unused = record { num_bytes = 0; num_sectors = 0; data_sectors = λ i. 0 }

zeros_fit : (n k : ℕ) → get_or (replicate n 0) k 0 < 2 ^ 32
zeros_fit zero k = omega arith
zeros_fit (suc n) zero = omega arith
zeros_fit (suc n) (suc k) = zeros_fit n k

free_map-IsValid : Words.IsValid free_map
free_map-IsValid = record {
  nonempty = omega arith;
  num_words_eq = refl;
  allocated = refl;
  fits = zeros_fit 32;
}

allocate-IsGood_example :
    (h' : FileHeader) × (b' : Bitmap) × (allocate unused free_map 200 ≡ ok (true, h', b'))
    × IsGood h'
    × (h'.num_bytes ≡ 200)
allocate-IsGood_example =
    allocate-IsGood unused free_map 200 free_map-IsValid refl (omega arith) (omega arith)
