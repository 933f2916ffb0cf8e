-- ===== src/Filesys/FileHeader.antt =====
-- code/filesys/filehdr.h and filehdr.cc: the header of a file and the sectors it owns. The free map
-- is the bitmap of code/lib/bitmap.cc, which PersistentBitmap extends by its transfers to the disk.
pub mod Allocate
pub mod Deallocate
use nachos.Prelude.{ℕ, zero, suc, ◌+◌, ◌-◌, ◌*◌, ◌/◌, Bool, true, false, ltb, if◌then◌else◌}
use nachos.Prelude.{ℤ, pos, negsuc, Result, ok, abort, ◌>>=◌, ◌>>◌, assert}
use nachos.Bitmap.{Bitmap, div_round_up, test, clear, find_and_set, num_clear}
use nachos.Machine.{update}
use nachos.Filesys.{sector_size}

-- NumDirect, with an int of 4 bytes.
abbrev pub num_direct : ℕ
num_direct = (sector_size - 2 * 4) / 4

pub record FileHeader : Type 0 where
  pub num_bytes : ℕ
  pub num_sectors : ℕ
  pub data_sectors : ℕ → ℕ

-- An assignment to dataSectors[i]; behind the array there is nothing to assign to.
unfoldable pub put_sector : FileHeader → ℕ → ℕ → Result FileHeader
put_sector h i sector =
    assert (ltb i num_direct) >> ok (record h { data_sectors = update h.data_sectors i sector })

-- The result of FindAndSet is stored, and the ASSERT wants it to be a sector.
unfoldable pub store_found : FileHeader → ℕ → ℤ × Bitmap → Result (FileHeader × Bitmap)
store_found h i (negsuc n, free_map) = abort
store_found h i (pos sector, free_map) = put_sector h i sector >>= λ h1. ok (h1, free_map)

-- The loop of Allocate from i on, with `left` rounds to go.
unfoldable pub allocate_from : FileHeader → Bitmap → ℕ → ℕ → Result (FileHeader × Bitmap)
allocate_from h free_map zero i = ok (h, free_map)
allocate_from h free_map (suc left) i = find_and_set free_map >>= λ found.
    (store_found h i found >>= λ next. allocate_from next.0 next.1 left (i + 1))

unfoldable pub allocate : FileHeader → Bitmap → ℕ → Result (Bool × FileHeader × Bitmap)
allocate h free_map file_size =
    let n = div_round_up file_size sector_size in
    let h1 = record h { num_bytes = file_size; num_sectors = n } in
    num_clear free_map >>= λ free.
    (if ltb free n
      then ok (false, h1, free_map)
      else (allocate_from h1 free_map n 0 >>= λ done. ok (true, done.0, done.1)))

-- The loop of Deallocate.
unfoldable pub deallocate_from : FileHeader → Bitmap → ℕ → ℕ → Result Bitmap
deallocate_from h free_map zero i = ok free_map
deallocate_from h free_map (suc left) i = test free_map (pos (h.data_sectors i)) >>= λ marked.
    (assert marked
      >> (clear free_map (pos (h.data_sectors i)) >>= λ m. deallocate_from h m left (i + 1)))

unfoldable pub deallocate : FileHeader → Bitmap → Result Bitmap
deallocate h free_map = deallocate_from h free_map h.num_sectors 0

unfoldable pub byte_to_sector : FileHeader → ℕ → ℕ
byte_to_sector h offset = h.data_sectors (offset / sector_size)

unfoldable pub file_length : FileHeader → ℕ
file_length h = h.num_bytes
