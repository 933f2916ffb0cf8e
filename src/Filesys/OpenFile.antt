-- ===== src/Filesys/OpenFile.antt =====
-- code/filesys/openfile.cc: reading and writing a part of a file. A buffer of char is a function of
-- the index. What `new char[...]` holds before it is written is an argument, one for each buffer.
-- Positions and counts are natural numbers here.
pub mod Blocks
pub mod Read
pub mod Ends
pub mod Write
pub mod RoundTrip
use nachos.Prelude.{
  ℕ, zero, suc, ◌+◌, ◌-◌, ◌*◌, ◌/◌, ◌%◌, ◌^◌, Bool, true, false, not, ◌&&◌, ◌||◌, ltb, leb, ◌==◌,
  if◌then◌else◌, Result, ok, abort, ◌>>=◌, ◌>>◌, assert,
}
use nachos.Machine.{update}
use nachos.Filesys.{sector_size}
use nachos.Filesys.FileHeader.{FileHeader, byte_to_sector, file_length}

abbrev pub Buffer : Type 0
Buffer = ℕ → ℕ

-- The bytes of each sector.
abbrev pub Disk : Type 0
Disk = ℕ → Buffer

abbrev pub num_sectors_on_disk : ℕ
num_sectors_on_disk = 32 * 32

-- SynchDisk::ReadSector and WriteSector, with the requests of code/machine/disk.cc, as the thread
-- that waits for them sees them.
unfoldable pub read_sector : Disk → ℕ → Result Buffer
read_sector disk sector = assert (ltb sector num_sectors_on_disk) >> ok (disk sector)

unfoldable pub write_sector : Disk → ℕ → Buffer → Result Disk
write_sector disk sector bytes =
    assert (ltb sector num_sectors_on_disk) >> ok (update disk sector bytes)

-- bcopy(&from[at], &into[to], n).
abbrev pub bcopy : Buffer → ℕ → Buffer → ℕ → ℕ → Buffer
bcopy from at into to n k = if leb to k && ltb k (to + n) then from (at + (k - to)) else into k

-- The loop of ReadAt from sector i of the file on, with `left` rounds to go.
unfoldable pub read_sectors : Disk → FileHeader → ℕ → ℕ → ℕ → Buffer → Result Buffer
read_sectors disk hdr first i zero buf = ok buf
read_sectors disk hdr first i (suc left) buf =
    read_sector disk (byte_to_sector hdr (i * sector_size)) >>= λ bytes.
    read_sectors disk hdr first (i + 1) left
      (bcopy bytes 0 buf ((i - first) * sector_size) sector_size)

-- position + numBytes as an int. A sum that leaves the range is undefined in C, and fails here.
abbrev pub int_sum : ℕ → ℕ → Result ℕ
int_sum position num_bytes =
    assert (ltb (position + num_bytes) (2 ^ 31)) >> ok (position + num_bytes)

-- How many bytes there are from the position on, up to numBytes.
unfoldable pub clip : FileHeader → ℕ → ℕ → Result ℕ
unfolding file_length
clip hdr num_bytes position = int_sum position num_bytes >>= λ sum.
    ok (if ltb (file_length hdr) sum then file_length hdr - position else num_bytes)

-- `into` begins at index `to` of its buffer.
unfoldable pub read_at : Disk → FileHeader → Buffer → Buffer → ℕ → ℕ → ℕ → Result (ℕ × Buffer)
unfolding file_length clip read_sectors
read_at disk hdr fresh into to num_bytes position =
    if num_bytes == 0 || leb (file_length hdr) position then ok (0, into) else (do
      n ← clip hdr num_bytes position
      let first = position / sector_size
      let last = (position + n - 1) / sector_size
      buf ← read_sectors disk hdr first first (1 + last - first) fresh
      ok (n, bcopy buf (position - first * sector_size) into to n))

-- The loop of WriteAt.
unfoldable pub write_sectors : FileHeader → ℕ → Buffer → ℕ → ℕ → Disk → Result Disk
write_sectors hdr first buf i zero disk = ok disk
write_sectors hdr first buf i (suc left) disk =
    write_sector disk (byte_to_sector hdr (i * sector_size))
      (λ k. buf ((i - first) * sector_size + k))
    >>= λ disk'. write_sectors hdr first buf (i + 1) left disk'

-- The first and the last sector are read if they are changed in part.
unfoldable pub read_ends : Disk → FileHeader → Buffer → Buffer → Buffer → ℕ → ℕ → Result Buffer
unfolding read_at
read_ends disk hdr fresh fresh' buf n position = do
  let first = position / sector_size
  let last = (position + n - 1) / sector_size
  let first_aligned = position == first * sector_size
  let last_aligned = position + n == (last + 1) * sector_size
  (m, buf1) ←
      (if not first_aligned
        then read_at disk hdr fresh buf 0 sector_size (first * sector_size)
        else ok (0, buf))
  (m', buf2) ←
      (if not last_aligned && (not (first == last) || first_aligned)
        then read_at disk hdr fresh' buf1 ((last - first) * sector_size) sector_size
            (last * sector_size)
        else ok (0, buf1))
  ok buf2

unfoldable pub write_at :
    Disk → FileHeader → Buffer → Buffer → Buffer → Buffer → ℕ → ℕ → Result (ℕ × Disk)
unfolding file_length clip read_ends write_sectors
write_at disk hdr fresh fresh' buf from num_bytes position =
    if num_bytes == 0 || leb (file_length hdr) position then ok (0, disk) else (do
      n ← clip hdr num_bytes position
      let first = position / sector_size
      let last = (position + n - 1) / sector_size
      buf2 ← read_ends disk hdr fresh fresh' buf n position
      let filled = bcopy from 0 buf2 (position - first * sector_size) n
      disk' ← write_sectors hdr first filled first (1 + last - first) disk
      ok (n, disk'))

-- An open file. Its constructor fetches the header; the pointer to it stays the same.
pub record OpenFile : Type 0 where
  pub hdr : FileHeader
  pub seek_position : ℕ

unfoldable pub seek : OpenFile → ℕ → OpenFile
seek file position = record file { seek_position = position }

unfoldable pub read : Disk → OpenFile → Buffer → Buffer → ℕ → Result (ℕ × OpenFile × Buffer)
read disk file fresh into num_bytes = do
  (result, into') ← read_at disk file.hdr fresh into 0 num_bytes file.seek_position
  ok (result, record file { seek_position = file.seek_position + result }, into')

unfoldable pub write :
    Disk → OpenFile → Buffer → Buffer → Buffer → Buffer → ℕ → Result (ℕ × OpenFile × Disk)
write disk file fresh fresh' buf from num_bytes = do
  (result, disk') ← write_at disk file.hdr fresh fresh' buf from num_bytes file.seek_position
  ok (result, record file { seek_position = file.seek_position + result }, disk')

unfoldable pub length_of : OpenFile → ℕ
unfolding file_length
length_of file = file_length file.hdr
