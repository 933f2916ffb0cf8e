-- ===== src/Filesys.antt =====
-- code/filesys: the file system on the disk.
pub mod FileHeader
pub mod OpenFile
pub mod FileTable
pub mod Directory
use nachos.Prelude.{ℕ}

-- code/machine/disk.h
abbrev pub sector_size : ℕ
sector_size = 128
