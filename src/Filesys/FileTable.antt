-- ===== src/Filesys/FileTable.antt =====
-- code/filesys/openfile.h and filesys.h with FILESYS_STUB: files of the host, and the table of the
-- open ones, with the calls of code/lib/sysdep.cc that they make. The host's own calls are an
-- argument. A name is the list of its characters before the NUL.
pub mod Slots
pub mod Search
pub mod Sockets
use nachos.Prelude.{
  ℕ, zero, suc, ◌+◌, ◌-◌, ◌*◌, ◌/◌, ◌%◌, Bool, true, false, not, ◌&&◌, ◌||◌, List, [], ◌∷◌, ◌++◌,
  Option, none, some, ltb, leb, ◌==◌, if◌then◌else◌, ℤ, pos, negsuc, pos_part, ◌+ℤ◌, ◌-ℤ◌, ltb_ℤ,
  Result, ok, abort, ◌>>=◌, ◌>>◌, assert,
}
use nachos.Machine.{update}

abbrev pub Name : Type 0
Name = List ℕ

abbrev pub same_text : Name → Name → Bool
same_text [] [] = true
same_text [] (y ∷ ys) = false
same_text (x ∷ xs) [] = false
same_text (x ∷ xs) (y ∷ ys) = (x == y) && same_text xs ys

-- -1
abbrev pub failed : ℤ
failed = negsuc 0

abbrev pub eq_ℤ : ℤ → ℤ → Bool
eq_ℤ (pos a) (pos b) = a == b
eq_ℤ (pos a) (negsuc b) = false
eq_ℤ (negsuc a) (pos b) = false
eq_ℤ (negsuc a) (negsuc b) = a == b

-- The calls of the host: what they return, and the host after them. `behind` is what stands in
-- memory, up to the next NUL, behind an array that has just been made for a name.
pub record Unix (S : Type 0) : Type 0 where
  pub creat : S → Name → ℤ × S
  pub behind : S → Name → List ℕ
  pub open_read_only : S → Name → ℤ × S
  pub open_read_write : S → Name → ℤ × S
  pub close : S → ℤ → ℤ × S
  pub unlink : S → Name → ℤ × S
  pub lseek : S → ℤ → ℤ → ℕ → ℤ × S
  pub read : S → ℤ → ℤ → ℤ × List ℕ × S
  pub write : S → ℤ → List ℕ → ℤ → ℤ × S
  pub open_socket : S → ℤ × S
  pub connect_socket : S → ℤ → Name → ℤ → ℤ × S
  pub send : S → ℤ → List ℕ → ℤ × S
  pub receive : S → ℤ → ℤ × List ℕ × S
  pub close_socket : S → ℤ → S
  pub get_char : S → ℕ × S
  pub put_char : S → ℕ → S

-- OpenFile of the stub; `file_name` is what strcmp reads from the array, up to a NUL. A file that
-- was opened without a name and a mode has none.
pub record UnixFile : Type 0 where
  pub file : ℤ
  pub current_offset : ℤ
  pub file_name : Option Name
  pub file_type : ℤ
  pub socket_id : ℤ

pub record Files (S : Type 0) : Type 0 where
  pub host : S
  pub table : ℕ → Option UnixFile

abbrev pub max_file : ℕ
max_file = 20

abbrev pub plus_socket_id : ℤ
plus_socket_id = pos 100

abbrev pub is_socket : UnixFile → Bool
is_socket f = not (eq_ℤ f.socket_id failed)

module _ {S : Type 0} where
  abbrev pub on_host : Files S → S → Files S
  on_host fs h = record fs { host = h }

  -- An element of the array fileDescriptorTable, and an assignment to one.
  unfoldable pub slot : Files S → ℕ → Result (Option UnixFile)
  slot fs i = assert (ltb i max_file) >> ok (fs.table i)

  unfoldable pub put_slot : Files S → ℕ → Option UnixFile → Files S
  put_slot fs i f = record fs { table = update fs.table i f }

-- lib/sysdep.cc
module _ {S : Type 0} (u : Unix S) where
  unfoldable pub open_for_write : Files S → Name → Result (ℤ × Files S)
  open_for_write fs name =
      let (fd, h) = u.creat fs.host name in assert (not (ltb_ℤ fd (pos 0))) >> ok (fd, on_host fs h)

  unfoldable pub open_for_read : Files S → Name → Bool → Result (ℤ × Files S)
  open_for_read fs name crash_on_error =
      let (fd, h) = u.open_read_only fs.host name in
      assert (not crash_on_error || not (ltb_ℤ fd (pos 0))) >> ok (fd, on_host fs h)

  unfoldable pub open_for_read_write : Files S → Name → Bool → Result (ℤ × Files S)
  open_for_read_write fs name crash_on_error =
      let (fd, h) = u.open_read_write fs.host name in
      assert (not crash_on_error || not (ltb_ℤ fd (pos 0))) >> ok (fd, on_host fs h)

  unfoldable pub close_fd : Files S → ℤ → Result (ℤ × Files S)
  close_fd fs fd =
      let (ret, h) = u.close fs.host fd in
      assert (not (ltb_ℤ ret (pos 0))) >> ok (ret, on_host fs h)

  unfoldable pub seek_fd : Files S → ℤ → ℤ → ℕ → Result (Files S)
  seek_fd fs fd offset whence =
      let (ret, h) = u.lseek fs.host fd offset whence in
      assert (not (ltb_ℤ ret (pos 0))) >> ok (on_host fs h)

  -- Tell is lseek(fd, 0, SEEK_CUR).
  unfoldable pub tell : Files S → ℤ → ℤ × Files S
  tell fs fd = let (ret, h) = u.lseek fs.host fd (pos 0) 1 in (ret, on_host fs h)

  unfoldable pub read_partial : Files S → ℤ → ℤ → ℤ × List ℕ × Files S
  read_partial fs fd n_bytes =
      let (ret, bytes, h) = u.read fs.host fd n_bytes in (ret, bytes, on_host fs h)

  unfoldable pub write_fd : Files S → ℤ → List ℕ → ℤ → Result (Files S)
  write_fd fs fd buffer n_bytes =
      let (ret, h) = u.write fs.host fd buffer n_bytes in
      assert (eq_ℤ ret n_bytes) >> ok (on_host fs h)

  -- Whether unlink gives anything but 0.
  unfoldable pub unlink_fails : Files S → Name → Bool × Files S
  unlink_fails fs name =
      let (ret, h) = u.unlink fs.host name in (not (eq_ℤ ret (pos 0)), on_host fs h)

  -- openfile.h: the bytes that are read come as a list.
  unfoldable pub file_read : Files S → UnixFile → ℤ → Result (ℤ × UnixFile × List ℕ × Files S)
  unfolding seek_fd read_partial
  file_read fs f num_bytes = do
    fs' ← seek_fd fs f.file f.current_offset 0
    let (num_read, bytes, fs'') = read_partial fs' f.file num_bytes
    ok (num_read, record f { current_offset = f.current_offset +ℤ num_read }, bytes, fs'')

  unfoldable pub file_write : Files S → UnixFile → List ℕ → ℤ → Result (ℤ × UnixFile × Files S)
  unfolding seek_fd write_fd
  file_write fs f from num_bytes = do
    fs' ← seek_fd fs f.file f.current_offset 0
    fs'' ← write_fd fs' f.file from num_bytes
    ok (num_bytes, record f { current_offset = f.current_offset +ℤ num_bytes }, fs'')

  unfoldable pub file_size : Files S → UnixFile → Result (ℤ × Files S)
  unfolding seek_fd tell
  file_size fs f = do fs' ← seek_fd fs f.file (pos 0) 2; ok (tell fs' f.file)

  -- The destructor closes the file.
  unfoldable pub delete_file : Files S → UnixFile → Result (Files S)
  unfolding close_fd
  delete_file fs f = do (ret, fs') ← close_fd fs f.file; ok fs'
