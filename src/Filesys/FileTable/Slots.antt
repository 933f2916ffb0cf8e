-- ===== src/Filesys/FileTable/Slots.antt =====
-- The methods of FileSystem in code/filesys/filesys.h, with FILESYS_STUB; those that only sockets use
-- are in Sockets.
use nachos.Prelude.{
  ℕ, zero, suc, ◌+◌, ◌-◌, ◌/◌, ◌%◌, Bool, true, false, not, ◌&&◌, ◌||◌, List, [], ◌∷◌, ◌++◌, Option,
  none, some, ◌==◌, if◌then◌else◌, ℤ, pos, pos_part, ◌-ℤ◌, ltb_ℤ, Result, ok, abort, ◌>>=◌,
}
use nachos.Filesys.FileTable.{
  Name, same_text, failed, eq_ℤ, Unix, UnixFile, Files, max_file, plus_socket_id, is_socket,
  on_host, slot, put_slot, open_for_write, open_for_read, open_for_read_write, close_fd,
  unlink_fails, file_read, file_write, file_size, delete_file,
}

abbrev pub in_table : ℤ → Bool
in_table id = not (ltb_ℤ id (pos 0)) && ltb_ℤ id (pos max_file)

abbrev pub is_free : Option UnixFile → Bool
is_free none = true
is_free (some f) = false

-- Whether an open file has the name.
abbrev pub has_name : Name → Option UnixFile → Bool
has_name name none = false
has_name name (some f) = elim f.file_name [ none ↦ false | some own ↦ same_text own name ]

abbrev pub as_id : Option ℕ → ℤ
as_id none = failed
as_id (some i) = pos i

module _ {S : Type 0} where
  -- The loops over the table, from slot i on with `left` rounds to go.
  unfoldable pub empty_from : Files S → ℕ → ℕ → Option ℕ
  empty_from fs i zero = none
  empty_from fs i (suc left) =
      let rest = empty_from fs (i + 1) left in if is_free (fs.table i) then some i else rest

  unfoldable pub get_file_descriptor_empty_slot : Files S → ℤ
  unfolding empty_from
  get_file_descriptor_empty_slot fs = as_id (empty_from fs 2 (max_file - 2))

  unfoldable pub named_from : Files S → Name → ℕ → ℕ → Option ℕ
  named_from fs name i zero = none
  named_from fs name i (suc left) =
      let rest = named_from fs name (i + 1) left in
      if has_name name (fs.table i) then some i else rest

  unfoldable pub get_file_descriptor_id : Files S → Name → ℤ
  unfolding named_from
  get_file_descriptor_id fs name = as_id (named_from fs name 0 max_file)

  unfoldable pub get_file_descriptor_by_name : Files S → Name → Option UnixFile
  unfolding named_from
  get_file_descriptor_by_name fs name = elim (named_from fs name 0 max_file) [
    | none ↦ none
    | some i ↦ fs.table i
  ]

  unfoldable pub get_file_descriptor_by_id : Files S → ℤ → Option UnixFile
  get_file_descriptor_by_id fs id = if not (in_table id) then none else fs.table (pos_part id)

  -- The socket with the id, in RemoveFileDescriptor.
  unfoldable pub socket_from : Files S → ℤ → ℕ → ℕ → Option (ℕ × UnixFile)
  socket_from fs id i zero = none
  socket_from fs id i (suc left) =
      let rest = socket_from fs id (i + 1) left in
      elim (fs.table i) [
        | none ↦ rest
        | some f ↦ if is_socket f && eq_ℤ f.socket_id id then some (i, f) else rest
      ]

-- sprintf("%d") at the end of "SocketFileId", for ids of at most ten digits.
abbrev pub digits : ℕ → ℕ → Name
digits zero n = []
digits (suc more) n = (if n / 10 == 0 then [] else digits more (n / 10)) ++ (b'0' + n % 10) ∷ []

abbrev pub socket_name : ℤ → Name
socket_name id =
    b'S'
    ∷ b'o'
    ∷ b'c'
    ∷ b'k'
    ∷ b'e'
    ∷ b't'
    ∷ b'F'
    ∷ b'i'
    ∷ b'l'
    ∷ b'e'
    ∷ b'I'
    ∷ b'd'
    ∷ digits 10 (pos_part id)

-- The name as strcmp reads it: the constructor makes an array of its characters without a NUL.
abbrev pub new_file : ℤ → Name → ℤ → UnixFile
new_file fd name mode = record {
  file = fd;
  current_offset = pos 0;
  file_name = some name;
  file_type = mode;
  socket_id = failed;
}

abbrev console_input : Name
console_input =
    b'C' ∷ b'o' ∷ b'n' ∷ b's' ∷ b'o' ∷ b'l' ∷ b'e' ∷ b'I' ∷ b'n' ∷ b'p' ∷ b'u' ∷ b't' ∷ []

abbrev console_output : Name
console_output =
    b'C' ∷ b'o' ∷ b'n' ∷ b's' ∷ b'o' ∷ b'l' ∷ b'e' ∷ b'O' ∷ b'u' ∷ b't' ∷ b'p' ∷ b'u' ∷ b't' ∷ []

module _ {S : Type 0} (u : Unix S) where
  unfoldable pub create : Files S → Name → Result (Bool × Files S)
  unfolding open_for_write close_fd
  create fs name = do
    (fd, fs') ← open_for_write u fs name
    if eq_ℤ fd failed
        then ok (false, fs')
        else (do (ret, fs'') ← close_fd u fs' fd; ok (true, fs''))

  unfoldable pub remove_file : Files S → Name → Bool × Files S
  unfolding unlink_fails
  remove_file fs name = let (fails, fs') = unlink_fails u fs name in (not fails, fs')

  -- Open with a mode; a mode that is none of the two leaves the descriptor 0.
  unfoldable pub open_fd : Files S → Name → ℤ → Result (ℤ × Files S)
  unfolding open_for_read open_for_read_write
  open_fd fs name mode =
      if eq_ℤ mode (pos 0)
      then open_for_read_write u fs name false
      else if eq_ℤ mode (pos 1)
      then open_for_read u fs name false
      else ok (pos 0, fs)

  unfoldable pub open_file : Files S → Name → ℤ → Result (Option UnixFile × Files S)
  unfolding open_fd
  open_file fs name mode = do
    (fd, fs') ← open_fd fs name mode
    ok (
        if eq_ℤ fd failed
        then (none, fs')
        else (some (new_file fd (name ++ u.behind fs'.host name) mode), fs'))

  unfoldable pub delete_slot : Files S → ℕ → UnixFile → Result (Files S)
  unfolding delete_file put_slot
  delete_slot fs i f = do fs' ← delete_file u fs f; ok (put_slot fs' i none)

  unfoldable pub close : Files S → ℤ → Result (ℤ × Files S)
  unfolding delete_slot
  close fs id =
      if ltb_ℤ id (pos 2) || not (ltb_ℤ id (pos max_file))
      then ok (failed, fs)
      else elim (fs.table (pos_part id)) [
        | some f ↦ delete_slot fs (pos_part id) f >>= λ fs'. ok (pos 0, fs')
        | none ↦ ok (failed, fs)
      ]

  -- Where an id of no file may be that of a socket. The id MAX_FILE is taken for a slot.
  unfoldable pub remove_socket : Files S → ℤ → Result (Bool × Files S)
  unfolding socket_from delete_slot remove_file
  remove_socket fs id = elim (socket_from fs id 2 (max_file - 2)) [
    | none ↦ ok (false, fs)
    | some (i, f) ↦
        delete_slot (on_host fs (u.close_socket fs.host (id -ℤ plus_socket_id))) i f >>= λ fs'.
        ok (true, (remove_file fs' (socket_name id)).1)
  ]

  unfoldable pub remove_file_descriptor : Files S → ℤ → Result (Bool × Files S)
  unfolding remove_socket slot delete_slot
  remove_file_descriptor fs id =
      if ltb_ℤ (pos max_file) id || ltb_ℤ id (pos 0)
      then remove_socket fs id
      else slot fs (pos_part id) >>= λ found. elim found [
        | some f ↦ delete_slot fs (pos_part id) f >>= λ fs'. ok (true, fs')
        | none ↦ ok (false, fs)
      ]

  unfoldable pub add_to_file_descriptor_table :
      Files S → ℕ → Name → ℤ → Result (Option UnixFile × Files S)
  unfolding slot open_file put_slot
  add_to_file_descriptor_table fs index name mode = slot fs index >>= λ found. elim found [
    | none ↦ open_file fs name mode >>= λ (f, fs'). ok (f, put_slot fs' index f)
    | some f ↦ ok (none, fs)
  ]

  unfoldable pub read : Files S → ℤ → ℤ → Result (ℤ × List ℕ × Files S)
  unfolding file_read put_slot
  read fs char_count id =
      if not (in_table id) then ok (failed, [], fs) else elim (fs.table (pos_part id)) [
        | none ↦ ok (failed, [], fs)
        | some f ↦ file_read u fs f char_count >>= λ (result, f', bytes, fs'). ok (
          if ltb_ℤ (pos 0) result then result else failed,
          bytes,
          put_slot fs' (pos_part id) (some f'),
        )
      ]

  -- A negative id is not refused.
  unfoldable pub write : Files S → List ℕ → ℤ → ℤ → Result (ℤ × Files S)
  unfolding file_write put_slot
  write fs buffer char_count id =
      if not (ltb_ℤ id (pos 20))
      then ok (failed, fs)
      else if ltb_ℤ id (pos 0)
      then abort
      else elim (fs.table (pos_part id)) [
        | none ↦ ok (failed, fs)
        | some f ↦
            if eq_ℤ id (pos 1)
            then ok (failed, fs)
            else (file_write u fs f buffer char_count >>= λ (result, f', fs'). ok (
              if ltb_ℤ (pos 0) result then result else failed,
              put_slot fs' (pos_part id) (some f'),
            ))
      ]

  -- Position -1 is the end of the file.
  unfoldable pub seek : Files S → ℤ → ℤ → Result (ℤ × Files S)
  unfolding file_size put_slot
  seek fs position id =
      if ltb_ℤ id (pos 2) || not (ltb_ℤ id (pos 20))
      then ok (failed, fs)
      else elim (fs.table (pos_part id)) [
        | none ↦ ok (failed, fs)
        | some f ↦ do
          (place, fs1) ← (if eq_ℤ position failed then file_size u fs f else ok (position, fs))
          (size, fs2) ← (if ltb_ℤ place failed then ok (pos 0, fs1) else file_size u fs1 f)
          ok (
              if ltb_ℤ place failed || ltb_ℤ size place
              then (failed, fs2)
              else (place, put_slot fs2 (pos_part id) (some (record f { current_offset = place }))))
      ]

  -- The constructor.
  unfoldable pub new_file_system : S → Result (Files S)
  unfolding create open_file put_slot
  new_file_system h = do
    (made, fs1) ← create (record { host = h; table = λ i. none }) console_input
    (made', fs2) ← create fs1 console_output
    (f0, fs3) ← open_file fs2 console_input (pos 0)
    (f1, fs4) ← open_file (put_slot fs3 0 f0) console_output (pos 1)
    ok (put_slot fs4 1 f1)
