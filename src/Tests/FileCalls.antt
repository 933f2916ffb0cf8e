-- ===== src/Tests/FileCalls.antt =====
-- A host that opens every file as descriptor 7, and a table with the keyboard in its first slot,
-- code/userprog/ksyscall.h and code/filesys/filesys.h.
use nachos.Prelude.{
  ℕ, zero, suc, ◌+◌, ◌<◌, ◌≡◌, refl, false, [], ◌∷◌, none, some, arith, Result, ok, ℤ, pos, abort,
  if◌then◌else◌, ◌==◌,
}
use nachos.Filesys.FileTable.{
  Name, Unix, Files, failed, open_for_write, open_for_read, open_for_read_write, close_fd, put_slot,
  slot,
}
use nachos.Filesys.FileTable.Slots.{
  has_name, new_file, new_file_system, get_file_descriptor_id, get_file_descriptor_empty_slot,
  named_from, empty_from, create, open_file, open_fd, add_to_file_descriptor_table,
}
use nachos.Filesys.FileTable.Sockets.{send_socket_message, send_socket_message-abort, Passed}
use nachos.Syscalls.{sys_open, sys_close, sys_write}
use nachos.Syscalls.Open.{Opens, sys_open_lem}
use nachos.Syscalls.Close.{sys_close-sys_open}
use nachos.Syscalls.Write.{sys_write-sys_open}

-- The host counts its calls.
abbrev pub host : Unix ℕ
host = record {
  creat = λ s name. (pos 7, s + 1);
  behind = λ s name. [];
  open_read_only = λ s name. (pos 7, s + 1);
  open_read_write = λ s name. (pos 7, s + 1);
  close = λ s fd. (pos 0, s + 1);
  unlink = λ s name. (pos 0, s + 1);
  lseek = λ s fd offset whence. (offset, s + 1);
  read = λ s fd count. (count, [], s + 1);
  write = λ s fd buffer count. (count, s + 1);
  open_socket = λ s. (pos 9, s + 1);
  connect_socket = λ s socket ip port. (pos 0, s + 1);
  send = λ s socket message. (pos 4, s + 1);
  receive = λ s socket. (pos 0, [], s + 1);
  close_socket = λ s fd. s + 1;
  get_char = λ s. (b'x', s + 1);
  put_char = λ s ch. s + 1;
}

abbrev notes : Name
notes = b'n' ∷ b'o' ∷ b't' ∷ b'e' ∷ []

abbrev keyboard : Name
keyboard = b'k' ∷ b'e' ∷ b'y' ∷ []

abbrev pub files : Files ℕ
files = record {
  host = 0;
  table = λ j. if j == 0 then some (new_file (pos 7) keyboard (pos 0)) else none;
}

abbrev opened_files : Files ℕ
opened_files = record {
  host = 1;
  table = λ j. if j == 2 then some (new_file (pos 7) notes (pos 1)) else files.table j;
}

-- The table after start-up has the two consoles in it.
first_free : Result (Files ℕ) → ℤ
first_free abort = failed
first_free (ok fs) = get_file_descriptor_empty_slot fs

starts_with_consoles : first_free (new_file_system host 0) ≡ pos 2
unfolding first_free new_file_system create open_file open_fd open_for_write open_for_read
    open_for_read_write close_fd put_slot get_file_descriptor_empty_slot empty_from
starts_with_consoles = refl

absent : (j : ℕ) → j < 20 → has_name notes (files.table j) ≡ false
absent j h = ground arith

opens_notes : sys_open host files notes (pos 1) ≡ ok (pos 2, opened_files)
unfolding sys_open get_file_descriptor_id get_file_descriptor_empty_slot named_from empty_from
    add_to_file_descriptor_table slot open_file open_fd open_for_read put_slot
opens_notes = refl

passes_keyboard : (j : ℕ) → j < 1 → Passed host files (pos 109) j
passes_keyboard zero h = (new_file (pos 7) keyboard (pos 0), refl, refl)
passes_keyboard (suc j) h = absurd (omega arith)

sys_open_lem_example : Opens host files notes (pos 1) (sys_open host files notes (pos 1))
sys_open_lem_example = sys_open_lem host files notes (pos 1) refl

sys_close-sys_open_example :
    (fs'' : Files ℕ) × (sys_close host opened_files (pos 2) ≡ ok (pos 0, fs''))
    × ((j : ℕ) → fs''.table j ≡ files.table j)
sys_close-sys_open_example =
    sys_close-sys_open host files opened_files notes (pos 1) 2 refl refl absent opens_notes

sys_write-sys_open_example :
    sys_write host opened_files (1 ∷ 2 ∷ []) (pos 2) (pos 2) ≡ ok (failed, opened_files)
sys_write-sys_open_example =
    sys_write-sys_open host files opened_files notes 2 (1 ∷ 2 ∷ []) (pos 2) refl absent opens_notes

send_socket_message-abort_example :
    send_socket_message host files (pos 109) (1 ∷ []) (pos 4) ≡ abort
send_socket_message-abort_example =
    send_socket_message-abort host files (pos 109) (1 ∷ []) (pos 4) 1 (omega arith) refl
      passes_keyboard
