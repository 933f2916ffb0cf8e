-- ===== src/Syscalls.antt =====
-- code/userprog/ksyscall.h: the system calls on files. A name that the kernel has copied is never
-- NULL, since `new` does not return it.
pub mod Open
pub mod Close
pub mod Write
use nachos.Prelude.{
  ℕ, zero, suc, ◌+◌, Bool, true, false, not, ◌&&◌, ◌||◌, List, [], ◌∷◌, Option, none, some,
  if◌then◌else◌, ℤ, pos, negsuc, pos_part, ltb_ℤ, Result, ok, abort, ◌>>=◌, ◌>>◌, assert,
}
use nachos.Filesys.FileTable.{Name, failed, eq_ℤ, Unix, UnixFile, Files, max_file}
use nachos.Console.{get_string, put_string}
use nachos.Filesys.FileTable.Slots.{
  in_table, get_file_descriptor_empty_slot, get_file_descriptor_id, get_file_descriptor_by_name,
  get_file_descriptor_by_id, create, remove_file, remove_file_descriptor,
  add_to_file_descriptor_table, read, write, seek,
}

abbrev pub is_empty : Name → Bool
is_empty [] = true
is_empty (c ∷ cs) = false

module _ {S : Type 0} (u : Unix S) where
  unfoldable pub sys_create : Files S → Name → Result (ℤ × Files S)
  unfolding create
  sys_create fs name =
      if is_empty name
      then ok (failed, fs)
      else (create u fs name >>= λ (made, fs'). ok (if made then pos 1 else failed, fs'))

  unfoldable pub sys_remove : Files S → Name → ℤ × Files S
  unfolding get_file_descriptor_by_name remove_file
  sys_remove fs name =
      if is_empty name then (failed, fs) else elim (get_file_descriptor_by_name fs name) [
        | some f ↦ (failed, fs)
        | none ↦
            let (removed, fs') = remove_file u fs name in (if removed then pos 1 else failed, fs')
      ]

  unfoldable pub sys_open : Files S → Name → ℤ → Result (ℤ × Files S)
  unfolding get_file_descriptor_id get_file_descriptor_empty_slot add_to_file_descriptor_table
  sys_open fs name type =
      let open_file_id = get_file_descriptor_id fs name in
      let empty_slot = get_file_descriptor_empty_slot fs in
      if is_empty name
      then ok (failed, fs)
      else if not (eq_ℤ open_file_id failed)
      then ok (open_file_id, fs)
      else if eq_ℤ empty_slot failed
      then ok (failed, fs)
      else (add_to_file_descriptor_table u fs (pos_part empty_slot) name type >>= λ (f, fs').
          ok (elim f [ some opened ↦ empty_slot | none ↦ failed ], fs'))

  unfoldable pub sys_close : Files S → ℤ → Result (ℤ × Files S)
  unfolding remove_file_descriptor
  sys_close fs id = remove_file_descriptor u fs id >>= λ (removed, fs').
      ok (if removed then pos 0 else failed, fs')

  unfoldable pub sys_read : Files S → ℤ → ℤ → Result (ℤ × List ℕ × Files S)
  unfolding get_file_descriptor_by_id get_string read
  sys_read fs size id =
      if not (in_table id) then ok (failed, [], fs) else elim (get_file_descriptor_by_id fs id) [
        | none ↦ ok (failed, [], fs)
        | some f ↦
            if eq_ℤ id (pos 1)
            then ok (failed, [], fs)
            else if eq_ℤ id (pos 0)
            then ok (get_string u fs size)
            else read u fs size id
      ]

  unfoldable pub sys_seek : Files S → ℤ → ℤ → Result (ℤ × Files S)
  unfolding get_file_descriptor_by_id seek
  sys_seek fs position id =
      if eq_ℤ id (pos 0) || eq_ℤ id (pos 1)
      then ok (failed, fs)
      else if not (in_table id)
      then ok (failed, fs)
      else elim (get_file_descriptor_by_id fs id) [
        | none ↦ ok (failed, fs)
        | some f ↦ seek u fs position id
      ]

  unfoldable pub sys_write : Files S → List ℕ → ℤ → ℤ → Result (ℤ × Files S)
  unfolding get_file_descriptor_by_id put_string write
  sys_write fs buffer size id =
      if not (in_table id) then ok (failed, fs) else elim (get_file_descriptor_by_id fs id) [
        | none ↦ ok (failed, fs)
        | some f ↦
            if eq_ℤ id (pos 0)
            then ok (failed, fs)
            else if eq_ℤ id (pos 1)
            then put_string u fs buffer size
            else if eq_ℤ f.file_type (pos 1)
            then ok (failed, fs)
            else write u fs buffer size id
      ]
