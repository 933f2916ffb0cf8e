-- ===== src/Syscalls/Write.antt =====
-- SysWrite of code/userprog/ksyscall.h after SysOpen.
use nachos.Prelude.{
  ℕ, ◌≤◌, ◌<◌, ◌≡◌, refl, ap, ◌∙◌, Bool, true, false, not, List, Option, none, some, if◌then◌else◌,
  ℤ, pos, Result, ok, arith,
}
use nachos.Filesys.FileTable.{Name, failed, eq_ℤ, Unix, UnixFile, Files, max_file}
use nachos.Filesys.FileTable.Slots.{has_name, in_table, get_file_descriptor_by_id, write}
use nachos.Console.{put_string}
use nachos.Syscalls.{is_empty, sys_open, sys_write}
use nachos.Syscalls.Open.{entry}
use nachos.Syscalls.Close.{in_slot}

module _ {S : Type 0} (u : Unix S) where
  -- SysWrite after the slot has been looked up.
  abbrev to_slot : Files S → List ℕ → ℤ → ℤ → Option UnixFile → Result (ℤ × Files S)
  to_slot fs buffer size id none = ok (failed, fs)
  to_slot fs buffer size id (some f) =
      if eq_ℤ id (pos 0)
      then ok (failed, fs)
      else if eq_ℤ id (pos 1)
      then put_string u fs buffer size
      else if eq_ℤ f.file_type (pos 1)
      then ok (failed, fs)
      else write u fs buffer size id

  by_id : (fs : Files S) (k : ℕ) → k < max_file → get_file_descriptor_by_id fs (pos k) ≡ fs.table k
  unfolding get_file_descriptor_by_id
  by_id fs k h = let inside : in_table (pos k) ≡ true = ground arith in rw inside refl

  sys_write_lem :
      (fs : Files S) (buffer : List ℕ) (size : ℤ) (k : ℕ) (f : UnixFile)
      → 2 ≤ k
      → k < max_file
      → fs.table k ≡ some f
      → f.file_type ≡ pos 1
      → sys_write u fs buffer size (pos k) ≡ ok (failed, fs)
  unfolding sys_write
  sys_write_lem fs buffer size k f lo h used read_only =
      let inside : in_table (pos k) ≡ true = ground arith in
      let no_input : eq_ℤ (pos k) (pos 0) ≡ false = ground arith in
      let no_output : eq_ℤ (pos k) (pos 1) ≡ false = ground arith in
      let found : get_file_descriptor_by_id fs (pos k) ≡ some f = by_id fs k h ∙ used in
      let sealed : eq_ℤ f.file_type (pos 1) ≡ true = ap (λ (t : ℤ). eq_ℤ t (pos 1)) read_only in
      ap
        (λ (b : Bool).
          if not b then ok (failed, fs) else looked_up (get_file_descriptor_by_id fs (pos k)))
        inside
      ∙ ap looked_up found
      ∙ rw (no_input, no_output, sealed) refl
    where
      looked_up : Option UnixFile → Result (ℤ × Files S)
      looked_up o = elim o as (λ x. Result (ℤ × Files S)) [
        | none ↦ ok (failed, fs)
        | some g ↦ to_slot fs buffer size (pos k) (some g)
      ]

  -- After SysOpen has opened a file that was not open for reading only, in slot k, SysWrite to k
  -- gives -1 and changes neither the table nor the host.
  pub sys_write-sys_open :
      (fs fs' : Files S) (name : Name) (k : ℕ) (buffer : List ℕ) (size : ℤ)
      → is_empty name ≡ false
      → ((j : ℕ) → j < 20 → has_name name (fs.table j) ≡ false)
      → sys_open u fs name (pos 1) ≡ ok (pos k, fs')
      → sys_write u fs' buffer size (pos k) ≡ ok (failed, fs')
  sys_write-sys_open fs fs' name k buffer size filled absent e =
      let (lo, h, free, t) = in_slot u fs name (pos 1) k fs' filled absent e in
      let f : UnixFile = entry u fs name (pos 1) in
      let used : fs'.table k ≡ some f = ap (λ (g : ℕ → Option UnixFile). g k) t ∙ ground arith in
      sys_write_lem fs' buffer size k f lo h used refl
