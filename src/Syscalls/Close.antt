-- ===== src/Syscalls/Close.antt =====
-- SysClose of code/userprog/ksyscall.h on the table of open files.
use nachos.Prelude.{
  ℕ, ◌≤◌, ◌<◌, ◌≡◌, refl, ap, ◌∙◌, sym, subst, inl, inr, Bool, true, false, ◌||◌, Option, none,
  some, if◌then◌else◌, ℤ, pos, pos_part, ltb_ℤ, Result, ok, abort, ◌>>=◌, arith, Bool-cases,
}
use native.Mathlib.Decide.{ℕ_discrete}
use nachos.Machine.{update}
use nachos.Filesys.FileTable.{
  Name, failed, eq_ℤ, Unix, UnixFile, Files, max_file, slot, put_slot, delete_file, close_fd,
}
use nachos.Filesys.FileTable.Slots.{has_name, delete_slot, remove_socket, remove_file_descriptor}
use nachos.Syscalls.{is_empty, sys_open, sys_close}
use nachos.Syscalls.Open.{asked, entry, opened, slot_lem, sys_open_lem}

restored :
    (g : ℕ → Option UnixFile) (k j : ℕ) (f : Option UnixFile)
    → g k ≡ none
    → update (update g k f) k none j ≡ g j
restored g k j f free = elim (ℕ_discrete j k) [
  | yes same ↦
      let emptied : update (update g k f) k none j ≡ none = ground arith in
      emptied ∙ sym free ∙ ap g (sym same)
  | no other ↦ ground arith
]

module _ {S : Type 0} (u : Unix S) where
  -- The host closes the descriptor of this file.
  abbrev pub Closes : Files S → UnixFile → Type 0
  Closes fs f = ltb_ℤ (u.close fs.host f.file).0 (pos 0) ≡ false

  delete_slot_lem :
      (fs : Files S) (k : ℕ) (f : UnixFile)
      → Closes fs f
      → (fs' : Files S) × (delete_slot u fs k f ≡ ok fs') × (fs'.table ≡ update fs.table k none)
  unfolding delete_slot delete_file close_fd put_slot
  delete_slot_lem fs k f closes = (
    record { host = (u.close fs.host f.file).1; table = update fs.table k none },
    rw closes refl,
    refl,
  )

  abbrev deletes : Files S → ℕ → Option UnixFile → Result (Bool × Files S)
  deletes fs k (some f) = delete_slot u fs k f >>= λ fs'. ok (true, fs')
  deletes fs k none = ok (false, fs)

  abbrev tells : Bool × Files S → Result (ℤ × Files S)
  tells (removed, fs) = ok (if removed then pos 0 else failed, fs)

  -- SysClose of a slot that is in use frees it, and no other.
  sys_close_lem :
      (fs : Files S) (k : ℕ) (f : UnixFile)
      → k < max_file
      → Closes fs f
      → fs.table k ≡ some f
      → (fs' : Files S) × (sys_close u fs (pos k) ≡ ok (pos 0, fs'))
        × (fs'.table ≡ update fs.table k none)
  unfolding sys_close remove_file_descriptor
  sys_close_lem fs k f h closes used =
      let (fs', e, t) = delete_slot_lem fs k f closes in
      let inside : (ltb_ℤ (pos max_file) (pos k) || ltb_ℤ (pos k) (pos 0)) ≡ false = ground arith in
      (
        fs',
        ap
              (λ (b : Bool).
                (if b then remove_socket u fs (pos k) else (slot fs k >>= deletes fs k)) >>= tells)
              inside
            ∙ ap (λ (r : Result (Option UnixFile)). (r >>= deletes fs k) >>= tells)
                (slot_lem u fs k h ∙ ap ok used)
            ∙ ap (λ (r : Result (Files S)). (r >>= λ fs1. ok (true, fs1)) >>= tells) e,
        t,
      )

  id_of : Result (ℤ × Files S) → ℕ
  id_of abort = 0
  id_of (ok (id, fs)) = pos_part id

  files_of : Files S → Result (ℤ × Files S) → Files S
  files_of other abort = other
  files_of other (ok (id, fs)) = fs

  pub in_slot :
      (fs : Files S) (name : Name) (mode : ℤ) (k : ℕ) (fs' : Files S)
      → is_empty name ≡ false
      → ((j : ℕ) → j < 20 → has_name name (fs.table j) ≡ false)
      → sys_open u fs name mode ≡ ok (pos k, fs')
      → (2 ≤ k)
        × (k < 20)
        × (fs.table k ≡ none)
        × (fs'.table ≡ update fs.table k (some (entry u fs name mode)))
  unfolding id_of files_of
  in_slot fs name mode k fs' filled absent e = elim (sys_open_lem u fs name mode filled) [
    | inl (j, h, own, first, r) ↦ absurd (let a = absent j h in cc)
    | inr (none_open, inl (full, r)) ↦ absurd (let p = sym r ∙ e in cc)
    | inr (none_open, inr (j, fs1, lo, h, free, first, r, host, t)) ↦
        elim (Bool-cases (eq_ℤ (asked u fs name mode).0 failed)) [
          | inl bad ↦ absurd (let p = rw bad at (sym r ∙ e) in cc)
          | inr good ↦
              let p : ok (pos j, fs1) ≡ ok (pos k, fs') =
                ap (λ (b : Bool). ok (if b then failed else pos j, fs1)) (sym good) ∙ sym r ∙ e in
              let same : j ≡ k = ap id_of p in
              (
                subst (λ i. 2 ≤ i) same lo,
                subst (λ i. i < 20) same h,
                subst (λ i. fs.table i ≡ none) same free,
                ap (λ (x : Files S). x.table) (sym (ap (files_of fs1) p))
                    ∙ t
                    ∙ ap (λ (i : ℕ). update fs.table i (opened u fs name mode)) same
                    ∙ ap
                        (λ (b : Bool).
                          update fs.table k (if b then none else some (entry u fs name mode)))
                        good,
              )
        ]
  ]

  -- When SysOpen has opened a file whose name was in no slot, in slot k, and the host then closes
  -- the descriptor that it gave, SysClose of k gives 0 and each slot of the table is what it was
  -- before.
  pub sys_close-sys_open :
      (fs fs' : Files S) (name : Name) (mode : ℤ) (k : ℕ)
      → Closes fs' (entry u fs name mode)
      → is_empty name ≡ false
      → ((j : ℕ) → j < 20 → has_name name (fs.table j) ≡ false)
      → sys_open u fs name mode ≡ ok (pos k, fs')
      → (fs'' : Files S) × (sys_close u fs' (pos k) ≡ ok (pos 0, fs''))
        × ((j : ℕ) → fs''.table j ≡ fs.table j)
  sys_close-sys_open fs fs' name mode k closes filled absent e =
      let (lo, h, free, t) = in_slot fs name mode k fs' filled absent e in
      let f : UnixFile = entry u fs name mode in
      let used : fs'.table k ≡ some f = ap (λ (g : ℕ → Option UnixFile). g k) t ∙ ground arith in
      let (fs'', e', t') = sys_close_lem fs' k f h closes used in
      (
        fs'',
        e',
        λ j.
            ap (λ (g : ℕ → Option UnixFile). g j) t'
            ∙ ap (λ (g : ℕ → Option UnixFile). update g k none j) t
            ∙ restored fs.table k j (some f) free,
      )
