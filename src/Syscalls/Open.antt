-- ===== src/Syscalls/Open.antt =====
-- SysOpen and SysClose of code/userprog/ksyscall.h on the table of open files.
use nachos.Prelude.{
  ℕ, ◌≤◌, ◌<◌, ◌≡◌, refl, ◌++◌, ap, ◌∙◌, sym, subst, ◌⊎◌, inl, inr, Bool, true, false, not, Option,
  none, some, if◌then◌else◌, ℤ, pos, pos_part, Result, ok, ◌>>=◌, ◌>>◌, assert, arith, Bool-cases,
  ltb_iff,
}
use nachos.Machine.{update}
use nachos.Filesys.FileTable.{
  Name, failed, eq_ℤ, Unix, UnixFile, Files, max_file, on_host, slot, put_slot, open_for_read,
  open_for_read_write,
}
use nachos.Filesys.FileTable.Slots.{
  has_name, is_free, as_id, empty_from, named_from, get_file_descriptor_empty_slot,
  get_file_descriptor_id, new_file, open_fd, open_file, add_to_file_descriptor_table,
}
use nachos.Filesys.FileTable.Search.{First, is_free-none, named_from-First, empty_from-First}
use nachos.Syscalls.{is_empty, sys_open}

module _ {S : Type 0} (u : Unix S) where
  -- The call of the host that a mode leads to.
  abbrev pub asked : Files S → Name → ℤ → ℤ × S
  asked fs name mode =
      if eq_ℤ mode (pos 0)
      then u.open_read_write fs.host name
      else if eq_ℤ mode (pos 1)
      then u.open_read_only fs.host name
      else (pos 0, fs.host)

  -- The host opens the file or not, and the table stays.
  open_fd_lem :
      (fs : Files S) (name : Name) (mode : ℤ)
      → (fs' : Files S) × (open_fd u fs name mode ≡ ok ((asked fs name mode).0, fs'))
        × (fs'.host ≡ (asked fs name mode).1)
        × (fs'.table ≡ fs.table)
  unfolding open_fd open_for_read open_for_read_write
  open_fd_lem fs name mode = elim (Bool-cases (eq_ℤ mode (pos 0))) [
    | inl read_write ↦
        let answer = u.open_read_write fs.host name in
        (on_host fs answer.1, rw read_write refl, rw read_write refl, refl)
    | inr other ↦ elim (Bool-cases (eq_ℤ mode (pos 1))) [
      | inl read_only ↦
          let answer = u.open_read_only fs.host name in
          (on_host fs answer.1, rw (other, read_only) refl, rw (other, read_only) refl, refl)
      | inr neither ↦ (fs, rw (other, neither) refl, rw (other, neither) refl, refl)
    ]
  ]

  -- The new entry of the table.
  abbrev pub entry : Files S → Name → ℤ → UnixFile
  entry fs name mode =
      let (fd, h) = asked fs name mode in new_file fd (name ++ u.behind h name) mode

  abbrev pub opened : Files S → Name → ℤ → Option UnixFile
  opened fs name mode =
      if eq_ℤ (asked fs name mode).0 failed then none else some (entry fs name mode)

  pub slot_lem : (fs : Files S) (k : ℕ) → k < max_file → slot fs k ≡ ok (fs.table k)
  unfolding slot
  slot_lem fs k h = ap (λ (b : Bool). assert b >> ok (fs.table k)) ((ltb_iff k max_file).1 h)

  open_file_lem :
      (fs : Files S) (name : Name) (mode : ℤ)
      → (fs' : Files S) × (open_file u fs name mode ≡ ok (opened fs name mode, fs'))
        × (fs'.host ≡ (asked fs name mode).1)
        × (fs'.table ≡ fs.table)
  unfolding open_file
  open_file_lem fs name mode =
      let (fs', e, host, same) = open_fd_lem fs name mode in
      let fd : ℤ = (asked fs name mode).0 in
      let stored : S → UnixFile = λ h. new_file fd (name ++ u.behind h name) mode in
      let made : Option UnixFile × Files S =
        if eq_ℤ fd failed then (none, fs') else (some (stored fs'.host), fs') in
      let named : made ≡ (opened fs name mode, fs') = elim (Bool-cases (eq_ℤ fd failed)) [
        | inl bad ↦ rw bad refl
        | inr good ↦ rw good (ap (λ (h : S). (some (stored h), fs')) host)
      ] in
      (fs', rw e (ap ok named), host, same)

  add_lem :
      (fs : Files S) (k : ℕ) (name : Name) (mode : ℤ)
      → k < max_file
      → fs.table k ≡ none
      → (fs' : Files S) × (add_to_file_descriptor_table u fs k name mode
          ≡ ok (opened fs name mode, fs'))
        × (fs'.host ≡ (asked fs name mode).1)
        × (fs'.table ≡ update fs.table k (opened fs name mode))
  unfolding add_to_file_descriptor_table put_slot
  add_lem fs k name mode h free =
      let (fs1, e, host, same) = open_file_lem fs name mode in
      (
        record fs1 { table = update fs1.table k (opened fs name mode) },
        rw (slot_lem fs k h, free) (rw e refl),
        host,
        ap (λ t. update t k (opened fs name mode)) same,
      )

  -- How SysOpen ends: the file is open already; the table is full; the host does not open it; or
  -- it is in the first free slot, from 2 on.
  abbrev pub Opens : Files S → Name → ℤ → Result (ℤ × Files S) → Type 0
  Opens fs name mode r =
      ((k : ℕ) × (k < 20)
        × (has_name name (fs.table k) ≡ true)
        × ((j : ℕ) → j < k → has_name name (fs.table j) ≡ false)
        × (r ≡ ok (pos k, fs)))
      ⊎ (((j : ℕ) → j < 20 → has_name name (fs.table j) ≡ false)
          × ((((j : ℕ) → 2 ≤ j → j < 20 → is_free (fs.table j) ≡ false) × (r ≡ ok (failed, fs)))
              ⊎ ((k : ℕ) × (fs' : Files S) × (2 ≤ k)
                  × (k < 20)
                  × (fs.table k ≡ none)
                  × ((j : ℕ) → 2 ≤ j → j < k → is_free (fs.table j) ≡ false)
                  × (r ≡ ok (if eq_ℤ (asked fs name mode).0 failed then failed else pos k, fs'))
                  × (fs'.host ≡ (asked fs name mode).1)
                  × (fs'.table ≡ update fs.table k (opened fs name mode)))))

  -- SysOpen after the two searches, for a name that is not empty.
  abbrev after_search : Files S → Name → ℤ → Option ℕ → Option ℕ → Result (ℤ × Files S)
  after_search fs name mode named empty =
      if not (eq_ℤ (as_id named) failed)
      then ok (as_id named, fs)
      else if eq_ℤ (as_id empty) failed
      then ok (failed, fs)
      else (add_to_file_descriptor_table u fs (pos_part (as_id empty)) name mode >>= λ (f, fs').
          ok (elim f as (λ x. ℤ) [ some file ↦ as_id empty | none ↦ failed ], fs'))

  answer :
      (fs : Files S) (name : Name) (mode : ℤ) (k : ℤ)
      → elim (opened fs name mode) as (λ x. ℤ) [ some file ↦ k | none ↦ failed ]
        ≡ (if eq_ℤ (asked fs name mode).0 failed then failed else k)
  answer fs name mode k = elim (Bool-cases (eq_ℤ (asked fs name mode).0 failed)) [
    | inl bad ↦ rw bad refl
    | inr good ↦ rw good refl
  ]

  after_search_lem :
      (fs : Files S) (name : Name) (mode : ℤ) (named empty : Option ℕ)
      → First (λ j. has_name name (fs.table j)) 0 20 named
      → First (λ j. is_free (fs.table j)) 2 20 empty
      → Opens fs name mode (after_search fs name mode named empty)
  after_search_lem fs name mode (some k) empty (a, b, c, d) g =
      inl (k, b, c, λ j h. d j (omega arith) h, refl)
  after_search_lem fs name mode none none f g = inr (λ j h. f j (omega arith) h, inl (g, refl))
  after_search_lem fs name mode none (some k) f (a, b, c, d) =
      let (fs', e, host, t) = add_lem fs k name mode b (is_free-none (fs.table k) c) in
      inr (
        λ j h. f j (omega arith) h,
        inr (
          k,
          fs',
          a,
          b,
          is_free-none (fs.table k) c,
          d,
          ap
                (λ (r : Result (Option UnixFile × Files S)).
                  r >>= λ p. ok (elim p.0 as (λ x. ℤ) [ some file ↦ pos k | none ↦ failed ], p.1))
                e
              ∙ ap (λ (id : ℤ). ok (id, fs')) (answer fs name mode (pos k)),
          host,
          t,
        ),
      )

  -- SysOpen of a name that is not empty gives the first slot whose stored name is that name and
  -- changes nothing; or, when no slot has it, -1 when no slot from 2 on is free, or else it asks
  -- the host by the call that belongs to the mode, gives -1 with the table as it was when the host
  -- refuses, and otherwise the first free slot from 2 on, which alone has changed and holds the
  -- host's descriptor, the mode and the name with what stands behind it in memory.
  pub sys_open_lem :
      (fs : Files S) (name : Name) (mode : ℤ)
      → is_empty name ≡ false
      → Opens fs name mode (sys_open u fs name mode)
  unfolding sys_open get_file_descriptor_id get_file_descriptor_empty_slot
  sys_open_lem fs name mode filled =
      subst (Opens fs name mode)
        (sym (
          ap
            (λ (b : Bool).
              if b
              then ok (failed, fs)
              else after_search fs name mode (named_from fs name 0 20) (empty_from fs 2 18))
            filled))
        (after_search_lem fs name mode (named_from fs name 0 20) (empty_from fs 2 18)
          (named_from-First fs name 0 20) (empty_from-First fs 2 18))
