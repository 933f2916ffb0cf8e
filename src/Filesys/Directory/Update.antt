-- ===== src/Filesys/Directory/Update.antt =====
-- Directory::Add and Directory::Remove of code/filesys/directory.cc on the map of the names.
use nachos.Prelude.{
  ℕ, Option, ◌+◌, ◌≡◌, refl, sym, ap, ◌∙◌, ◌≢◌, ◌⊎◌, inl, inr, true, false, none, some, List, [],
  ◌∷◌, arith, if◌then◌else◌, Bool-cases, take, pos, negsuc,
}
use nachos.Filesys.Directory.{
  DirectoryEntry, Directory, same_name, file_name_max_len, find_index, find, put_in_free, add_at,
  add, free_entry, remove_at, remove,
}
use nachos.Filesys.Directory.Names.{same_name-stored, same_name-take}
use nachos.Filesys.Directory.Lookup.{
  matches, lookup, entries, has_free, IsValid, as_int, find_index_from_lem, find_lem,
  entries-lookup, entries-same_name, lookup-same_name,
}

-- The table es' is es with the file at the first free entry.
record Placed (es : List DirectoryEntry) (file : List ℕ) (s : ℕ) (es' : List DirectoryEntry)
    : Type 0 where
  there : entries es file ≡ 0 → lookup es' file ≡ some s
  others : (other : List ℕ) → same_name file other ≡ false → lookup es' other ≡ lookup es other
  one_more :
      (other : List ℕ)
      → entries es' other ≡ entries es other + (if same_name file other then 1 else 0)

abbrev entry_for : List ℕ → ℕ → DirectoryEntry
entry_for file s = record { in_use = true; name = take file_name_max_len file; sector = s }

put_in_free_lem :
    (es : List DirectoryEntry) (file : List ℕ) (s : ℕ)
    → ((has_free es ≡ false) × (put_in_free es file s ≡ none))
      ⊎ ((es' : List DirectoryEntry) × (has_free es ≡ true)
          × (put_in_free es file s ≡ some es')
          × Placed es file s es')
unfolding put_in_free
put_in_free_lem [] file s = inl (refl, refl)
put_in_free_lem (e ∷ es) file s = elim (Bool-cases e.in_use) [
  | inr free ↦ inr (
    entry_for file s ∷ es,
    rw free refl,
    rw free refl,
    record {
      there = λ h. rw (same_name-stored file) refl;
      others = λ other ne. rw (same_name-take file other, ne, free) refl;
      one_more = λ other. rw (same_name-take file other, free) (omega arith);
    },
  )
  | inl used ↦ elim (put_in_free_lem es file s) [
    | inl (n, p) ↦ inl (rw used n, rw (used, p) refl)
    | inr (es', f, p, x) ↦ inr (
      e ∷ es',
      rw used f,
      simp (used, p) refl,
      record {
        there = λ h. ground (arith, x.there);
        others =
            λ other ne. ap (λ r. if matches e other then some e.sector else r) (x.others other ne);
        one_more = λ other. omega (arith, x.one_more other);
      },
    )
  ]
]

-- A map that is d's but at one name.
change_lem :
    (d d' : Directory) (file : List ℕ) (o : Option ℕ)
    → lookup d'.table file ≡ o
    → ((other : List ℕ)
        → same_name file other ≡ false
        → lookup d'.table other ≡ lookup d.table other)
    → (other : List ℕ) → find d' other ≡ (if same_name file other then as_int o else find d other)
change_lem d d' file o at_file elsewhere other = elim (Bool-cases (same_name file other)) [
  | inl y ↦
      rw y (find_lem d' other ∙ ap as_int (sym (lookup-same_name d'.table file other y) ∙ at_file))
  | inr n ↦ rw n (find_lem d' other ∙ ap as_int (elsewhere other n) ∙ sym (find_lem d other))
]

module _ (d : Directory) (file : List ℕ) (s : ℕ) where
  -- In a directory with no name twice and a free entry, Add of an absent name succeeds; Find then
  -- gives the new sector for names equal to it in nine characters and is unchanged for others, and
  -- no name stands twice.
  pub add_lem :
      IsValid d
      → lookup d.table file ≡ none
      → has_free d.table ≡ true
      → (d' : Directory) × (add d file s ≡ (true, d'))
        × ((other : List ℕ)
            → find d' other ≡ (if same_name file other then pos s else find d other))
        × IsValid d'
  unfolding add find_index
  add_lem v absent free = elim (find_index_from_lem d.table file 0) [
    | inr (k, r, lt, l, m, c, o, x) ↦ let e = sym absent ∙ l in cc
    | inl (r, l, c) ↦ elim (put_in_free_lem d.table file s) [
      | inl (n, p) ↦ let e = sym n ∙ free in cc
      | inr (es', f, p, x) ↦ (
        record { table = es' },
        ap (λ i. add_at d i (put_in_free d.table file s)) r ∙ ap (add_at d (negsuc 0)) p,
        change_lem d (record { table = es' }) file (some s) (x.there c) x.others,
        (λ other.
            ground (arith, x.one_more other, v other, entries-same_name d.table file other, c)),
      )
    ]
  ]

  -- Add refuses a name that is in the directory, and any name when each entry is in use, and
  -- changes nothing.
  pub add-refused :
      (lookup d.table file ≢ none) ⊎ (has_free d.table ≡ false) → add d file s ≡ (false, d)
  unfolding add find_index
  add-refused why = elim (find_index_from_lem d.table file 0) [
    | inr (k, r, lt, l, m, c, o, x) ↦ ap (λ i. add_at d i (put_in_free d.table file s)) r
    | inl (r, l, c) ↦ elim (put_in_free_lem d.table file s) [
      | inl (n, p) ↦
          ap (λ i. add_at d i (put_in_free d.table file s)) r ∙ ap (add_at d (negsuc 0)) p
      | inr (es', f, p, x) ↦ elim why [
        | inl present ↦ absurd (present l)
        | inr full ↦ let e = sym full ∙ f in cc
      ]
    ]
  ]

-- In a directory with no name twice, Remove of a name that is present succeeds; Find then gives -1
-- for it and is unchanged for other names, and no name stands twice.
pub remove_lem :
    (d : Directory) (file : List ℕ)
    → IsValid d
    → lookup d.table file ≢ none
    → (d' : Directory) × (remove d file ≡ (true, d'))
      × ((other : List ℕ)
          → find d' other ≡ (if same_name file other then negsuc 0 else find d other))
      × IsValid d'
unfolding remove find_index
remove_lem d file v present = elim (find_index_from_lem d.table file 0) [
  | inl (r, l, c) ↦ absurd (present l)
  | inr (k, r, lt, l, m, c, o, x) ↦ (
    record { table = free_entry d.table k },
    ap (remove_at d) (r ∙ ap pos {y = k} (omega arith)),
    change_lem d (record { table = free_entry d.table k }) file none
        (entries-lookup (free_entry d.table k) file (omega (arith, c, v file))) o,
    (λ other. omega (arith, x other, v other)),
  )
]
