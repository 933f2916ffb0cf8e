-- ===== src/Filesys/Directory/Lookup.antt =====
-- Directory of code/filesys/directory.cc as a finite map from names to sectors.
use nachos.Prelude.{
  ℕ, suc, ◌+◌, ◌≤◌, ◌<◌, ◌≡◌, refl, sym, ap, ◌∙◌, ◌⊎◌, inl, inr, Bool, true, false, not, ◌&&◌, ◌||◌,
  Option, none, some, List, [], ◌∷◌, arith, if◌then◌else◌, Bool-cases, length, get_or, ℤ, pos,
  negsuc,
}
use nachos.Filesys.Directory.{
  DirectoryEntry, Directory, blank, same_name, find_index_from, find_index, sector_at, find,
  free_entry,
}
use nachos.Filesys.Directory.Names.{same_name-common, same_name-congr}

abbrev pub matches : DirectoryEntry → List ℕ → Bool
matches e file = e.in_use && same_name e.name file

-- The map that a table stands for.
abbrev pub lookup : List DirectoryEntry → List ℕ → Option ℕ
lookup [] file = none
lookup (e ∷ es) file = if matches e file then some e.sector else lookup es file

-- The number of entries for a name.
abbrev pub entries : List DirectoryEntry → List ℕ → ℕ
entries [] file = 0
entries (e ∷ es) file = (if matches e file then 1 else 0) + entries es file

abbrev pub has_free : List DirectoryEntry → Bool
has_free [] = false
has_free (e ∷ es) = not e.in_use || has_free es

-- No name stands twice in the table.
abbrev pub IsValid : Directory → Type 0
IsValid d = (file : List ℕ) → entries d.table file ≤ 1

abbrev pub as_int : Option ℕ → ℤ
as_int none = negsuc 0
as_int (some s) = pos s

-- What FindIndex finds in a table, counting from i.
abbrev pub IndexOf : List DirectoryEntry → List ℕ → ℕ → ℤ → Type 0
IndexOf es file i r =
    ((r ≡ negsuc 0) × (lookup es file ≡ none) × (entries es file ≡ 0))
    ⊎ ((k : ℕ) × (r ≡ pos (i + k))
        × (k < length es)
        × (lookup es file ≡ some (get_or es k blank).sector)
        × (matches (get_or es k blank) file ≡ true)
        × (entries (free_entry es k) file + 1 ≡ entries es file)
        × ((other : List ℕ)
            → same_name file other ≡ false
            → lookup (free_entry es k) other ≡ lookup es other)
        × ((other : List ℕ) → entries (free_entry es k) other ≤ entries es other))

matches-other :
    (e : DirectoryEntry) (file other : List ℕ)
    → matches e file ≡ true
    → same_name file other ≡ false
    → matches e other ≡ false
matches-other e file other y ne = elim (Bool-cases (matches e other)) [
  | inr n ↦ n
  | inl z ↦
      let p : same_name e.name file ≡ true = ground arith in
      let q : same_name e.name other ≡ true = ground arith in
      let c = sym ne ∙ same_name-common e.name file other p q in cc
]

pub find_index_from_lem :
    (es : List DirectoryEntry) (file : List ℕ) (i : ℕ)
    → IndexOf es file i (find_index_from es file i)
unfolding find_index_from
find_index_from_lem [] file i = inl (refl, refl, refl)
find_index_from_lem (e ∷ es) file i = elim (Bool-cases (matches e file)) [
  | inl y ↦ inr (
    0,
    rw y (ap pos (omega arith)),
    omega arith,
    rw y refl,
    y,
    ground arith,
    (λ other ne. rw (matches-other e file other y ne) refl),
    (λ other. omega arith),
  )
  | inr n ↦ elim (find_index_from_lem es file (i + 1)) [
    | inl (r, l, c) ↦ inl (rw n r, rw n l, rw n (omega (arith, c)))
    | inr (k, r, lt, l, m, c, o, d) ↦ inr (
      suc k,
      rw n (r ∙ ap pos (omega arith)),
      omega arith,
      rw n l,
      m,
      ground (arith, c),
      (λ other ne. ap (λ r. if matches e other then some e.sector else r) (o other ne)),
      (λ other. ground (arith, d other)),
    )
  ]
]

pub entries-lookup :
    (es : List DirectoryEntry) (file : List ℕ) → entries es file ≡ 0 → lookup es file ≡ none
entries-lookup [] file h = refl
entries-lookup (e ∷ es) file h = elim (Bool-cases (matches e file)) [
  | inl y ↦ absurd (ground arith)
  | inr n ↦ rw n (entries-lookup es file (ground arith))
]

-- Find gives the sector of the map that the table stands for, and -1 for a name that is not in it.
pub find_lem : (d : Directory) (file : List ℕ) → find d file ≡ as_int (lookup d.table file)
unfolding find find_index
find_lem d file = elim (find_index_from_lem d.table file 0) [
  | inl (r, l, c) ↦ ap (sector_at d) r ∙ sym (ap as_int l)
  | inr (k, r, lt, l, m, c, o, x) ↦
      ap (sector_at d) (r ∙ ap pos {y = k} (omega arith)) ∙ sym (ap as_int l)
]

pub entries-same_name :
    (es : List DirectoryEntry) (a b : List ℕ) → same_name a b ≡ true → entries es a ≡ entries es b
entries-same_name [] a b p = refl
entries-same_name (e ∷ es) a b p =
    ground (arith, entries-same_name es a b p, same_name-congr e.name a b p)

pub lookup-same_name :
    (es : List DirectoryEntry) (a b : List ℕ) → same_name a b ≡ true → lookup es a ≡ lookup es b
lookup-same_name [] a b p = refl
lookup-same_name (e ∷ es) a b p =
    ap (λ m. if m then some e.sector else lookup es a)
      (ap (λ n. e.in_use && n) (same_name-congr e.name a b p))
    ∙ ap (λ r. if matches e b then some e.sector else r) (lookup-same_name es a b p)
