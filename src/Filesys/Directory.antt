-- ===== src/Filesys/Directory.antt =====
-- code/filesys/directory.h and directory.cc: the table of the names of files. A C string is the list
-- of its characters before the NUL. The transfers of the table to and from the disk are left out.
pub mod Names
pub mod Lookup
pub mod Update
use nachos.Prelude.{
  ℕ, zero, suc, ◌+◌, Bool, true, false, not, ◌&&◌, List, [], ◌∷◌, Option, none, some, ◌==◌,
  if◌then◌else◌,
}
use nachos.Prelude.{ℤ, pos, negsuc, take, get_or, set, replicate}

abbrev pub file_name_max_len : ℕ
file_name_max_len = 9

-- What strncpy leaves in `name` are the first FileNameMaxLen characters.
pub record DirectoryEntry : Type 0 where
  pub in_use : Bool
  pub sector : ℕ
  pub name : List ℕ

pub record Directory : Type 0 where
  pub table : List DirectoryEntry

abbrev pub blank : DirectoryEntry
blank = record { in_use = false; sector = 0; name = [] }

abbrev pub new : ℕ → Directory
new size = record { table = replicate size blank }

-- `!strncmp(a, b, n)`
unfoldable pub strncmp_same : ℕ → List ℕ → List ℕ → Bool
strncmp_same zero a b = true
strncmp_same (suc n) [] [] = true
strncmp_same (suc n) [] (y ∷ ys) = false
strncmp_same (suc n) (x ∷ xs) [] = false
strncmp_same (suc n) (x ∷ xs) (y ∷ ys) = (x == y) && strncmp_same n xs ys

abbrev pub same_name : List ℕ → List ℕ → Bool
same_name = strncmp_same file_name_max_len

-- The loop of FindIndex from entry i on.
unfoldable pub find_index_from : List DirectoryEntry → List ℕ → ℕ → ℤ
find_index_from [] file i = negsuc 0
find_index_from (e ∷ es) file i =
    if e.in_use && same_name e.name file then pos i else find_index_from es file (i + 1)

unfoldable pub find_index : Directory → List ℕ → ℤ
find_index d file = find_index_from d.table file 0

abbrev pub sector_at : Directory → ℤ → ℤ
sector_at d (negsuc n) = negsuc 0
sector_at d (pos i) = pos (get_or d.table i blank).sector

unfoldable pub find : Directory → List ℕ → ℤ
find d file = sector_at d (find_index d file)

-- The loop of Add: the first entry that is not in use takes the file.
unfoldable pub put_in_free : List DirectoryEntry → List ℕ → ℕ → Option (List DirectoryEntry)
put_in_free [] file new_sector = none
put_in_free (e ∷ es) file new_sector =
    let rest = put_in_free es file new_sector in
    if not e.in_use
    then some
        (record { in_use = true; name = take file_name_max_len file; sector = new_sector } ∷ es)
    else elim rest [ none ↦ none | some es' ↦ some (e ∷ es') ]

abbrev add_at : Directory → ℤ → Option (List DirectoryEntry) → Bool × Directory
add_at d (pos i) placed = (false, d)
add_at d (negsuc n) none = (false, d)
add_at d (negsuc n) (some table) = (true, record { table = table })

unfoldable pub add : Directory → List ℕ → ℕ → Bool × Directory
add d file new_sector = add_at d (find_index d file) (put_in_free d.table file new_sector)

-- `table[i].inUse = FALSE`
abbrev pub free_entry : List DirectoryEntry → ℕ → List DirectoryEntry
free_entry es i = set es i (record (get_or es i blank) { in_use = false })

abbrev remove_at : Directory → ℤ → Bool × Directory
remove_at d (negsuc n) = (false, d)
remove_at d (pos i) = (true, record { table = free_entry d.table i })

unfoldable pub remove : Directory → List ℕ → Bool × Directory
remove d file = remove_at d (find_index d file)
