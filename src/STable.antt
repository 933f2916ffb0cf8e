-- ===== src/STable.antt =====
-- code/threads/STable.cc and sem.cc: the semaphores of user programs, by name. `new Semaphore`
-- gives a number that no semaphore has.
pub mod Names
use nachos.Prelude.{
  ℕ, zero, suc, ◌+◌, Bool, true, false, Option, none, some, [], if◌then◌else◌, ltb, length, ℤ, pos,
  pos_part, ltb_ℤ, Result, ok, abort, ◌>>=◌, ◌>>◌, assert,
}
use nachos.Machine.{update}
use nachos.Bitmap.{Bitmap, new, test, find_and_set}
use nachos.Threads.System.{System, p, v, put_semaphore}
use nachos.Filesys.FileTable.{Name, same_text, failed}

pub record Sem : Type 0 where
  pub name : Name
  pub sem : ℕ

pub record STable : Type 0 where
  pub bm : Bitmap
  pub table : ℕ → Option Sem

abbrev pub max_semaphore : ℕ
max_semaphore = 10

-- The constructor.
unfoldable pub new_table : Result STable
unfolding new
new_table = do bm ← new (pos max_semaphore); ok (record { bm = bm; table = λ i. none })

-- strcmp with the name of a slot whose bit is set; an empty slot is dereferenced.
abbrev pub is_called : Name → Option Sem → Result Bool
is_called name none = abort
is_called name (some s) = ok (same_text name s.name)

-- The loops over the slots: the first one with the name.
unfoldable pub find_from : STable → Name → ℕ → ℕ → Result (Option ℕ)
find_from t name i zero = ok none
find_from t name i (suc left) = test t.bm (pos i) >>= λ set. elim set [
  | false ↦ find_from t name (i + 1) left
  | true ↦ is_called name (t.table i) >>= λ same. elim same [
    | true ↦ ok (some i)
    | false ↦ find_from t name (i + 1) left
  ]
]

-- Sem's name has room for 50 characters with the NUL, which strcpy does not look at.
unfoldable pub put_sem : STable → System → Name → ℕ → ℕ → ℤ × Bitmap → Result (ℤ × STable × System)
put_sem t s name value fresh (id, bm) =
    if ltb_ℤ id (pos 0)
    then ok (failed, t, s)
    else assert (ltb (length name) 50)
      >> ok (
        pos 0,
        record {
          bm = bm;
          table = update t.table (pos_part id) (some (record { name = name; sem = fresh }));
        },
        put_semaphore s fresh (record { value = value; queue = [] }),
      )

unfoldable pub create : STable → System → Name → ℕ → ℕ → Result (ℤ × STable × System)
unfolding find_from find_and_set put_sem
create t s name value fresh = find_from t name 0 max_semaphore >>= λ found. elim found [
  | some i ↦ ok (failed, t, s)
  | none ↦ find_and_set t.bm >>= put_sem t s name value fresh
]

-- Wait and Signal: what a call of the semaphore's P or V leads to, or -1.
abbrev pub on_slot : STable → System → (System → ℕ → Result System) → Option ℕ → Result (ℤ × System)
on_slot t s op none = ok (failed, s)
on_slot t s op (some i) = elim (t.table i) [
  | none ↦ abort
  | some sem ↦ op s sem.sem >>= λ s'. ok (pos 0, s')
]

unfoldable pub wait : STable → System → Name → Result (ℤ × System)
unfolding find_from p
wait t s name = find_from t name 0 max_semaphore >>= on_slot t s p

unfoldable pub signal : STable → System → Name → Result (ℤ × System)
unfolding find_from v
signal t s name = find_from t name 0 max_semaphore >>= on_slot t s v
