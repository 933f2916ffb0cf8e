-- ===== src/Threads/Queue.antt =====
-- List<Thread *> of code/lib/list.cc: the cells from `first` to `last` are the list of their items,
-- and numInList is its length.
pub mod Laws
use nachos.Prelude.{ℕ, Bool, true, false, not, ◌||◌, List, [], ◌∷◌, ◌++◌, ◌==◌}
use nachos.Prelude.{Result, ok, abort, ◌>>◌, assert}

unfoldable pub is_in_list : List ℕ → ℕ → Bool
is_in_list [] item = false
is_in_list (x ∷ xs) item = (item == x) || is_in_list xs item

unfoldable pub append : List ℕ → ℕ → Result (List ℕ)
unfolding is_in_list
append xs item =
    assert (not (is_in_list xs item))
    >> (let appended = xs ++ item ∷ [] in assert (is_in_list appended item) >> ok appended)

unfoldable pub remove_front : List ℕ → Result (ℕ × List ℕ)
remove_front [] = abort
remove_front (x ∷ xs) = ok (x, xs)
