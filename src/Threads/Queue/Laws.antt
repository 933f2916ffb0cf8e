-- ===== src/Threads/Queue/Laws.antt =====
-- List<Thread *> of code/lib/list.cc: how often a thread stands in a list.
use nachos.Prelude.{
  ℕ, ◌+◌, ◌≡◌, refl, true, false, List, [], ◌∷◌, ◌++◌, arith, ◌==◌, if◌then◌else◌, ok,
}
use nachos.Threads.Queue.{is_in_list, append}

abbrev pub same : ℕ → ℕ → ℕ
same t x = if t == x then 1 else 0

abbrev pub occurs : ℕ → List ℕ → ℕ
occurs t [] = 0
occurs t (x ∷ xs) = same t x + occurs t xs

pub occurs-append : (t : ℕ) (xs : List ℕ) (x : ℕ) → occurs t (xs ++ x ∷ []) ≡ occurs t xs + same t x
occurs-append t [] x = ground arith
occurs-append t (y ∷ ys) x = ground (arith, occurs-append t ys x)

is_in_list_lem : (xs : List ℕ) (x : ℕ) → occurs x xs ≡ 0 → is_in_list xs x ≡ false
unfolding is_in_list
is_in_list_lem [] x h = refl
is_in_list_lem (y ∷ ys) x h = ground (arith, is_in_list_lem ys x (ground arith))

is_in_list_last : (xs : List ℕ) (x : ℕ) → is_in_list (xs ++ x ∷ []) x ≡ true
unfolding is_in_list
is_in_list_last [] x = ground arith
is_in_list_last (y ∷ ys) x = ground (arith, is_in_list_last ys x)

-- Both ASSERTs of Append hold for what is not in the list.
pub append_lem : (xs : List ℕ) (x : ℕ) → occurs x xs ≡ 0 → append xs x ≡ ok (xs ++ x ∷ [])
unfolding append
append_lem xs x h = rw (is_in_list_lem xs x h, is_in_list_last xs x) refl
