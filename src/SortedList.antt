-- ===== src/SortedList.antt =====
-- SortedList<T>::Insert of code/lib/list.cc, with the list's other operations that its clients call.
-- The cells from `first` to `last` are the list of their items, and numInList is its length. `same`
-- is the equality of pointers and `compare` the function that the constructor is given.
pub mod Laws
use nachos.Prelude.{
  ℕ, Bool, true, false, not, ◌||◌, List, [], ◌∷◌, ℤ, pos, ltb_ℤ, if◌then◌else◌, Result, ok, abort,
  ◌>>◌, ◌>>=◌, assert,
}

module _ {ℓ} {A : Type ℓ} (same : A → A → Bool) where
  unfoldable pub is_in_list : List A → A → Bool
  is_in_list [] item = false
  is_in_list (x ∷ xs) item = same x item || is_in_list xs item

module _ {ℓ} {A : Type ℓ} (compare : A → A → ℤ) where
  -- Whether the item goes before another one.
  abbrev pub precedes : A → A → Bool
  precedes item x = ltb_ℤ (compare item x) (pos 0)

  -- The loop with `ptr` at x, and the end of the list after it. The flag is set by the return from
  -- within the loop.
  unfoldable pub insert_after : A → A → List A → List A × Bool
  insert_after item x [] = (x ∷ item ∷ [], false)
  insert_after item x (y ∷ rest) =
      let (tail, returned) = insert_after item y rest in
      if precedes item y then (x ∷ item ∷ y ∷ rest, true) else (x ∷ tail, returned)

  -- The three ways in.
  unfoldable pub place : A → List A → List A × Bool
  place item [] = (item ∷ [], false)
  place item (x ∷ rest) =
      if precedes item x then (item ∷ x ∷ rest, false) else insert_after item x rest

module _ {ℓ} {A : Type ℓ} (same : A → A → Bool) (compare : A → A → ℤ) where
  unfoldable pub insert : List A → A → Result (List A)
  insert xs item = do
    assert (not (is_in_list same xs item))
    let (placed, returned) = place compare item xs
    if returned then ok placed else assert (is_in_list same placed item) >> ok placed
