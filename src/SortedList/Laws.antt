-- ===== src/SortedList/Laws.antt =====
-- SortedList<T>::Insert of code/lib/list.cc, where the comparison goes by a key.
use nachos.Prelude.{
  ℕ, ◌≤◌, ◌<◌, ◌≡◌, refl, ap, sym, subst, Bool, true, false, List, [], ◌∷◌, ◌++◌, arith, Bool-cases,
  ℤ, ok, inl, inr,
}
use nachos.SortedList.{is_in_list, precedes, insert_after, place, insert}

module _ {ℓ} {A : Type ℓ} where
  abbrev pub All {κ} : (A → Type κ) → List A → Type κ
  All P [] = Unit
  All P (x ∷ xs) = P x × All P xs

  -- In increasing order of the keys.
  abbrev pub IsSorted : (A → ℕ) → List A → Type 0
  IsSorted key [] = Unit
  IsSorted key (x ∷ xs) = All (λ y. key x ≤ key y) xs × IsSorted key xs

  -- The item stands between those with a key up to its own and those with a greater one.
  abbrev pub Placed : (A → ℕ) → A → List A → List A → Type ℓ
  Placed key item xs placed =
      (before : List A) × (after : List A) × (xs ≡ before ++ after)
      × (placed ≡ before ++ item ∷ after)
      × All (λ y. key y ≤ key item) before
      × All (λ y. key item < key y) after

  pub All-append {κ} : (P : A → Type κ) (xs ys : List A) → All P xs → All P ys → All P (xs ++ ys)
  All-append P [] ys h k = k
  All-append P (x ∷ xs) ys h k = (h.0, All-append P xs ys h.1 k)

module _ {ℓ} {A : Type ℓ} (compare : A → A → ℤ) (key : A → ℕ)
    (less_lem : (x y : A) → precedes compare x y ≡ true → key x < key y)
    (not_less_lem : (x y : A) → precedes compare x y ≡ false → key y ≤ key x) where
  after_greater :
      (item y : A) (rest : List A)
      → key item < key y
      → All (λ z. key y ≤ key z) rest
      → All (λ z. key item < key z) rest
  after_greater item y [] h k = tt
  after_greater item y (z ∷ rest) h k = (omega arith, after_greater item y rest h k.1)

  insert_after_lem :
      (item x : A) (rest : List A)
      → IsSorted key (x ∷ rest)
      → key x ≤ key item
      → Placed key item (x ∷ rest) (insert_after compare item x rest).0
  unfolding insert_after
  insert_after_lem item x [] s h = (x ∷ [], [], refl, refl, (h, tt), tt)
  insert_after_lem item x (y ∷ rest) s h = elim (Bool-cases (precedes compare item y)) [
    | inl less ↦
        let lt : key item < key y = less_lem item y less in
        (x ∷ [], y ∷ rest, refl, rw less refl, (h, tt), (lt, after_greater item y rest lt s.1.0))
    | inr more ↦
        let ge : key y ≤ key item = not_less_lem item y more in
        let (before, after, e, f, le, gt) = insert_after_lem item y rest s.1 ge in
        (x ∷ before, after, ap (λ l. x ∷ l) e, rw more (ap (λ l. x ∷ l) f), (h, le), gt)
  ]

  pub place_lem :
      (item : A) (xs : List A) → IsSorted key xs → Placed key item xs (place compare item xs).0
  unfolding place
  place_lem item [] s = ([], [], refl, refl, tt, tt)
  place_lem item (x ∷ rest) s = elim (Bool-cases (precedes compare item x)) [
    | inl less ↦
        let lt : key item < key x = less_lem item x less in
        ([], x ∷ rest, refl, rw less refl, tt, (lt, after_greater item x rest lt s.0))
    | inr more ↦
        let (before, after, e, f, le, gt) =
          insert_after_lem item x rest s (not_less_lem item x more) in
        (before, after, e, rw more f, le, gt)
  ]

  -- What stands in its place is sorted.
  IsSorted-around :
      (item : A) (before after : List A)
      → IsSorted key (before ++ after)
      → All (λ y. key y ≤ key item) before
      → All (λ y. key item < key y) after
      → IsSorted key (before ++ item ∷ after)
  IsSorted-around item [] after s le gt = (weaken after gt, s)
    where
      weaken : (ys : List A) → All (λ y. key item < key y) ys → All (λ y. key item ≤ key y) ys
      weaken [] h = tt
      weaken (y ∷ ys) h = (omega arith, weaken ys h.1)
  IsSorted-around item (x ∷ before) after s le gt =
      (insert_All before after s.0 le.0, IsSorted-around item before after s.1 le.1 gt)
    where
      insert_All :
          (us vs : List A)
          → All (λ y. key x ≤ key y) (us ++ vs)
          → key x ≤ key item
          → All (λ y. key x ≤ key y) (us ++ item ∷ vs)
      insert_All [] vs h k = (k, h)
      insert_All (u ∷ us) vs h k = (h.0, insert_All us vs h.1 k)

module _ {ℓ} {A : Type ℓ} (same : A → A → Bool) (reflexive : (x : A) → same x x ≡ true) where
  pub is_in_list-middle :
      (before : List A) (item : A) (after : List A)
      → is_in_list same (before ++ item ∷ after) item ≡ true
  unfolding is_in_list
  is_in_list-middle [] item after = rw (reflexive item) refl
  is_in_list-middle (x ∷ before) item after = ground (arith, is_in_list-middle before item after)

module _ {ℓ} {A : Type ℓ} (same : A → A → Bool) (reflexive : (x : A) → same x x ≡ true)
    (compare : A → A → ℤ) (key : A → ℕ)
    (less_lem : (x y : A) → precedes compare x y ≡ true → key x < key y)
    (not_less_lem : (x y : A) → precedes compare x y ≡ false → key y ≤ key x) where
  -- Insert of an item that is not in a sorted list comes back with both ASSERTs passed, the item
  -- after all those with a key up to its own and before those with a greater one, the others in
  -- their order, and the list sorted.
  pub insert_lem :
      (xs : List A) (item : A)
      → is_in_list same xs item ≡ false
      → IsSorted key xs
      → (placed : List A) × (insert same compare xs item ≡ ok placed)
        × Placed key item xs placed
        × IsSorted key placed
  unfolding insert
  insert_lem xs item fresh s =
      let (before, after, e, f, le, gt) = place_lem compare key less_lem not_less_lem item xs s in
      let found : is_in_list same (place compare item xs).0 item ≡ true =
        rw f (is_in_list-middle same reflexive before item after) in
      let returns : insert same compare xs item ≡ ok (place compare item xs).0 =
        elim (Bool-cases (place compare item xs).1) [
          | inl early ↦ rw (fresh, early) refl
          | inr late ↦ rw (fresh, late, found) refl
        ] in
      (
        (place compare item xs).0,
        returns,
        (before, after, e, f, le, gt),
        subst (IsSorted key) (sym f) (
            IsSorted-around compare key less_lem not_less_lem item before after
              (subst (IsSorted key) e s) le gt),
      )
