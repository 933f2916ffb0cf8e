-- ===== src/Filesys/FileTable/Search.antt =====
-- The loops over fileDescriptorTable in code/filesys/filesys.h: they look for the first slot of a
-- kind.
use nachos.Prelude.{
  ℕ, zero, suc, ◌+◌, ◌≤◌, ◌<◌, ◌≡◌, refl, ap, ◌∙◌, subst, Bool, true, false, Option, none, some,
  arith, inl, inr, Bool-cases, [], ◌∷◌,
}
use nachos.Filesys.FileTable.{Name, same_text, UnixFile, Files}
use nachos.Filesys.FileTable.Slots.{has_name, is_free, empty_from, named_from}
use native.Mathlib.Decide.{ℕ_discrete}

-- What a search from i up to n for an index with p has found.
abbrev pub First : (ℕ → Bool) → ℕ → ℕ → Option ℕ → Type 0
First p i n none = (j : ℕ) → i ≤ j → j < n → p j ≡ false
First p i n (some k) = (i ≤ k) × (k < n) × (p k ≡ true) × ((j : ℕ) → i ≤ j → j < k → p j ≡ false)

pub First-next :
    (p : ℕ → Bool) (i n : ℕ) (o : Option ℕ) → p i ≡ false → First p (i + 1) n o → First p i n o
First-next p i n none h f =
    λ j a b. elim (ℕ_discrete j i) [ yes e ↦ ap p e ∙ h | no ne ↦ f j (omega arith) b ]
First-next p i n (some k) h (a, b, c, f) = (
  omega arith,
  b,
  c,
  λ j a' b'. elim (ℕ_discrete j i) [ yes e ↦ ap p e ∙ h | no ne ↦ f j (omega arith) b' ],
)

pub is_free-none : (o : Option UnixFile) → is_free o ≡ true → o ≡ none
is_free-none none h = refl
is_free-none (some f) h = cc

module _ {S : Type 0} (fs : Files S) where
  pub named_from-First :
      (name : Name) (i left : ℕ)
      → First (λ j. has_name name (fs.table j)) i (i + left) (named_from fs name i left)
  unfolding named_from
  named_from-First name i zero = λ j a b. absurd (omega arith)
  named_from-First name i (suc left) = elim (Bool-cases (has_name name (fs.table i))) [
    | inl found ↦ rw found (omega arith, omega arith, found, λ j a b. absurd (omega arith))
    | inr other ↦ rw other (
        First-next (λ j. has_name name (fs.table j)) i (i + suc left)
          (named_from fs name (i + 1) left) other
          (subst
            (λ n.
              First (λ j. has_name name (fs.table j)) (i + 1) n (named_from fs name (i + 1) left))
            {x = i + 1 + left} {y = i + suc left} (omega arith)
            (named_from-First name (i + 1) left)))
  ]

  pub empty_from-First :
      (i left : ℕ) → First (λ j. is_free (fs.table j)) i (i + left) (empty_from fs i left)
  unfolding empty_from
  empty_from-First i zero = λ j a b. absurd (omega arith)
  empty_from-First i (suc left) = elim (Bool-cases (is_free (fs.table i))) [
    | inl found ↦ rw found (omega arith, omega arith, found, λ j a b. absurd (omega arith))
    | inr other ↦ rw other (
        First-next (λ j. is_free (fs.table j)) i (i + suc left) (empty_from fs (i + 1) left) other
          (subst (λ n. First (λ j. is_free (fs.table j)) (i + 1) n (empty_from fs (i + 1) left))
            {x = i + 1 + left} {y = i + suc left} (omega arith) (empty_from-First (i + 1) left)))
  ]

pub same_text_lem : (a b : Name) → same_text a b ≡ true → a ≡ b
same_text_lem [] [] h = refl
same_text_lem [] (y ∷ ys) h = cc
same_text_lem (x ∷ xs) [] h = cc
same_text_lem (x ∷ xs) (y ∷ ys) h = ground (arith, same_text_lem xs ys)
