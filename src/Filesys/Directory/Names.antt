-- ===== src/Filesys/Directory/Names.antt =====
-- Names of files, code/filesys/directory.cc, compared on their first nine characters.
use nachos.Prelude.{
  ℕ, zero, suc, ◌≡◌, refl, sym, ap, ◌∙◌, ◌↔◌, inl, inr, true, List, [], ◌∷◌, arith, Bool-cases,
  take,
}
use nachos.Filesys.Directory.{strncmp_same, same_name, file_name_max_len}

strncmp_same-take : (n : ℕ) (a b : List ℕ) → strncmp_same n a b ≡ true → take n a ≡ take n b
unfolding strncmp_same
strncmp_same-take zero a b h = refl
strncmp_same-take (suc n) [] [] h = refl
strncmp_same-take (suc n) [] (y ∷ ys) h = cc
strncmp_same-take (suc n) (x ∷ xs) [] h = cc
strncmp_same-take (suc n) (x ∷ xs) (y ∷ ys) h =
    let first : x ≡ y = ground arith in
    let rest : strncmp_same n xs ys ≡ true = ground arith in
    rw (first, strncmp_same-take n xs ys rest) refl

take-strncmp_same : (n : ℕ) (a b : List ℕ) → take n a ≡ take n b → strncmp_same n a b ≡ true
unfolding strncmp_same
take-strncmp_same zero a b h = refl
take-strncmp_same (suc n) [] [] h = refl
take-strncmp_same (suc n) [] (y ∷ ys) h = cc
take-strncmp_same (suc n) (x ∷ xs) [] h = cc
take-strncmp_same (suc n) (x ∷ xs) (y ∷ ys) h =
    let first : x ≡ y = cc in
    let rest : take n xs ≡ take n ys = cc in ground (arith, take-strncmp_same n xs ys rest)

-- strncmp compares what strncpy keeps.
pub same_name_lem :
    (a b : List ℕ) → (same_name a b ≡ true) ↔ (take file_name_max_len a ≡ take file_name_max_len b)
same_name_lem a b =
    (strncmp_same-take file_name_max_len a b, take-strncmp_same file_name_max_len a b)

take-take : (n : ℕ) (a : List ℕ) → take n (take n a) ≡ take n a
take-take zero a = refl
take-take (suc n) [] = refl
take-take (suc n) (x ∷ xs) = ap (λ r. x ∷ r) (take-take n xs)

pub same_name-stored : (a : List ℕ) → same_name (take file_name_max_len a) a ≡ true
same_name-stored a =
    take-strncmp_same file_name_max_len (take file_name_max_len a) a (take-take file_name_max_len a)

-- The name that is stored matches what the name itself matches.
pub same_name-take : (a b : List ℕ) → same_name (take file_name_max_len a) b ≡ same_name a b
same_name-take a b = elim (Bool-cases (same_name a b)) [
  | inl y ↦
      take-strncmp_same file_name_max_len (take file_name_max_len a) b
        (take-take file_name_max_len a ∙ strncmp_same-take file_name_max_len a b y)
      ∙ sym y
  | inr n ↦ elim (Bool-cases (same_name (take file_name_max_len a) b)) [
    | inl y ↦
        let e : same_name a b ≡ true = take-strncmp_same file_name_max_len a b (
          sym (take-take file_name_max_len a)
          ∙ strncmp_same-take file_name_max_len (take file_name_max_len a) b y) in
        y ∙ sym e
    | inr m ↦ m ∙ sym n
  ]
]

-- An entry that matches two names shows that they are one.
pub same_name-common :
    (e a b : List ℕ) → same_name e a ≡ true → same_name e b ≡ true → same_name a b ≡ true
same_name-common e a b p q =
    take-strncmp_same file_name_max_len a b
      (sym (strncmp_same-take file_name_max_len e a p) ∙ strncmp_same-take file_name_max_len e b q)

same_name_trans :
    (e a b : List ℕ) → same_name e a ≡ true → same_name a b ≡ true → same_name e b ≡ true
same_name_trans e a b p q =
    take-strncmp_same file_name_max_len e b
      (strncmp_same-take file_name_max_len e a p ∙ strncmp_same-take file_name_max_len a b q)

same_name-sym : (a b : List ℕ) → same_name a b ≡ true → same_name b a ≡ true
same_name-sym a b p =
    take-strncmp_same file_name_max_len b a (sym (strncmp_same-take file_name_max_len a b p))

-- One name matches what the other does.
pub same_name-congr : (e a b : List ℕ) → same_name a b ≡ true → same_name e a ≡ same_name e b
same_name-congr e a b p = elim (Bool-cases (same_name e a)) [
  | inl y ↦ y ∙ sym (same_name_trans e a b y p)
  | inr n ↦ elim (Bool-cases (same_name e b)) [
    | inr m ↦ n ∙ sym m
    | inl y ↦ let c = sym n ∙ same_name_trans e b a y (same_name-sym a b p) in cc
  ]
]
