-- ===== src/STable/Names.antt =====
-- STable::Create, Wait and Signal of code/threads/STable.cc: the names in the table.
use nachos.Prelude.{
  ℕ, zero, suc, ◌+◌, ◌<◌, ◌≡◌, ◌≢◌, refl, sym, ap, ◌∙◌, subst, inl, inr, ◌⊎◌, Bool, true, false,
  Option, none, some, [], ◌∷◌, if◌then◌else◌, ltb, ltb_ℤ, ltb_iff, length, ◌==◌, ℤ, pos, Result, ok,
  abort, ◌>>=◌, ◌>>◌, assert, Bool-cases, arith,
}
use native.Mathlib.Decide.{ℕ_discrete}
use nachos.Machine.{update}
use nachos.Bitmap.{Bitmap, find_and_set}
use nachos.Bitmap.Words.{IsValid, is_marked, test-is_marked}
use nachos.Bitmap.Search.{FindResult, find_and_set_lem}
use nachos.Threads.System.{System, p, v, put_semaphore}
use nachos.Filesys.FileTable.{Name, same_text, failed}
use nachos.Filesys.FileTable.Search.{First, First-next}
use nachos.STable.{Sem, STable, is_called, find_from, put_sem, create, on_slot, wait, signal}

abbrev pub in_use : Option Sem → Bool
in_use none = false
in_use (some s) = true

-- A slot holds a semaphore exactly when its bit is set.
pub record IsGood (t : STable) : Type 0 where
  pub bits : IsValid t.bm
  pub size : t.bm.num_bits ≡ 10
  pub held : (i : ℕ) → i < 10 → is_marked t.bm i ≡ in_use (t.table i)

abbrev pub is_named : Name → Option Sem → Bool
is_named name none = false
is_named name (some s) = same_text name s.name

-- What find_from does with a slot.
abbrev step : Name → Option Sem → ℕ → Result (Option ℕ) → Result (Option ℕ)
step name slot i rest = elim (in_use slot) [
  | false ↦ rest
  | true ↦ is_called name slot >>= λ same. elim same [ true ↦ ok (some i) | false ↦ rest ]
]

step_lem :
    (name : Name) (slot : Option Sem) (i : ℕ) (rest : Result (Option ℕ))
    → step name slot i rest ≡ (if is_named name slot then ok (some i) else rest)
step_lem name none i rest = refl
step_lem name (some s) i rest = elim (Bool-cases (same_text name s.name)) [
  | inl same ↦ rw same refl
  | inr other ↦ rw other refl
]

find_from-step :
    (t : STable) (name : Name) (i left : ℕ)
    → IsGood t
    → i < 10
    → find_from t name i (suc left)
      ≡ (if is_named name (t.table i) then ok (some i) else find_from t name (i + 1) left)
unfolding find_from
find_from-step t name i left v h =
    ap
      (λ (r : Result Bool). r >>= λ set. elim set as (λ x. Result (Option ℕ)) [
        | false ↦ find_from t name (i + 1) left
        | true ↦ is_called name (t.table i) >>= λ same. elim same as (λ x. Result (Option ℕ)) [
          | true ↦ ok (some i)
          | false ↦ find_from t name (i + 1) left
        ]
      ])
      (test-is_marked t.bm i (omega (arith, v.size)) ∙ ap ok (v.held i h))
    ∙ step_lem name (t.table i) i (find_from t name (i + 1) left)

-- The loop ends with the first slot that has the name, and dereferences no empty one.
pub find_from-First :
    (t : STable) (name : Name) (i left : ℕ)
    → IsGood t
    → i + left ≡ 10
    → (o : Option ℕ) × (find_from t name i left ≡ ok o)
      × First (λ j. is_named name (t.table j)) i 10 o
unfolding find_from
find_from-First t name i zero v e = (none, refl, λ j a b. absurd (omega arith))
find_from-First t name i (suc left) v e = elim (Bool-cases (is_named name (t.table i))) [
  | inl found ↦ (
    some i,
    find_from-step t name i left v (omega arith) ∙ rw found refl,
    (omega arith, omega arith, found, λ j a b. absurd (omega arith)),
  )
  | inr other ↦
      let (o, r, f) = find_from-First t name (i + 1) left v (omega arith) in
      (
        o,
        find_from-step t name i left v (omega arith) ∙ rw other r,
        First-next (λ j. is_named name (t.table j)) i 10 o other f,
      )
]

taken :
    (f : ℕ → Option Sem) (bits : ℕ → Bool) (k : ℕ) (s : Sem)
    → ((i : ℕ) → i < 10 → bits i ≡ in_use (f i))
    → (i : ℕ) → i < 10
    → (if i == k then true else bits i) ≡ in_use (update f k (some s) i)
taken f bits k s held i h = elim (ℕ_discrete i k) [
  | yes same ↦ ground arith
  | no other ↦ ground (arith, held i h)
]

-- How Create ends: the name is there; each slot is in use; or the semaphore is in the first free
-- slot, and the table is good.
abbrev pub Creates : STable → System → Name → ℕ → ℕ → Result (ℤ × STable × System) → Type 0
Creates t s name value fresh r =
    ((i : ℕ) × (i < 10) × (is_named name (t.table i) ≡ true) × (r ≡ ok (failed, t, s)))
    ⊎ (((j : ℕ) → j < 10 → is_named name (t.table j) ≡ false)
        × ((((j : ℕ) → j < 10 → in_use (t.table j) ≡ true) × (r ≡ ok (failed, t, s)))
            ⊎ ((k : ℕ) × (t' : STable) × (k < 10)
                × (t.table k ≡ none)
                × (r ≡ ok (pos 0, t', put_semaphore s fresh (record { value = value; queue = [] })))
                × (t'.table ≡ update t.table k (some (record { name = name; sem = fresh })))
                × IsGood t')))

free-none : (o : Option Sem) → in_use o ≡ false → o ≡ none
free-none none h = refl
free-none (some s) h = cc

put_sem_lem :
    (t : STable) (s : System) (name : Name) (value fresh : ℕ)
    → IsGood t
    → ltb (length name) 50 ≡ true
    → ((j : ℕ) → j < 10 → is_named name (t.table j) ≡ false)
    → (r : Result (ℤ × Bitmap)) → FindResult t.bm r
    → Creates t s name value fresh (r >>= put_sem t s name value fresh)
unfolding put_sem
put_sem_lem t s name value fresh good short absent r (inl (full, e)) = inr (
  absent,
  inl (
    λ j h. sym (good.held j h) ∙ full j (omega (arith, good.size)),
    ap (λ x. x >>= put_sem t s name value fresh) e,
  ),
)
put_sem_lem t s name value fresh good short absent r (inr (k, bm, e, first)) =
    let inside : k < 10 = omega (arith, good.size, first.in_range) in
    let t' : STable = record {
      bm = bm;
      table = update t.table k (some (record { name = name; sem = fresh }));
    } in
    let low : ltb_ℤ (pos k) (pos 0) ≡ false = ground arith in
    let made : ℤ × STable × System =
      (pos 0, t', put_semaphore s fresh (record { value = value; queue = [] })) in
    inr (
      absent,
      inr (
        k,
        t',
        inside,
        free-none (t.table k) (sym (good.held k inside) ∙ first.was_clear),
        ap (λ x. x >>= put_sem t s name value fresh) e
            ∙ ap
                (λ (b : Bool).
                  if b then ok (failed, t, s) else (assert (ltb (length name) 50) >> ok made))
                low
            ∙ ap (λ (b : Bool). assert b >> ok made) short,
        refl,
        record {
          bits = first.updates.valid;
          size = first.updates.same_size ∙ good.size;
          held = λ i h.
              first.updates.bits i
              ∙ taken t.table (is_marked t.bm) k (record { name = name; sem = fresh }) good.held i
                  h;
        },
      ),
    )

-- On a table of semaphores whose bitmap tells which slots are in use, Create of a name of less
-- than 50 characters gives -1 and changes nothing when the name is there or each slot is in use,
-- and otherwise 0 with the new semaphore under the name in a free slot, no other slot changed and
-- the bitmap again telling which are in use; no ASSERT fails and no empty slot is dereferenced.
pub create_lem :
    (t : STable) (s : System) (name : Name) (value fresh : ℕ)
    → IsGood t
    → length name < 50
    → Creates t s name value fresh (create t s name value fresh)
unfolding create
create_lem t s name value fresh good short =
    let (o, e, f) = find_from-First t name 0 10 good refl in
    subst (Creates t s name value fresh) (sym (ap (after t s name value fresh) e)) (found o f)
  where
    after : STable → System → Name → ℕ → ℕ → Result (Option ℕ) → Result (ℤ × STable × System)
    after t s name value fresh r = r >>= λ found.
        elim found as (λ x. Result (ℤ × STable × System)) [
          | some i ↦ ok (failed, t, s)
          | none ↦ find_and_set t.bm >>= put_sem t s name value fresh
        ]

    found :
        (o : Option ℕ)
        → First (λ j. is_named name (t.table j)) 0 10 o
        → Creates t s name value fresh (after t s name value fresh (ok o))
    found (some i) (a, b, c, d) = inl (i, b, c, refl)
    found none absent =
        put_sem_lem t s name value fresh good ((ltb_iff (length name) 50).1 short)
          (λ j h. absent j (omega arith) h) (find_and_set t.bm) (find_and_set_lem t.bm good.bits)

same_text_refl : (name : Name) → same_text name name ≡ true
same_text_refl [] = refl
same_text_refl (c ∷ cs) = ground (arith, same_text_refl cs)

-- A semaphore that is in the table under a name that no other slot has is the one that Wait and
-- Signal find.
named_at :
    (t : STable) (name : Name) (k fresh : ℕ)
    → IsGood t
    → k < 10
    → t.table k ≡ some (record { name = name; sem = fresh })
    → ((j : ℕ) → j ≢ k → j < 10 → is_named name (t.table j) ≡ false)
    → find_from t name 0 10 ≡ ok (some k)
named_at t name k fresh good h here others =
    let (o, e, f) = find_from-First t name 0 10 good refl in e ∙ ap ok (only o f)
  where
    named : is_named name (t.table k) ≡ true
    named = ap (is_named name) here ∙ same_text_refl name

    only : (o : Option ℕ) → First (λ j. is_named name (t.table j)) 0 10 o → o ≡ some k
    only none f = absurd (let gone = f k (omega arith) h in let there = named in cc)
    only (some i) (a, b, c, d) = elim (ℕ_discrete i k) [
      | yes same ↦ ap some same
      | no other ↦ absurd (let gone = others i other b in cc)
    ]

-- When Create of a name of less than 50 characters has given 0 on such a table, Wait by this name
-- is P of the new semaphore and Signal is V, each with the result 0, in any state of the threads.
pub wait-create :
    (t t' : STable) (s s' : System) (name : Name) (value fresh : ℕ)
    → IsGood t
    → length name < 50
    → create t s name value fresh ≡ ok (pos 0, t', s')
    → (s'' : System)
    → (wait t' s'' name ≡ (p s'' fresh >>= λ s3. ok (pos 0, s3)))
      × (signal t' s'' name ≡ (v s'' fresh >>= λ s3. ok (pos 0, s3)))
unfolding wait signal
wait-create t t' s s' name value fresh good short made s'' =
    elim (create_lem t s name value fresh good short) [
      | inl (i, h, own, r) ↦ absurd (let x = sym r ∙ made in cc)
      | inr (absent, inl (full, r)) ↦ absurd (let x = sym r ∙ made in cc)
      | inr (absent, inr (k, t1, h, free, r, table, good')) ↦
          let same : t1 ≡ t' = ap (table_of t) (sym r ∙ made) in
          let here : t1.table k ≡ some (record { name = name; sem = fresh }) =
            ap (λ (f : ℕ → Option Sem). f k) table ∙ ground arith in
          let others : (j : ℕ) → j ≢ k → j < 10 → is_named name (t1.table j) ≡ false = λ j ne lt.
            ap (λ (f : ℕ → Option Sem). is_named name (f j)) table ∙ ground (arith, absent j lt) in
          let where_ : find_from t1 name 0 10 ≡ ok (some k) =
            named_at t1 name k fresh good' h here others in
          subst
            (λ x.
              (wait x s'' name ≡ (p s'' fresh >>= λ s3. ok (pos 0, s3)))
              × (signal x s'' name ≡ (v s'' fresh >>= λ s3. ok (pos 0, s3))))
            same
            (
              ap (λ x. x >>= on_slot t1 s'' p) where_ ∙ rw (on_slot, here) refl,
              ap (λ x. x >>= on_slot t1 s'' v) where_ ∙ rw (on_slot, here) refl,
            )
    ]
  where
    table_of : STable → Result (ℤ × STable × System) → STable
    table_of t abort = t
    table_of t (ok (r, t1, s1)) = t1
