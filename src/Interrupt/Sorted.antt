-- ===== src/Interrupt/Sorted.antt =====
-- Interrupt::Schedule of code/machine/interrupt.cc and the list of the pending interrupts.
use nachos.Prelude.{
  ℕ, suc, ◌+◌, ◌≤◌, ◌<◌, ◌≡◌, refl, sym, ap, ◌∙◌, subst, true, false, List, [], ◌∷◌, ◌++◌, arith,
  if◌then◌else◌, ltb, leb, pos, ok, length,
}
use nachos.SortedList.{is_in_list, precedes}
use nachos.SortedList.Laws.{All, IsSorted, Placed, insert_lem}
use nachos.Interrupt.{PendingInterrupt, same, pending_compare, IntType, Sim, schedule}

abbrev pub time : PendingInterrupt → ℕ
time p = p.when

same_refl : (p : PendingInterrupt) → same p p ≡ true
same_refl p = ground arith

earlier : (p q : PendingInterrupt) → precedes pending_compare p q ≡ true → time p < time q
unfolding pending_compare
earlier p q h = ground arith

not_earlier : (p q : PendingInterrupt) → precedes pending_compare p q ≡ false → time q ≤ time p
unfolding pending_compare
not_earlier p q h = ground arith

-- Objects that have been made.
abbrev pub Made : ℕ → List PendingInterrupt → Type 0
Made n xs = All (λ p. p.address < n) xs

-- How many have come due.
abbrev pub due : ℕ → List PendingInterrupt → ℕ
due now [] = 0
due now (p ∷ xs) = (if leb p.when now then 1 else 0) + due now xs

pub due-le-length : (now : ℕ) (xs : List PendingInterrupt) → due now xs ≤ length xs
due-le-length now [] = omega arith
due-le-length now (p ∷ xs) = ground (arith, due-le-length now xs)

due_middle :
    (now : ℕ) (p : PendingInterrupt) (xs ys : List PendingInterrupt)
    → now < p.when
    → due now (xs ++ p ∷ ys) ≡ due now (xs ++ ys)
due_middle now p [] ys h = ground arith
due_middle now p (x ∷ xs) ys h =
    ap (λ n. (if leb x.when now then 1 else 0) + n) (due_middle now p xs ys h)

unmade :
    (n : ℕ) (p : PendingInterrupt) (xs : List PendingInterrupt)
    → p.address ≡ n
    → Made n xs
    → is_in_list same xs p ≡ false
unfolding is_in_list
unmade n p [] e h = refl
unmade n p (x ∷ xs) e h = ground (arith, unmade n p xs e h.1)

weaken_Made : (n : ℕ) (xs : List PendingInterrupt) → Made n xs → Made (n + 1) xs
weaken_Made n [] h = tt
weaken_Made n (x ∷ xs) h = (omega arith, weaken_Made n xs h.1)

All-around :
    (P : PendingInterrupt → Type 0) (p : PendingInterrupt) (xs ys : List PendingInterrupt)
    → P p
    → All P (xs ++ ys)
    → All P (xs ++ p ∷ ys)
All-around P p [] ys h k = (h, k)
All-around P p (x ∷ xs) ys h k = (k.0, All-around P p xs ys h k.1)

-- In order of their times, and each an object of its own.
pub record IsOrdered {W : Type 0} (s : Sim W) : Type 0 where
  pub sorted : IsSorted time s.pending
  pub addressed : Made s.made s.pending

abbrev pub InFuture : ℕ → List PendingInterrupt → Type 0
InFuture now xs = All (λ p. now < p.when) xs

-- The object that Schedule makes.
abbrev pub interrupt : {W : Type 0} → Sim W → ℕ → ℕ → IntType → PendingInterrupt
interrupt s to_call n kind = record {
  address = s.made;
  call_on_interrupt = to_call;
  when = s.total_ticks + suc n;
  kind = kind;
}

pub schedule_lem :
    {W : Type 0} (s : Sim W) (to_call : ℕ) (n : ℕ) (kind : IntType)
    → IsOrdered s
    → (placed : List PendingInterrupt) × (schedule s to_call (pos (suc n)) kind
        ≡ ok (record s { pending = placed; made = s.made + 1 }))
      × IsOrdered (record s { pending = placed; made = s.made + 1 })
      × (due s.total_ticks placed ≡ due s.total_ticks s.pending)
      × (InFuture s.total_ticks s.pending → InFuture s.total_ticks placed)
      × Placed time (interrupt s to_call n kind) s.pending placed
unfolding schedule
schedule_lem {W} s to_call n kind v =
    let p : PendingInterrupt = interrupt s to_call n kind in
    let fresh : is_in_list same s.pending p ≡ false = unmade s.made p s.pending refl v.addressed in
    let (placed, e, (xs, ys, f, g, le, gt), sorted) =
      insert_lem same same_refl pending_compare time earlier not_earlier s.pending p fresh
        v.sorted in
    (
      placed,
      let positive : ltb 0 (suc n + 0) ≡ true = ground arith in rw (positive, e) refl,
      record {
        sorted = sorted;
        addressed = subst (Made (s.made + 1)) (sym g) (
            All-around _ p xs ys (omega arith)
              (subst (Made (s.made + 1)) f (weaken_Made s.made s.pending v.addressed)));
      },
      ap (due s.total_ticks) g
          ∙ due_middle s.total_ticks p xs ys (omega arith)
          ∙ sym (ap (due s.total_ticks) f),
      λ h.
          subst (InFuture s.total_ticks) (sym g)
            (All-around _ p xs ys (omega arith) (subst (InFuture s.total_ticks) f h)),
      (xs, ys, f, g, le, gt),
    )
