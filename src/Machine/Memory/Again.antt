-- ===== src/Machine/Memory/Again.antt =====
-- Machine::Translate of code/machine/translate.cc after an entry has been used.
use nachos.Prelude.{
  ℕ, zero, suc, ◌+◌, ◌/◌, ◌<◌, ◌≡◌, refl, ap, ◌∙◌, subst, inl, inr, Bool, true, false, ◌&&◌, Option,
  none, some, List, [], ◌∷◌, arith, ◌==◌, leb, Bool-cases, Option-cases, length, get_or, set,
  get_or-set_self,
}
use mathlib.Core.Option
use nachos.Machine.{Machine, TranslationEntry, page_size}
use nachos.Machine.Memory.{
  Place, in_page_table, in_tlb, no_entry, find_in_tlb, found, find_entry, put_entry,
}
use nachos.Machine.Memory.Laws.{Translated, touched}

-- Setting the use and dirty bits of the entry that was found does not change which one is found.
find_in_tlb-touched :
    (t : List TranslationEntry) (vpn i k : ℕ) (writing : Bool)
    → find_in_tlb t vpn i ≡ some k
    → (j : ℕ) × (k ≡ i + j)
      × (find_in_tlb (set t j (touched (get_or t j no_entry) writing)) vpn i ≡ some k)
      × (get_or (set t j (touched (get_or t j no_entry) writing)) j no_entry
          ≡ touched (get_or t j no_entry) writing)
unfolding find_in_tlb
find_in_tlb-touched [] vpn i k writing h = cc
find_in_tlb-touched (e ∷ es) vpn i k writing h =
    elim (Bool-cases (e.valid && (e.virtual_page == vpn))) [
      | inl here ↦ (0, ground arith, ground arith, refl)
      | inr later ↦
          let (j, kj, fj, gj) = find_in_tlb-touched es vpn (i + 1) k writing (rw later at h) in
          (suc j, omega arith, rw later fj, gj)
    ]

-- At the index from which Translate starts.
find_in_tlb-again :
    (t : List TranslationEntry) (vpn k : ℕ) (writing : Bool)
    → find_in_tlb t vpn 0 ≡ some k
    → (find_in_tlb (set t k (touched (get_or t k no_entry) writing)) vpn 0 ≡ some k)
      × (get_or (set t k (touched (get_or t k no_entry) writing)) k no_entry
          ≡ touched (get_or t k no_entry) writing)
find_in_tlb-again t vpn k writing h =
    let (j, kj, fj, gj) = find_in_tlb-touched t vpn 0 k writing h in
    let e : j ≡ k = omega arith in
    subst
      (λ n.
        (find_in_tlb (set t n (touched (get_or t n no_entry) writing)) vpn 0 ≡ some k)
        × (get_or (set t n (touched (get_or t n no_entry) writing)) n no_entry
            ≡ touched (get_or t n no_entry) writing))
      e (fj, gj)

tlb_hit :
    (t : List TranslationEntry) (vpn size k : ℕ) (place : Place) (e : TranslationEntry)
    → find_in_tlb t vpn 0 ≡ some k
    → find_entry (some t) none size vpn ≡ found place e
    → (place ≡ in_tlb k) × (e ≡ get_or t k no_entry)
unfolding find_entry
tlb_hit t vpn size k place e hit h = ground arith

-- A valid entry stands within the table.
get_or-valid-lt :
    (p : List TranslationEntry) (vpn : ℕ) → (get_or p vpn no_entry).valid ≡ true → vpn < length p
get_or-valid-lt [] vpn h = cc
get_or-valid-lt (e ∷ es) zero h = omega arith
get_or-valid-lt (e ∷ es) (suc vpn) h = omega (arith, get_or-valid-lt es vpn h)

abbrev put_in_page_table :
    Place → TranslationEntry → Option (List TranslationEntry) → Option (List TranslationEntry)
put_in_page_table (in_page_table i) e t = Option.map (λ p. set p i e) t
put_in_page_table (in_tlb i) e t = t

abbrev put_in_tlb :
    Place → TranslationEntry → Option (List TranslationEntry) → Option (List TranslationEntry)
put_in_tlb (in_page_table i) e t = t
put_in_tlb (in_tlb i) e t = Option.map (λ p. set p i e) t

-- After its use, the entry is found at the same place.
find_entry-touched :
    (tlb pt : Option (List TranslationEntry)) (size vpn : ℕ) (place : Place) (e : TranslationEntry)
    (writing : Bool)
    → find_entry tlb pt size vpn ≡ found place e
    → find_entry
        (put_in_tlb place (touched e writing) tlb)
        (put_in_page_table place (touched e writing) pt)
        size
        vpn
      ≡ found place (touched e writing)
unfolding find_entry
find_entry-touched (some t) (some p) size vpn place e writing h = cc
find_entry-touched none none size vpn place e writing h = cc
find_entry-touched none (some p) size vpn place e writing h =
    page_table (ground arith) (ground arith) (ground arith) (ground arith)
  where
    page_table :
        place ≡ in_page_table vpn
        → e ≡ get_or p vpn no_entry
        → e.valid ≡ true
        → leb size vpn ≡ false
        → find_entry
            (put_in_tlb place (touched e writing) none)
            (put_in_page_table place (touched e writing) (some p))
            size
            vpn
          ≡ found place (touched e writing)
    page_table pe ee v le = rw pe (
        rw
          (get_or-set_self p vpn (touched e writing) no_entry
            (get_or-valid-lt p vpn (subst (λ x. x.valid ≡ true) ee v)))
          (ground arith))
find_entry-touched (some t) none size vpn place e writing h =
    elim (Option-cases (find_in_tlb t vpn 0)) [
      | inl missed ↦ absurd (tlb_miss missed h)
      | inr (k, hit) ↦
          let (pe, ee) = tlb_hit t vpn size k place e hit h in
          let (again, entry) = find_in_tlb-again t vpn k writing hit in
          rw (pe, ee) (rw (again, find_entry) (ap (found (in_tlb k)) entry))
    ]
  where
    tlb_miss : find_in_tlb t vpn 0 ≡ none → find_entry (some t) none size vpn ≡ found place e → ⊥
    tlb_miss missed found_it = ground arith

-- The tables of a machine whose entry has been replaced.
find_entry-put_entry :
    (m : Machine) (p : Place) (e : TranslationEntry) (vpn : ℕ)
    → find_entry
        (put_entry m p e).tlb
        (put_entry m p e).page_table
        (put_entry m p e).page_table_size
        vpn
      ≡ find_entry (put_in_tlb p e m.tlb) (put_in_page_table p e m.page_table) m.page_table_size vpn
find_entry-put_entry m (in_page_table i) e vpn = refl
find_entry-put_entry m (in_tlb i) e vpn = refl

pub found_again :
    {m m' : Machine} {addr size pa : ℕ} {writing : Bool} (t : Translated m addr size writing pa m')
    → find_entry m'.tlb m'.page_table m'.page_table_size (addr / page_size)
      ≡ found t.place (touched t.entry writing)
found_again {m} {m'} {addr} {size} {pa} {writing} t =
    ap (λ (n : Machine). find_entry n.tlb n.page_table n.page_table_size (addr / page_size))
      t.machine
    ∙ find_entry-put_entry m t.place (touched t.entry writing) (addr / page_size)
    ∙ find_entry-touched m.tlb m.page_table m.page_table_size (addr / page_size) t.place t.entry
        writing t.is_found
