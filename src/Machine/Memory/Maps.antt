-- ===== src/Machine/Memory/Maps.antt =====
-- Machine::Translate of code/machine/translate.cc against the tables.
use nachos.Prelude.{
  ℕ, zero, suc, ◌+◌, ◌*◌, ◌/◌, ◌%◌, ◌≤◌, ◌<◌, ◌≡◌, ◌≢◌, refl, Bool, true, false, ◌&&◌, List, [],
  ◌∷◌, Option, none, some, arith, leb, ◌==◌, Bool-cases, Option-cases, inl, inr, get_or, length,
  subst,
}
use nachos.Machine.{Machine, TranslationEntry, page_size, num_phys_pages, memory_size}
use nachos.Machine.Memory.{
  done, Place, in_page_table, in_tlb, no_entry, find_in_tlb, Lookup, found, missing, both_or_none,
  find_entry, put_entry, translate,
}
use nachos.Machine.Memory.Laws.{Translated, touched, translate-Translated}

-- The entry stands in this place for the page: in the page table at the page's index, or in the
-- TLB as the first valid one for the page.
abbrev pub Holds : Machine → ℕ → Place → TranslationEntry → Type 0
Holds m vpn (in_page_table i) e =
    (i ≡ vpn)
    × (vpn < m.page_table_size)
    × (m.tlb ≡ none)
    × ((p : List TranslationEntry) × (m.page_table ≡ some p) × (get_or p vpn no_entry ≡ e))
Holds m vpn (in_tlb i) e =
    (e.virtual_page ≡ vpn)
    × (m.page_table ≡ none)
    × ((t : List TranslationEntry) × (m.tlb ≡ some t)
        × (i < length t)
        × (get_or t i no_entry ≡ e)
        × ((j : ℕ)
            → j < i
            → (get_or t j no_entry).valid ≡ true
            → (get_or t j no_entry).virtual_page ≢ vpn))

pub record Maps (m : Machine) (addr size : ℕ) (writing : Bool) (pa : ℕ) (m' : Machine)
    : Type 0 where
  pub place : Place
  pub entry : TranslationEntry
  pub aligned_4 : size ≡ 4 → addr % 4 ≡ 0
  pub aligned_2 : size ≡ 2 → addr % 2 ≡ 0
  pub holds : Holds m (addr / page_size) place entry
  pub is_valid : entry.valid ≡ true
  pub writable : writing ≡ true → entry.read_only ≡ false
  pub is_frame : entry.physical_page < num_phys_pages
  pub address : pa ≡ entry.physical_page * page_size + addr % page_size
  pub in_memory : pa + size ≤ memory_size
  pub machine : m' ≡ put_entry m place (touched entry writing)

-- What the loop over the TLB has found, from the i-th entry on.
find_in_tlb_lem :
    (t : List TranslationEntry) (vpn i k : ℕ)
    → find_in_tlb t vpn i ≡ some k
    → (j : ℕ) × (k ≡ i + j)
      × (j < length t)
      × ((get_or t j no_entry).valid ≡ true)
      × ((get_or t j no_entry).virtual_page ≡ vpn)
      × ((n : ℕ)
          → n < j
          → (get_or t n no_entry).valid ≡ true
          → (get_or t n no_entry).virtual_page ≢ vpn)
unfolding find_in_tlb
find_in_tlb_lem [] vpn i k h = cc
find_in_tlb_lem (e ∷ es) vpn i k h = elim (Bool-cases (e.valid && (e.virtual_page == vpn))) [
  | inl here ↦
      let at : i ≡ k = let h' = rw here at h in cc in
      (0, omega arith, omega arith, ground arith, ground arith, λ n lt. absurd (omega arith))
  | inr other ↦
      let (j, at, lt, valid, page, before) = find_in_tlb_lem es vpn (i + 1) k (rw other at h) in
      (suc j, omega arith, omega arith, valid, page, earlier j other before)
]
  where
    earlier :
        (j : ℕ)
        → (e.valid && (e.virtual_page == vpn)) ≡ false
        → ((n : ℕ)
            → n < j
            → (get_or es n no_entry).valid ≡ true
            → (get_or es n no_entry).virtual_page ≢ vpn)
        → (n : ℕ) → n < suc j
        → (get_or (e ∷ es) n no_entry).valid ≡ true
        → (get_or (e ∷ es) n no_entry).virtual_page ≢ vpn
    earlier j other before zero lt valid = λ same. ground arith
    earlier j other before (suc n) lt valid = before n (omega arith) valid

abbrev Described : Machine → ℕ → Lookup → Type 0
Described m vpn (found place entry) = Holds m vpn place entry × (entry.valid ≡ true)
Described m vpn (missing x) = Unit {0}
Described m vpn both_or_none = Unit {0}

find_entry_lem :
    (m : Machine) (vpn : ℕ) (tlb table : Option (List TranslationEntry)) (place : Place)
    (entry : TranslationEntry)
    → m.tlb ≡ tlb
    → m.page_table ≡ table
    → find_entry tlb table m.page_table_size vpn ≡ found place entry
    → Holds m vpn place entry × (entry.valid ≡ true)
unfolding find_entry
find_entry_lem m vpn (some t) (some p) place entry e f h = cc
find_entry_lem m vpn none none place entry e f h = cc
find_entry_lem m vpn none (some p) place entry e f h =
    elim (Bool-cases (leb m.page_table_size vpn)) [
      | inl outside ↦ absurd (let h' = rw outside at h in cc)
      | inr inside ↦ elim (Bool-cases (get_or p vpn no_entry).valid) [
        | inr invalid ↦ absurd (let h' = rw (inside, invalid) at h in cc)
        | inl valid ↦
            let within : vpn < m.page_table_size = ground arith in
            let reads : found (in_page_table vpn) (get_or p vpn no_entry) ≡ found place entry =
              rw (inside, valid) at h in
            subst (Described m vpn) reads ((refl, within, e, (p, f, refl)), valid)
      ]
    ]
find_entry_lem m vpn (some t) none place entry e f h = elim (Option-cases (find_in_tlb t vpn 0)) [
  | inl gone ↦ absurd (let h' = rw (gone, find_entry) at h in cc)
  | inr (i, at) ↦
      let (j, same, lt, valid, page, before) = find_in_tlb_lem t vpn 0 i at in
      let reads : found (in_tlb i) (get_or t i no_entry) ≡ found place entry =
        rw (at, find_entry) at h in
      let index : j ≡ i = omega arith in
      subst (Described m vpn) reads (
        subst (λ k. Described m vpn (found (in_tlb k) (get_or t k no_entry))) index
          ((page, f, (t, e, lt, refl, before)), valid))
]

-- A translation that succeeds is of an aligned address; its entry is valid and stands in the page
-- table at the page's index, below the table's size, or in the TLB as the first valid entry for
-- the page; a write needs an entry that is not read-only; the address is frame * PageSize +
-- offset, with a frame in range and the whole access within main memory, and the machine differs
-- only in the use and dirty bits of that entry.
pub translate-Maps :
    (m : Machine) (addr size : ℕ) (writing : Bool) (pa : ℕ) (m' : Machine)
    → translate m addr size writing ≡ done pa m'
    → Maps m addr size writing pa m'
translate-Maps m addr size writing pa m' h =
    let t : Translated m addr size writing pa m' =
      translate-Translated m addr size writing pa m' h in
    let (holds, valid) =
      find_entry_lem m (addr / page_size) m.tlb m.page_table t.place t.entry refl refl t.is_found in
    record {
      place = t.place;
      entry = t.entry;
      aligned_4 = λ s. ground (arith, t.is_aligned);
      aligned_2 = λ s. ground (arith, t.is_aligned);
      holds = holds;
      is_valid = valid;
      writable = λ w. ground (arith, t.allowed);
      is_frame = t.is_frame;
      address = t.address;
      in_memory = t.in_memory;
      machine = t.machine;
    }
