-- ===== src/Machine/Memory/Laws.antt =====
-- Machine::Translate of code/machine/translate.cc, and the bytes of the main memory.
use nachos.Prelude.{
  ℕ, ◌+◌, ◌*◌, ◌/◌, ◌%◌, ◌≤◌, ◌<◌, ◌≡◌, refl, ◌≢◌, ◌⊎◌, inl, inr, Bool, true, false, ◌&&◌, ◌||◌,
  none, some, List, arith, Bool-cases,
}
use nachos.Machine.{
  Machine, TranslationEntry, page_size, num_phys_pages, memory_size, address_error_exception,
}
use nachos.Machine.Memory.{
  Access, done, fault, Place, Lookup, found, missing, both_or_none, find_entry, put_entry,
  misaligned, use_entry, after_lookup, translate,
}

-- The entry with its use bit set, and its dirty bit for a write.
abbrev pub touched : TranslationEntry → Bool → TranslationEntry
touched e writing = record e { use_bit = true; dirty = writing || e.dirty }

-- A translation to pa that leaves the machine m': the entry that was found allows the access, its
-- frame and the offset in the page make up pa, the bytes from there are in memory, and nothing but
-- the use and dirty bits of the entry has changed.
pub record Translated (m : Machine) (addr size : ℕ) (writing : Bool) (pa : ℕ) (m' : Machine)
    : Type 0 where
  pub place : Place
  pub entry : TranslationEntry
  pub is_aligned : misaligned size addr ≡ false
  pub is_found :
      find_entry m.tlb m.page_table m.page_table_size (addr / page_size) ≡ found place entry
  pub allowed : (entry.read_only && writing) ≡ false
  pub is_frame : entry.physical_page < num_phys_pages
  pub address : pa ≡ entry.physical_page * page_size + addr % page_size
  pub in_memory : pa + size ≤ memory_size
  pub machine : m' ≡ put_entry m place (touched entry writing)

use_entry-done :
    (m : Machine) (p : Place) (e : TranslationEntry) (offset size : ℕ) (writing : Bool) (pa : ℕ)
    (m' : Machine)
    → use_entry m p e offset size writing ≡ done pa m'
    → ((e.read_only && writing) ≡ false)
      × (e.physical_page < num_phys_pages)
      × (pa ≡ e.physical_page * page_size + offset)
      × (pa + size ≤ memory_size)
      × (m' ≡ put_entry m p (touched e writing))
unfolding use_entry
use_entry-done m p e offset size writing pa m' h =
    (ground arith, ground arith, ground arith, ground arith, ground arith)

after_lookup-Translated :
    (l : Lookup) (m : Machine) (addr size : ℕ) (writing : Bool) (pa : ℕ) (m' : Machine)
    → misaligned size addr ≡ false
    → find_entry m.tlb m.page_table m.page_table_size (addr / page_size) ≡ l
    → after_lookup l m addr size writing ≡ done pa m'
    → Translated m addr size writing pa m'
unfolding after_lookup
after_lookup-Translated both_or_none m addr size writing pa m' al e h = cc
after_lookup-Translated (missing x) m addr size writing pa m' al e h = cc
after_lookup-Translated (found p x) m addr size writing pa m' al e h =
    let (ro, frame, addr_eq, inside, m_eq) =
      use_entry-done m p x (addr % page_size) size writing pa m' h in
    record {
      place = p;
      entry = x;
      is_aligned = al;
      is_found = e;
      allowed = ro;
      is_frame = frame;
      address = addr_eq;
      in_memory = inside;
      machine = m_eq;
    }

-- Each translation that succeeds is one through an entry that allows it, into main memory.
pub translate-Translated :
    (m : Machine) (addr size : ℕ) (writing : Bool) (pa : ℕ) (m' : Machine)
    → translate m addr size writing ≡ done pa m'
    → Translated m addr size writing pa m'
unfolding translate
translate-Translated m addr size writing pa m' h = elim (Bool-cases (misaligned size addr)) [
  | inl bad ↦ absurd (ne-done (rw bad at h))
  | inr good ↦ after_lookup-Translated _ m addr size writing pa m' good refl (rw good at h)
]
  where
    ne-done : fault address_error_exception ≡ done pa m' → ⊥
    ne-done e = cc

-- Exactly one of the two tables is there.
abbrev pub HasOneTable : Machine → Type 0
HasOneTable m =
    ((m.tlb ≡ none) × (p : List TranslationEntry) × (m.page_table ≡ some p))
    ⊎ ((m.page_table ≡ none) × (t : List TranslationEntry) × (m.tlb ≡ some t))

abbrev pub IsSize : ℕ → Type 0
IsSize size = (size ≡ 1) ⊎ ((size ≡ 2) ⊎ (size ≡ 4))

use_entry-ne-abort :
    (m : Machine) (p : Place) (e : TranslationEntry) (addr size : ℕ) (writing : Bool)
    → IsSize size
    → misaligned size addr ≡ false
    → use_entry m p e (addr % page_size) size writing ≢ Access.abort
unfolding use_entry
use_entry-ne-abort m p e addr size writing z al = ground arith

find_entry-ne-both_or_none :
    (m : Machine) (vpn : ℕ)
    → HasOneTable m
    → find_entry m.tlb m.page_table m.page_table_size vpn ≢ both_or_none
unfolding find_entry
find_entry-ne-both_or_none m vpn (inl (e, p, f)) = rw (e, f) (ground arith)
find_entry-ne-both_or_none m vpn (inr (e, t, f)) = rw (e, f) (ground arith)

after_lookup-ne-abort :
    (l : Lookup) (m : Machine) (addr size : ℕ) (writing : Bool)
    → l ≢ both_or_none
    → IsSize size
    → misaligned size addr ≡ false
    → after_lookup l m addr size writing ≢ Access.abort
unfolding after_lookup
after_lookup-ne-abort both_or_none m addr size writing ne z al = absurd (ne refl)
after_lookup-ne-abort (missing x) m addr size writing ne z al = ground arith
after_lookup-ne-abort (found p x) m addr size writing ne z al =
    use_entry-ne-abort m p x addr size writing z al

-- With exactly one of the two tables and a size of 1, 2 or 4, no ASSERT of Translate fails.
pub translate-ne-abort :
    (m : Machine) (addr size : ℕ) (writing : Bool)
    → HasOneTable m
    → IsSize size
    → translate m addr size writing ≢ Access.abort
unfolding translate
translate-ne-abort m addr size writing one z = elim (Bool-cases (misaligned size addr)) [
  | inl bad ↦ rw bad (ground arith)
  | inr good ↦ rw good (
      after_lookup-ne-abort _ m addr size writing
        (find_entry-ne-both_or_none m (addr / page_size) one) z good)
]
