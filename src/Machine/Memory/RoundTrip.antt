-- ===== src/Machine/Memory/RoundTrip.antt =====
-- WriteMem and then ReadMem of code/machine/translate.cc at one address.
use nachos.Prelude.{
  ℕ, ◌+◌, ◌-◌, ◌*◌, ◌%◌, ◌^◌, ◌≤◌, ◌<◌, ◌≡◌, refl, inl, inr, true, false, some, arith,
  if◌then◌else◌, ◌==◌, ltb, Option-cases,
}
use nachos.Machine.{
  Machine, ExceptionType, TranslationEntry, page_size, num_phys_pages, memory_size,
}
use nachos.Machine.Memory.{
  Access, done, fault, Place, in_page_table, in_tlb, put_entry, use_entry, after_lookup, translate,
  load_bytes, store_bytes, MemResult, value, failed, read_at, read_mem, write_at, write_mem,
}
use nachos.Machine.Memory.Laws.{Translated, touched, translate-Translated, IsSize}
use nachos.Machine.Memory.Again.{found_again}

-- The int that is read back: one byte as a signed char.
abbrev pub read_back : ℕ → ℕ → ℕ
read_back size v =
    if size == 1
    then (if ltb (v % 2 ^ 8) 128 then v % 2 ^ 8 else v % 2 ^ 8 + (2 ^ 32 - 2 ^ 8))
    else v % 2 ^ (8 * size)

load-store :
    (mem mem' : ℕ → ℕ) (a size v : ℕ)
    → IsSize size
    → store_bytes mem a size v ≡ some mem'
    → load_bytes mem' a size ≡ some (read_back size v)
unfolding load_bytes store_bytes
load-store mem mem' a size v (inl e) h = rw e (ground arith)
load-store mem mem' a size v (inr (inl e)) h = rw e (ground arith)
load-store mem mem' a size v (inr (inr e)) h = rw e (ground arith)

use_entry-reads :
    (m : Machine) (p : Place) (e : TranslationEntry) (offset size pa : ℕ)
    → e.physical_page < num_phys_pages
    → pa ≡ e.physical_page * page_size + offset
    → pa + size ≤ memory_size
    → use_entry m p e offset size false ≡ done pa (put_entry m p (touched e false))
unfolding use_entry
use_entry-reads m p e offset size pa frame addr inside = ground arith

same_memory-put_entry :
    (m : Machine) (p : Place) (e : TranslationEntry) → (put_entry m p e).main_memory ≡ m.main_memory
same_memory-put_entry m (in_page_table i) e = refl
same_memory-put_entry m (in_tlb i) e = refl

-- The same address translates again, for reading, to the same place, whatever the memory holds.
translate-again :
    (m m' : Machine) (addr size pa : ℕ) (mem : ℕ → ℕ)
    → Translated m addr size true pa m'
    → (m'' : Machine) × (translate (record m' { main_memory = mem }) addr size false ≡ done pa m'')
      × (m''.main_memory ≡ mem)
unfolding translate after_lookup
translate-again m m' addr size pa mem t = (
  put_entry n t.place (touched (touched t.entry true) false),
  rw (t.is_aligned, found_again t)
      (use_entry-reads n t.place (touched t.entry true) (addr % page_size) size pa t.is_frame
        t.address t.in_memory),
  same_memory-put_entry n t.place (touched (touched t.entry true) false),
)
  where
    n : Machine
    n = record m' { main_memory = mem }

module _ (m m' : Machine) (addr size v : ℕ) where
  write_abort : write_at Access.abort m addr size v ≡ value tt m' → ⊥
  unfolding write_at
  write_abort w = cc

  write_fault : (x : ExceptionType) → write_at (fault x) m addr size v ≡ value tt m' → ⊥
  unfolding write_at
  write_fault x w = cc

  write_done :
      (pa : ℕ) (m1 : Machine)
      → write_at (done pa m1) m addr size v ≡ value tt m'
      → (mem : ℕ → ℕ) × (store_bytes m1.main_memory pa size v ≡ some mem)
        × (m' ≡ record m1 { main_memory = mem })
  unfolding write_at
  write_done pa m1 w = elim (Option-cases (store_bytes m1.main_memory pa size v)) [
    | inl e ↦ absurd (bad (rw (e, write_at) at w))
    | inr (mem, e) ↦ (mem, e, good mem (rw (e, write_at) at w))
  ]
    where
      bad : ◌≡◌ {A = MemResult (Unit {0})} failed (value tt m') → ⊥
      bad x = cc

      good :
          (mem : ℕ → ℕ)
          → ◌≡◌ {A = MemResult (Unit {0})}
              (value tt (record m1 { main_memory = mem }))
              (value tt m')
          → m' ≡ record m1 { main_memory = mem }
      good mem x = cc

-- What a WriteMem that returns TRUE has done.
pub write_mem-value :
    (m m' : Machine) (addr size v : ℕ)
    → write_mem m addr size v ≡ value tt m'
    → (pa : ℕ) × (m1 : Machine) × (mem : ℕ → ℕ) × (translate m addr size true ≡ done pa m1)
      × (store_bytes m1.main_memory pa size v ≡ some mem)
      × (m' ≡ record m1 { main_memory = mem })
unfolding write_mem
write_mem-value m m' addr size v h = after (translate m addr size true) refl h
  where
    after :
        (a : Access ℕ)
        → translate m addr size true ≡ a
        → write_at a m addr size v ≡ value tt m'
        → (pa : ℕ) × (m1 : Machine) × (mem : ℕ → ℕ) × (translate m addr size true ≡ done pa m1)
          × (store_bytes m1.main_memory pa size v ≡ some mem)
          × (m' ≡ record m1 { main_memory = mem })
    after Access.abort e w = absurd (write_abort m m' addr size v w)
    after (fault x) e w = absurd (write_fault m m' addr size v x w)
    after (done pa m1) e w =
        let (mem, st, eq) = write_done m m' addr size v pa m1 w in (pa, m1, mem, e, st, eq)

-- After a WriteMem of 1, 2 or 4 bytes that returns TRUE, ReadMem at the same address and size
-- returns TRUE and the value cut to the size, a single byte with its sign.
pub read_mem-write_mem :
    (m m' : Machine) (addr size v : ℕ)
    → IsSize size
    → write_mem m addr size v ≡ value tt m'
    → (m'' : Machine) × (read_mem m' addr size ≡ value (read_back size v) m'')
unfolding read_mem read_at
read_mem-write_mem m m' addr size v z h =
    let (pa, m1, mem, t, st, eq) = write_mem-value m m' addr size v h in
    let (m2, again, same) =
      translate-again m m1 addr size pa mem (translate-Translated m addr size true pa m1 t) in
    (m2, rw (eq, again, read_at) (rw (same, load-store m1.main_memory mem pa size v z st) refl))
