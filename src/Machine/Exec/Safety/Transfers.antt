-- ===== src/Machine/Exec/Safety/Transfers.antt =====
-- The cases of the switch of code/machine/mipssim.cc that begin with ReadMem or go on with WriteMem,
-- code/machine/translate.cc, and the ranges of words and bytes.
use nachos.Prelude.{
  ℕ, ◌+◌, ◌^◌, ◌<◌, ◌≡◌, refl, sym, subst, inl, inr, Bool, true, false, none, some, arith,
  Option-cases,
}
use nachos.Machine.{Machine, TranslationEntry}
use nachos.Machine.Memory.{
  Access, done, fault, Place, in_page_table, in_tlb, put_entry, translate, load_bytes, store_bytes,
  value, failed, read_at, read_mem, write_at, write_mem,
}
use nachos.Machine.Memory.Laws.{Translated, translate-Translated}
use nachos.Machine.Exec.Effect.{Effect, ◌>>=◌ as bind}
use nachos.Machine.Exec.Safety.{IsValid, IsSafe, raise_exception-IsValid}

load_bytes-lt :
    (mem : ℕ → ℕ) (a size v : ℕ)
    → ((k : ℕ) → mem k < 2 ^ 8)
    → load_bytes mem a size ≡ some v
    → v < 2 ^ 32
unfolding load_bytes
load_bytes-lt mem a size v bytes h =
    ground (arith, bytes a, bytes (a + 1), bytes (a + 2), bytes (a + 3))

store_bytes-lt :
    (mem mem' : ℕ → ℕ) (a size v : ℕ)
    → ((k : ℕ) → mem k < 2 ^ 8)
    → store_bytes mem a size v ≡ some mem'
    → (k : ℕ) → mem' k < 2 ^ 8
unfolding store_bytes
store_bytes-lt mem mem' a size v bytes h k = ground (arith, bytes k)

-- A translation keeps registers and memory.
put_entry-IsValid :
    (m : Machine) (p : Place) (e : TranslationEntry)
    → IsValid m
    → IsValid (put_entry m p e) × ((put_entry m p e).registers ≡ m.registers)
put_entry-IsValid m (in_page_table i) e v =
    (record { words = v.words; target = v.target; bytes = v.bytes }, refl)
put_entry-IsValid m (in_tlb i) e v =
    (record { words = v.words; target = v.target; bytes = v.bytes }, refl)

translate-IsValid :
    {m m1 : Machine} {addr size pa : ℕ} {writing : Bool}
    → IsValid m
    → Translated m addr size writing pa m1
    → IsValid m1 × (m1.registers ≡ m.registers)
translate-IsValid {m} v t =
    subst (λ m1. IsValid m1 × (m1.registers ≡ m.registers)) (sym t.machine)
      (put_entry-IsValid m t.place _ v)

-- ReadMem and WriteMem once the address is known.
module _ (m m1 : Machine) (addr size pa : ℕ) where
  read_at-none :
      load_bytes m1.main_memory pa size ≡ none → read_at (done pa m1) m addr size ≡ failed
  unfolding read_at
  read_at-none e = rw (e, read_at) refl

  read_at-some :
      (v : ℕ)
      → load_bytes m1.main_memory pa size ≡ some v
      → read_at (done pa m1) m addr size ≡ value v m1
  unfolding read_at
  read_at-some v e = rw (e, read_at) refl

  write_at-none :
      (w : ℕ)
      → store_bytes m1.main_memory pa size w ≡ none
      → write_at (done pa m1) m addr size w ≡ failed
  unfolding write_at
  write_at-none w e = rw (e, write_at) refl

  write_at-some :
      (w : ℕ) (mem : ℕ → ℕ)
      → store_bytes m1.main_memory pa size w ≡ some mem
      → write_at (done pa m1) m addr size w ≡ value tt (record m1 { main_memory = mem })
  unfolding write_at
  write_at-some w mem e = rw (e, write_at) refl

-- A case that begins with ReadMem.
module _ {m : Machine} (ok_m : IsValid m) (addr size : ℕ) (addr_word : addr < 2 ^ 32)
    (k : ℕ → Machine → Effect)
    (goes_on : (v : ℕ) (m1 : Machine)
      → v < 2 ^ 32
      → IsValid m1
      → m1.registers ≡ m.registers
      → IsSafe m (k v m1)) where
  read_at-IsSafe :
      (a : Access ℕ) → translate m addr size false ≡ a → IsSafe m (bind (read_at a m addr size) k)
  unfolding read_at
  read_at-IsSafe Access.abort e = tt
  read_at-IsSafe (fault x) e = raise_exception-IsValid ok_m addr addr_word
  read_at-IsSafe (done pa m1) e =
      let (valid, same) = translate-IsValid ok_m (translate-Translated m addr size false pa m1 e) in
      elim (Option-cases (load_bytes m1.main_memory pa size)) [
        | inl n ↦ subst (λ r. IsSafe m (bind r k)) (sym (read_at-none m m1 addr size pa n)) tt
        | inr (v, l) ↦
            subst (λ r. IsSafe m (bind r k)) (sym (read_at-some m m1 addr size pa v l))
              (goes_on v m1 (load_bytes-lt m1.main_memory pa size v valid.bytes l) valid same)
      ]

  pub read_mem-IsSafe : IsSafe m (bind (read_mem m addr size) k)
  unfolding read_mem
  read_mem-IsSafe = read_at-IsSafe (translate m addr size false) refl

-- A case that goes on with WriteMem.
module _ {m : Machine} (m0 : Machine) (ok_m : IsValid m) (addr size w : ℕ)
    (addr_word : addr < 2 ^ 32) (k : Unit {0} → Machine → Effect)
    (goes_on : (m1 : Machine) → IsValid m1 → m1.registers ≡ m.registers → IsSafe m0 (k tt m1)) where
  write_at-IsSafe :
      (a : Access ℕ)
      → translate m addr size true ≡ a
      → IsSafe m0 (bind (write_at a m addr size w) k)
  unfolding write_at
  write_at-IsSafe Access.abort e = tt
  write_at-IsSafe (fault x) e = raise_exception-IsValid ok_m addr addr_word
  write_at-IsSafe (done pa m1) e =
      let (valid, same) = translate-IsValid ok_m (translate-Translated m addr size true pa m1 e) in
      elim (Option-cases (store_bytes m1.main_memory pa size w)) [
        | inl n ↦ subst (λ r. IsSafe m0 (bind r k)) (sym (write_at-none m m1 addr size pa w n)) tt
        | inr (mem, s) ↦
            subst (λ r. IsSafe m0 (bind r k)) (sym (write_at-some m m1 addr size pa w mem s))
              (goes_on (record m1 { main_memory = mem })
                (record {
                  words = valid.words;
                  target = valid.target;
                  bytes = store_bytes-lt m1.main_memory mem pa size w valid.bytes s;
                })
                same)
      ]

  pub write_mem-IsSafe : IsSafe m0 (bind (write_mem m addr size w) k)
  unfolding write_mem
  write_mem-IsSafe = write_at-IsSafe (translate m addr size true) refl
