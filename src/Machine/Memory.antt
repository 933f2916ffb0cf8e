-- ===== src/Machine/Memory.antt =====
-- code/machine/translate.cc: virtual memory. The host is little endian, so WordToHost and its
-- like change nothing.
pub mod Laws
pub mod Again
pub mod RoundTrip
pub mod Maps
use nachos.Prelude.{ℕ, zero, suc, ◌+◌, ◌-◌, ◌*◌, ◌/◌, ◌%◌, ◌^◌, Bool, true, false, not, ◌&&◌, ◌||◌}
use nachos.Prelude.{List, [], ◌∷◌, Option, none, some, if◌then◌else◌, ◌==◌, ltb, leb, get_or, set}
use mathlib.Core.Option
use nachos.Machine.{
  ExceptionType, no_exception, page_fault_exception, read_only_exception, bus_error_exception,
  address_error_exception, TranslationEntry, Machine, update, raise_exception, page_size,
  num_phys_pages, memory_size,
}

-- A memory access returns, is refused with an exception, or fails an ASSERT.
pub data Access {ℓ} (A : Type ℓ) : Type ℓ where
  done : A → Machine → Access A
  fault : ExceptionType → Access A
  abort : Access A

-- Where the entry stands that translates a page: in the page table or in the TLB.
pub data Place : Type 0 where
  in_page_table in_tlb : ℕ → Place

abbrev pub no_entry : TranslationEntry
no_entry = record {
  virtual_page = 0;
  physical_page = 0;
  valid = false;
  read_only = false;
  use_bit = false;
  dirty = false;
}

-- The loop over the TLB, from entry i on.
unfoldable pub find_in_tlb : List TranslationEntry → ℕ → ℕ → Option ℕ
find_in_tlb [] vpn i = none
find_in_tlb (e ∷ es) vpn i =
    if e.valid && (e.virtual_page == vpn) then some i else find_in_tlb es vpn (i + 1)

pub data Lookup : Type 0 where
  found : Place → TranslationEntry → Lookup
  missing : ExceptionType → Lookup
  both_or_none : Lookup

-- The entry for a virtual page, or the exception.
unfoldable pub find_entry :
    Option (List TranslationEntry) → Option (List TranslationEntry) → ℕ → ℕ → Lookup
find_entry (some t) (some p) size vpn = both_or_none
find_entry none none size vpn = both_or_none
find_entry none (some p) size vpn =
    if leb size vpn
    then missing address_error_exception
    else if not (get_or p vpn no_entry).valid
    then missing page_fault_exception
    else found (in_page_table vpn) (get_or p vpn no_entry)
find_entry (some t) none size vpn = elim (find_in_tlb t vpn 0) [
  | none ↦ missing page_fault_exception
  | some i ↦ found (in_tlb i) (get_or t i no_entry)
]

abbrev pub put_entry : Machine → Place → TranslationEntry → Machine
put_entry m (in_page_table i) e = record m { page_table = Option.map (λ p. set p i e) m.page_table }
put_entry m (in_tlb i) e = record m { tlb = Option.map (λ t. set t i e) m.tlb }

abbrev pub misaligned : ℕ → ℕ → Bool
misaligned size addr = ((size == 4) && not (addr % 4 == 0)) || ((size == 2) && not (addr % 2 == 0))

-- What is done with the entry: the checks, the use and dirty bits, the physical address.
unfoldable pub use_entry : Machine → Place → TranslationEntry → ℕ → ℕ → Bool → Access ℕ
use_entry m place entry offset size writing =
    if entry.read_only && writing
    then fault read_only_exception
    else if leb num_phys_pages entry.physical_page
    then fault bus_error_exception
    else (let phys_addr = entry.physical_page * page_size + offset in
        let used = record entry { use_bit = true; dirty = writing || entry.dirty } in
        if leb (phys_addr + size) memory_size
        then done phys_addr (put_entry m place used)
        else abort)

-- The rest of Translate, once the entry has been looked up.
unfoldable pub after_lookup : Lookup → Machine → ℕ → ℕ → Bool → Access ℕ
after_lookup both_or_none m virt_addr size writing = abort
after_lookup (missing e) m virt_addr size writing = fault e
after_lookup (found place entry) m virt_addr size writing =
    use_entry m place entry (virt_addr % page_size) size writing

unfoldable pub translate : Machine → ℕ → ℕ → Bool → Access ℕ
translate m virt_addr size writing =
    if misaligned size virt_addr
    then fault address_error_exception
    else after_lookup (find_entry m.tlb m.page_table m.page_table_size (virt_addr / page_size)) m
        virt_addr size writing

-- The int that the bytes at an address make up; a single one is a signed char. There is no other
-- size (ASSERT(FALSE)).
unfoldable pub load_bytes : (ℕ → ℕ) → ℕ → ℕ → Option ℕ
load_bytes mem a size =
    if size == 1
    then some (if ltb (mem a) 128 then mem a else mem a + (2 ^ 32 - 2 ^ 8))
    else if size == 2
    then some (mem a + 2 ^ 8 * mem (a + 1))
    else if size == 4
    then some (mem a + 2 ^ 8 * mem (a + 1) + 2 ^ 16 * mem (a + 2) + 2 ^ 24 * mem (a + 3))
    else none

-- `x & 0xff` of the k-th byte of a word
abbrev pub byte_of : ℕ → ℕ → ℕ
byte_of value k = value / 2 ^ (8 * k) % 2 ^ 8

unfoldable pub store_bytes : (ℕ → ℕ) → ℕ → ℕ → ℕ → Option (ℕ → ℕ)
store_bytes mem a size value =
    let b1 = update mem a (byte_of value 0) in
    let b2 = update b1 (a + 1) (byte_of value 1) in
    let b4 = update (update b2 (a + 2) (byte_of value 2)) (a + 3) (byte_of value 3) in
    if size == 1
    then some b1
    else if size == 2
    then some b2
    else if size == 4
    then some b4
    else none

-- ReadMem and WriteMem return TRUE with what they read, or FALSE after RaiseException.
pub data MemResult {ℓ} (A : Type ℓ) : Type ℓ where
  value : A → Machine → MemResult A
  raised : ExceptionType → Machine → MemResult A
  failed : MemResult A

unfoldable pub read_at : Access ℕ → Machine → ℕ → ℕ → MemResult ℕ
read_at abort m addr size = failed
read_at (fault e) m addr size = raised e (raise_exception m addr)
read_at (done pa m') m addr size = elim (load_bytes m'.main_memory pa size) [
  | none ↦ failed
  | some loaded ↦ value loaded m'
]

unfoldable pub read_mem : Machine → ℕ → ℕ → MemResult ℕ
read_mem m addr size = read_at (translate m addr size false) m addr size

unfoldable pub write_at : Access ℕ → Machine → ℕ → ℕ → ℕ → MemResult (Unit {0})
write_at abort m addr size v = failed
write_at (fault e) m addr size v = raised e (raise_exception m addr)
write_at (done pa m') m addr size v = elim (store_bytes m'.main_memory pa size v) [
  | none ↦ failed
  | some mem ↦ value tt (record m' { main_memory = mem })
]

unfoldable pub write_mem : Machine → ℕ → ℕ → ℕ → MemResult (Unit {0})
write_mem m addr size v = write_at (translate m addr size true) m addr size v
