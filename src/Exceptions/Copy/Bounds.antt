-- ===== src/Exceptions/Copy/Bounds.antt =====
-- User2System and System2User of code/userprog/exception.cc: the kernel's buffer and the registers.
use nachos.Prelude.{
  ℕ, zero, suc, ◌+◌, ◌%◌, ◌^◌, ◌≤◌, ◌≡◌, refl, ap, ◌∙◌, inl, inr, Bool, true, false, List, [], ◌∷◌,
  ◌==◌, length, replicate, ltb_ℤ, length-replicate, ℤ, pos, negsuc, pos_part, ok, Option-cases,
  Bool-cases, ◌-◌, arith,
}
use nachos.Machine.{Machine}
use nachos.Machine.Word.{add32}
use nachos.Machine.Memory.{
  Access, done, fault, Place, in_page_table, in_tlb, put_entry, translate, load_bytes, store_bytes,
  MemResult, value, raised, failed, read_at, read_mem, write_at, write_mem,
}
use nachos.Machine.Memory.Laws.{Translated, touched, translate-Translated}
use nachos.Filesys.FileTable.{Name}
use nachos.Exceptions.{returns, halts, aborts, ◌>>=◌, c_string, Ends, Ends->>=, Ends-weaken}
use nachos.Exceptions.Copy.{copy_in, user2_system, int_of_char, copy_out, system2_user, copy_args}

abbrev pub SameRegisters : Machine → Machine → Type 0
SameRegisters m m' = m'.registers ≡ m.registers

put_entry_registers : (m : Machine) (p : Place) (e : _) → (put_entry m p e).registers ≡ m.registers
put_entry_registers m (in_page_table i) e = refl
put_entry_registers m (in_tlb i) e = refl

translate_registers :
    (m : Machine) (addr size : ℕ) (writing : Bool) (pa : ℕ) (m' : Machine)
    → translate m addr size writing ≡ done pa m'
    → SameRegisters m m'
translate_registers m addr size writing pa m' e =
    let t : Translated m addr size writing pa m' =
      translate-Translated m addr size writing pa m' e in
    ap (λ (x : Machine). x.registers) t.machine
    ∙ put_entry_registers m t.place (touched t.entry writing)

abbrev KeepsRegisters : {A : Type 0} → Machine → MemResult A → Type 0
KeepsRegisters m (value x m') = SameRegisters m m'
KeepsRegisters m (raised e m') = Unit {0}
KeepsRegisters m failed = Unit {0}

module _ (m : Machine) (addr size : ℕ) where
  read_at_registers :
      (a : Access ℕ)
      → ((pa : ℕ) (m' : Machine) → a ≡ done pa m' → SameRegisters m m')
      → KeepsRegisters m (read_at a m addr size)
  unfolding read_at
  read_at_registers Access.abort keep = tt
  read_at_registers (fault e) keep = tt
  read_at_registers (done pa m') keep = elim (Option-cases (load_bytes m'.main_memory pa size)) [
    | inl e ↦ rw (e, read_at) tt
    | inr (x, e) ↦ rw (e, read_at) (keep pa m' refl)
  ]

  read_mem_registers : KeepsRegisters m (read_mem m addr size)
  unfolding read_mem
  read_mem_registers =
      read_at_registers (translate m addr size false)
        (λ pa m' e. translate_registers m addr size false pa m' e)

  write_at_registers :
      (v : ℕ) (a : Access ℕ)
      → ((pa : ℕ) (m' : Machine) → a ≡ done pa m' → SameRegisters m m')
      → KeepsRegisters m (write_at a m addr size v)
  unfolding write_at
  write_at_registers v Access.abort keep = tt
  write_at_registers v (fault e) keep = tt
  write_at_registers v (done pa m') keep =
      elim (Option-cases (store_bytes m'.main_memory pa size v)) [
        | inl e ↦ rw (e, write_at) tt
        | inr (x, e) ↦ rw (e, write_at) (keep pa m' refl)
      ]

  write_mem_registers : (v : ℕ) → KeepsRegisters m (write_mem m addr size v)
  unfolding write_mem
  write_mem_registers v =
      write_at_registers v (translate m addr size true)
        (λ pa m' e. translate_registers m addr size true pa m' e)

-- A string of at most so many characters, with its NUL in the buffer.
abbrev pub IsTerminated : ℕ → List ℕ → Type 0
IsTerminated limit buffer = (name : Name) × (c_string buffer ≡ ok name) × (length name ≤ limit)

IsTerminated-cons : (n c : ℕ) (cs : List ℕ) → IsTerminated n cs → IsTerminated (suc n) (c ∷ cs)
IsTerminated-cons n zero cs (name, e, h) = ([], refl, omega arith)
IsTerminated-cons n (suc c) cs (name, e, h) = (suc c ∷ name, rw e refl, omega arith)

abbrev Copied : ℕ → Machine → List ℕ × Machine → Type 0
Copied limit m (buffer, m') =
    SameRegisters m m' × (length buffer ≡ limit + 1) × IsTerminated limit buffer

copy_in_lem : (limit : ℕ) (m : Machine) (addr : ℕ) → Ends (Copied limit m) (copy_in limit m addr)
unfolding copy_in
copy_in_lem zero m addr = (refl, refl, ([], refl, omega arith))
copy_in_lem (suc left) m addr =
    after (λ m' next. copy_in_lem left m' next) (read_mem m addr 1) (read_mem_registers m addr 1)
  where
    after_char :
        ((m' : Machine) (next : ℕ) → Ends (Copied left m') (copy_in left m' next))
        → (c : ℕ) (m' : Machine) (stop : Bool) → SameRegisters m m'
        → Ends (Copied (suc left) m) (elim stop [
          | true ↦ returns (replicate (suc (suc left)) 0, m')
          | false ↦
              copy_in left m' (add32 addr 1) >>= λ (rest, m''). returns (c % 2 ^ 8 ∷ rest, m'')
        ])
    after_char ih c m' true same =
        (same, length-replicate (suc (suc left)) 0 ∙ omega arith, ([], refl, omega arith))
    after_char ih c m' false same =
        Ends->>= (Copied left m') _ (copy_in left m' (add32 addr 1)) _ (ih m' (add32 addr 1))
          (λ (rest, m'') (kept, size, ended).
            (kept ∙ same, ap suc size ∙ omega arith, IsTerminated-cons left (c % 2 ^ 8) rest ended))

    after :
        ((m' : Machine) (next : ℕ) → Ends (Copied left m') (copy_in left m' next))
        → (r : MemResult ℕ) → KeepsRegisters m r
        → Ends (Copied (suc left) m) (elim r [
          | failed ↦ aborts
          | raised e m' ↦ halts
          | value one_char m' ↦ elim (one_char == 0) [
            | true ↦ returns (replicate (suc (suc left)) 0, m')
            | false ↦ copy_in left m' (add32 addr 1) >>= λ (rest, m'').
                returns (one_char % 2 ^ 8 ∷ rest, m'')
          ]
        ])
    after ih failed h = tt
    after ih (raised e m') h = tt
    after ih (value c m') h = after_char ih c m' (c == 0) h

abbrev pub Buffered : Machine → ℤ → List ℕ × Machine → Type 0
Buffered m (pos limit) (buffer, m') = Copied limit m (buffer, m')
Buffered m (negsuc n) (buffer, m') = SameRegisters m m' × (buffer ≡ [])

-- When User2System with a limit of 0 or more comes back, its buffer has limit + 1 bytes, a NUL
-- among them with at most limit characters before it, and the registers are as before; with the
-- limit -1 the buffer is empty.
pub user2_system_lem :
    (m : Machine) (virt_addr : ℕ) (limit : ℤ)
    → Ends (Buffered m limit) (user2_system m virt_addr limit)
unfolding user2_system
user2_system_lem m virt_addr (pos limit) = elim (Bool-cases (limit == 2 ^ 31 - 1)) [
  | inl e ↦ rw e tt
  | inr e ↦ rw e (copy_in_lem limit m virt_addr)
]
user2_system_lem m virt_addr (negsuc zero) = (refl, refl)
user2_system_lem m virt_addr (negsuc (suc n)) = tt

abbrev pub SameAfter : {A : Type 0} → Machine → A × Machine → Type 0
SameAfter m (x, m') = SameRegisters m m'

pub user2_system_registers :
    (m : Machine) (virt_addr : ℕ) (limit : ℤ) → Ends (SameAfter m) (user2_system m virt_addr limit)
user2_system_registers m virt_addr (pos limit) =
    Ends-weaken (user2_system m virt_addr (pos limit)) (user2_system_lem m virt_addr (pos limit))
      (λ x h. h.0)
user2_system_registers m virt_addr (negsuc n) =
    Ends-weaken (user2_system m virt_addr (negsuc n)) (user2_system_lem m virt_addr (negsuc n))
      (λ x h. h.0)

copy_out_registers :
    (left i : ℕ) (m : Machine) (addr : ℕ) (buffer : List ℕ)
    → Ends (SameAfter m) (copy_out left i m addr buffer)
unfolding copy_out
copy_out_registers zero i m addr buffer = refl
copy_out_registers (suc left) i m addr [] = tt
copy_out_registers (suc left) i m addr (c ∷ cs) =
    after (λ m' next. copy_out_registers left (i + 1) m' next cs)
      (write_mem m addr 1 (int_of_char c)) (write_mem_registers m addr 1 (int_of_char c))
  where
    after_byte :
        ((m' : Machine) (next : ℕ) → Ends (SameAfter m') (copy_out left (i + 1) m' next cs))
        → (m' : Machine) (stop : Bool) → SameRegisters m m'
        → Ends (SameAfter m) (elim stop [
          | true ↦ returns (pos (i + 1), m')
          | false ↦ copy_out left (i + 1) m' (add32 addr 1) cs
        ])
    after_byte ih m' true same = same
    after_byte ih m' false same =
        Ends-weaken (copy_out left (i + 1) m' (add32 addr 1) cs) (ih m' (add32 addr 1))
          (λ x h. h ∙ same)

    after :
        ((m' : Machine) (next : ℕ) → Ends (SameAfter m') (copy_out left (i + 1) m' next cs))
        → (r : MemResult (Unit {0})) → KeepsRegisters m r
        → Ends (SameAfter m) (elim r [
          | failed ↦ aborts
          | raised e m' ↦ halts
          | value x m' ↦ elim (c == 0) [
            | true ↦ returns (pos (i + 1), m')
            | false ↦ copy_out left (i + 1) m' (add32 addr 1) cs
          ]
        ])
    after ih failed h = tt
    after ih (raised e m') h = tt
    after ih (value x m') h = after_byte ih m' (c == 0) h

pub system2_user_registers :
    (m : Machine) (virt_addr : ℕ) (len : ℤ) (buffer : List ℕ)
    → Ends (SameAfter m) (system2_user m virt_addr len buffer)
unfolding system2_user
system2_user_registers m virt_addr len buffer = elim (Bool-cases (ltb_ℤ len (pos 0))) [
  | inl e ↦ rw e refl
  | inr e ↦ rw e (copy_out_registers (pos_part len) 0 m virt_addr buffer)
]

-- User2System2 keeps the registers too.
copy_args_at :
    (m : Machine) (left : ℕ) (addr : ℕ) (limit : ℤ) (r : MemResult ℕ)
    → ((m' : Machine) (next : ℕ) → Ends (SameAfter m') (copy_args left m' next limit))
    → KeepsRegisters m r
    → Ends (SameAfter m) (elim r [
      | failed ↦ aborts
      | raised e m' ↦ halts
      | value arg m' ↦ user2_system m' arg limit >>= λ (buffer, m1).
          (copy_args left m1 (add32 addr 4) limit >>= λ (rest, m2). returns (buffer ∷ rest, m2))
    ])
copy_args_at m left addr limit failed ih h = tt
copy_args_at m left addr limit (raised e m') ih h = tt
copy_args_at m left addr limit (value arg m') ih h =
    Ends->>= (SameAfter m') _ (user2_system m' arg limit) _ (user2_system_registers m' arg limit)
      (λ (buffer, m1) e.
        Ends->>= (SameAfter m1) _ (copy_args left m1 (add32 addr 4) limit) _ (ih m1 (add32 addr 4))
          (λ (rest, m2) e2. e2 ∙ e ∙ h))

pub copy_args_registers :
    (left : ℕ) (m : Machine) (addr : ℕ) (limit : ℤ)
    → Ends (SameAfter m) (copy_args left m addr limit)
unfolding copy_args
copy_args_registers zero m addr limit = refl
copy_args_registers (suc left) m addr limit =
    copy_args_at m left addr limit (read_mem m addr 4)
      (λ m' next. copy_args_registers left m' next limit) (read_mem_registers m addr 4)
