-- ===== src/Exceptions/Handler/Asks.antt =====
-- The calls of code/userprog/exception.cc that go to PTable and STable.
use nachos.Prelude.{ℕ, ◌≡◌, ◌∙◌, ap, refl, Bool, true, false, not, if◌then◌else◌, ℤ, pos_part}
use nachos.Filesys.FileTable.{Name, failed, eq_ℤ, Unix, open_for_read_write}
use nachos.Exceptions.{
  word_of, increase_pc, Outcome, returns, halts, aborts, ◌>>=◌, lift, c_string, Kernel, Request,
  exec_update, exec_v_update, join_update, exit_update, create, wait, signal, Served, goes_on, asks,
  Ends, Ends->>=, Ends-lift,
}
use nachos.Exceptions.Copy.{copy_args}
use nachos.Exceptions.Copy.Bounds.{copy_args_registers}
use nachos.Exceptions.Calls.{
  answered, pattern_arg, int_arg, max_length, write_result, next_instruction, name_at, first_arg,
  sys_exec, exec_call, exec_v_call, join_call, exit_call, create_semaphore_call, wait_call,
  signal_call,
}
use nachos.Exceptions.Handler.Keeps.{Agrees, Kept, regs, next_instruction-Advances, name_at-Kept}
use nachos.Exceptions.Handler.Cases.{Next, same, answered_next}

-- The requests of a call with a name.
abbrev pub Named : (Name → Request) → Request → Type 0
Named f request = (n : Name) × (request ≡ f n)

-- What register 2 holds after the answer of a table.
abbrev pub answer_word : ℤ → Request → ℤ → ℕ → ℕ
answer_word left_over (exit_update code) result old = old
answer_word left_over (exec_v_update n) result old = word_of left_over
answer_word left_over other result old = word_of result

module _ {S : Type 0} where
  -- The program goes on behind the call, or a table is called with the program's registers as they
  -- were; once it has given a result, the program goes on behind the call with it in register 2.
  abbrev pub Ended : ℤ → (Request → Type 0) → Kernel S → Served S → Type 0
  Ended left_over Asked k (goes_on k') = Next k k'
  Ended left_over Asked k (asks request k1) =
      Asked request
      × Agrees (regs k) (regs k1)
      × ((result : ℤ) (k2 : Kernel S)
          → Next k2 (answered left_over request result k2)
            × ((answered left_over request result k2).machine.registers 2
                ≡ answer_word left_over request result (k2.machine.registers 2)))

  answered_request :
      (left_over : ℤ) (request : Request) (result : ℤ) (k : Kernel S)
      → Next k (answered left_over request result k)
  unfolding answered
  answered_request left_over (exit_update code) result k =
      next_instruction-Advances (regs k) k (same k)
  answered_request left_over (exec_v_update n) result k = answered_next k k left_over (same k)
  answered_request left_over (exec_update n) result k = answered_next k k result (same k)
  answered_request left_over (join_update id) result k = answered_next k k result (same k)
  answered_request left_over (create n value) result k = answered_next k k result (same k)
  answered_request left_over (wait n) result k = answered_next k k result (same k)
  answered_request left_over (signal n) result k = answered_next k k result (same k)

  answered_word :
      (left_over : ℤ) (request : Request) (result : ℤ) (k : Kernel S)
      → (answered left_over request result k).machine.registers 2
        ≡ answer_word left_over request result (k.machine.registers 2)
  unfolding answered write_result next_instruction increase_pc
  answered_word left_over (exit_update code) result k = refl
  answered_word left_over (exec_v_update n) result k = refl
  answered_word left_over (exec_update n) result k = refl
  answered_word left_over (join_update id) result k = refl
  answered_word left_over (create n value) result k = refl
  answered_word left_over (wait n) result k = refl
  answered_word left_over (signal n) result k = refl

  asked :
      (left_over : ℤ) (Asked : Request → Type 0) (k : Kernel S) (request : Request) (k1 : Kernel S)
      → Asked request
      → Agrees (regs k) (regs k1)
      → Ended left_over Asked k (asks request k1)
  asked left_over Asked k request k1 a h = (
    a,
    h,
    λ result k2.
        (answered_request left_over request result k2, answered_word left_over request result k2),
  )

  pub back-Ended :
      (left_over : ℤ) (Asked : Request → Type 0) (k : Kernel S) (o : Outcome (Kernel S))
      → Ends (Next k) o
      → Ends (Ended left_over Asked k) (o >>= λ k'. returns (goes_on k'))
  back-Ended left_over Asked k o h = Ends->>= (Next k) _ o _ h (λ k' n. n)

  named :
      (left_over : ℤ) (Asked : Request → Type 0) (k : Kernel S) (f : Name → Request)
      → ((n : Name) → Asked (f n))
      → Ends
          (Ended left_over Asked k)
          (name_at k (pattern_arg k 4) max_length >>= λ (n, k1). returns (asks (f n) k1))
  named left_over Asked k f a =
      Ends->>= (Kept (regs k)) _ (name_at k (pattern_arg k 4) max_length) _
        (name_at-Kept (regs k) k (pattern_arg k 4) max_length (same k))
        (λ (n, k1) h. asked left_over Asked k (f n) k1 (a n) h)

  pub join_call-Ended :
      (left_over : ℤ) (k : Kernel S)
      → Ends (Ended left_over (λ r. r ≡ join_update (int_arg k 4)) k) (join_call k)
  unfolding join_call
  join_call-Ended left_over k =
      asked left_over (λ r. r ≡ join_update (int_arg k 4)) k (join_update (int_arg k 4)) k refl
        (same k)

  pub exit_call-Ended :
      (left_over : ℤ) (k : Kernel S)
      → Ends (Ended left_over (λ r. r ≡ exit_update (int_arg k 4)) k) (exit_call k)
  unfolding exit_call
  exit_call-Ended left_over k =
      asked left_over (λ r. r ≡ exit_update (int_arg k 4)) k (exit_update (int_arg k 4)) k refl
        (same k)

  pub create_semaphore_call-Ended :
      (left_over : ℤ) (k : Kernel S)
      → Ends (Ended left_over (Named (λ n. create n (int_arg k 5))) k) (create_semaphore_call k)
  unfolding create_semaphore_call
  create_semaphore_call-Ended left_over k =
      named left_over (Named (λ n. create n (int_arg k 5))) k (λ n. create n (int_arg k 5))
        (λ n. (n, refl))

  pub wait_call-Ended :
      (left_over : ℤ) (k : Kernel S) → Ends (Ended left_over (Named wait) k) (wait_call k)
  unfolding wait_call
  wait_call-Ended left_over k = named left_over (Named wait) k wait (λ n. (n, refl))

  pub signal_call-Ended :
      (left_over : ℤ) (k : Kernel S) → Ends (Ended left_over (Named signal) k) (signal_call k)
  unfolding signal_call
  signal_call-Ended left_over k = named left_over (Named signal) k signal (λ n. (n, refl))

  -- The end of Exec and ExecV.
  after_exec :
      (left_over : ℤ) (k k2 : Kernel S) (f : Name → Request) (n : Name) (opened : Bool) (result : ℤ)
      → Agrees (regs k) (regs k2)
      → Ended left_over
          (Named f)
          k
          (if opened then asks (f n) k2 else goes_on (next_instruction (write_result k2 result)))
  after_exec left_over k k2 f n true result h = asked left_over (Named f) k (f n) k2 (n, refl) h
  after_exec left_over k k2 f n false result h = answered_next k k2 result h

module _ {S : Type 0} (u : Unix S) (left_over : ℤ) where
  sys_exec-Kept : (k : Kernel S) (n : Name) → Ends (Kept (regs k)) (sys_exec u k n)
  unfolding sys_exec
  sys_exec-Kept k n =
      Ends->>= {B = Bool × Kernel S} (λ x. Unit {0}) (Kept (regs k))
        (lift (open_for_read_write u k.files n false))
        (λ (fd, fs). returns (not (eq_ℤ fd failed), record k { files = fs }))
        (Ends-lift (open_for_read_write u k.files n false)) (λ x h. same k)

  execs :
      (k k1 : Kernel S) (f : Name → Request) (n : Name) (result : ℤ)
      → Agrees (regs k) (regs k1)
      → Ends (Ended left_over (Named f) k) (
          sys_exec u k1 n >>= λ (opened, k2).
          returns
            (if opened then asks (f n) k2 else goes_on (next_instruction (write_result k2 result))))
  execs k k1 f n result h =
      Ends->>= {B = Served S} (Kept (regs k1)) (Ended left_over (Named f) k) (sys_exec u k1 n)
        (λ (opened, k2).
          returns
            (if opened then asks (f n) k2 else goes_on (next_instruction (write_result k2 result))))
        (sys_exec-Kept k1 n)
        (λ (opened, k2) h2. after_exec left_over k k2 f n opened result (λ r ne. h2 r ne ∙ h r ne))

  pub exec_call-Ended :
      (k : Kernel S) → Ends (Ended left_over (Named exec_update) k) (exec_call u k)
  unfolding exec_call
  exec_call-Ended k =
      Ends->>= (Kept (regs k)) _ (name_at k (pattern_arg k 4) max_length) _
        (name_at-Kept (regs k) k (pattern_arg k 4) max_length (same k))
        (λ (n, k1) h. execs k k1 exec_update n failed h)

  pub exec_v_call-Ended :
      (k : Kernel S) → Ends (Ended left_over (Named exec_v_update) k) (exec_v_call u left_over k)
  unfolding exec_v_call
  exec_v_call-Ended k =
      Ends->>= (λ (argv, m). m.registers ≡ k.machine.registers) _
        (copy_args (pos_part (int_arg k 4)) k.machine (pattern_arg k 5) max_length) _
        (copy_args_registers (pos_part (int_arg k 4)) k.machine (pattern_arg k 5) max_length)
        (λ (argv, m) e. any (first_arg argv) _ (λ program. any (lift (c_string program)) _ (λ n.
          execs k (record k { machine = m }) exec_v_update n left_over
            (λ r ne. ap (λ (f : ℕ → ℕ). f r) e))))
    where
      any :
          {A : Type 0} (o : Outcome A) (f : A → Outcome (Served S))
          → ((x : A) → Ends (Ended left_over (Named exec_v_update) k) (f x))
          → Ends (Ended left_over (Named exec_v_update) k) (o >>= f)
      any (returns x) f h = h x
      any halts f h = tt
      any aborts f h = tt
