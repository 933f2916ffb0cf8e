-- ===== src/Exceptions/Handler/Cases.antt =====
-- ExceptionHandler of code/userprog/exception.cc, case by case.
use nachos.Prelude.{
  ℕ, ◌+◌, refl, Bool, true, false, not, ◌&&◌, List, length, if◌then◌else◌, ltb_ℤ, ◌+ℤ◌, ℤ, pos,
  Result, Bool-cases, inl, inr,
}
use nachos.Filesys.FileTable.{Name, failed, eq_ℤ, Unix}
use nachos.Filesys.FileTable.Sockets.{
  open_new_socket, connect, send_socket_message, receive_socket_message,
}
use nachos.Console.{put_from, sys_read_string}
use nachos.Syscalls.{sys_create, sys_remove, sys_open, sys_close, sys_read, sys_seek, sys_write}
use nachos.Exceptions.{
  Outcome, returns, halts, aborts, ◌>>=◌, lift, c_string, Kernel, Ends, Ends->>=, Ends-lift,
}
use nachos.Exceptions.Decimal.{number_text}
use nachos.Exceptions.Calls.{
  pattern_arg, int_arg, max_length, write_result, next_instruction, buffer_at, name_at, to_user,
  zero_or_failed, overlay, create_call, remove_call, open_call, close_call, read_call, write_call,
  seek_call, socket_call, connect_call, send_call, receive_call, read_string_call,
  print_string_call, print_num_call,
}
use nachos.Exceptions.Handler.Keeps.{
  Agrees, Advances, Kept, regs, next_instruction-Advances, write_result-Agrees, buffer_at-Kept,
  name_at-Kept, to_user-Kept,
}

module _ {S : Type 0} where
  abbrev pub Next : Kernel S → Kernel S → Type 0
  Next k k' = Advances (regs k) (regs k')

  pub same : (k : Kernel S) → Agrees (regs k) (regs k)
  same k r ne = refl

  pub answered_next :
      (k k1 : Kernel S) (result : ℤ)
      → Agrees (regs k) (regs k1)
      → Next k (next_instruction (write_result k1 result))
  answered_next k k1 result h =
      next_instruction-Advances (regs k) (write_result k1 result)
        (write_result-Agrees (regs k) k1 result h)

  name :
      (k : Kernel S) (addr : ℕ) (limit : ℤ) (f : Name × Kernel S → Outcome (Kernel S))
      → ((x : Name × Kernel S) → Kept (regs k) x → Ends (Next k) (f x))
      → Ends (Next k) (name_at k addr limit >>= f)
  name k addr limit f =
      Ends->>= (Kept (regs k)) _ (name_at k addr limit) f
        (name_at-Kept (regs k) k addr limit (same k))

  buffer :
      (k : Kernel S) (addr : ℕ) (limit : ℤ) (f : List ℕ × Kernel S → Outcome (Kernel S))
      → ((x : List ℕ × Kernel S) → Kept (regs k) x → Ends (Next k) (f x))
      → Ends (Next k) (buffer_at k addr limit >>= f)
  buffer k addr limit f =
      Ends->>= (Kept (regs k)) _ (buffer_at k addr limit) f
        (buffer_at-Kept (regs k) k addr limit (same k))

  after :
      {A : Type 0} (k : Kernel S) (o : Outcome A) (f : A → Outcome (Kernel S))
      → ((x : A) → Ends (Next k) (f x))
      → Ends (Next k) (o >>= f)
  after k (returns x) f h = h x
  after k halts f h = tt
  after k aborts f h = tt

  lifted :
      {A : Type 0} (k : Kernel S) (r : Result A) (f : A → Outcome (Kernel S))
      → ((x : A) → Ends (Next k) (f x))
      → Ends (Next k) (lift r >>= f)
  lifted k r f h = after k (lift r) f h

  copied :
      (k k2 : Kernel S) (more : Bool) (addr : ℕ) (len : ℤ) (bytes : List ℕ)
      → Agrees (regs k) (regs k2)
      → Ends
          (λ k3. Agrees (regs k) (regs k3))
          (if more then to_user k2 addr len bytes else returns k2)
  copied k k2 true addr len bytes h = to_user-Kept (regs k) k2 addr len bytes h
  copied k k2 false addr len bytes h = h

  received :
      (k k2 : Kernel S) (nothing : Bool) (addr : ℕ) (bytes : List ℕ)
      → Agrees (regs k) (regs k2)
      → Ends
          (λ k3. Agrees (regs k) (regs k3))
          (if nothing
            then returns k2
            else (lift (c_string bytes) >>= λ message.
                to_user k2 addr (pos (length message + 1)) bytes))
  received k k2 true addr bytes h = h
  received k k2 false addr bytes h =
      Ends->>= (λ x. Unit {0}) _ (lift (c_string bytes)) _ (Ends-lift (c_string bytes))
        (λ message _. to_user-Kept (regs k) k2 addr (pos (length message + 1)) bytes h)

module _ {S : Type 0} (u : Unix S) where
  pub create_call_next : (k : Kernel S) → Ends (Next k) (create_call u k)
  unfolding create_call
  create_call_next k = name k (pattern_arg k 4) max_length _ (λ (n, k1) h.
      lifted k (sys_create u k1.files n) _
        (λ (result, fs). answered_next k (record k1 { files = fs }) (zero_or_failed result) h))

  pub remove_call_next : (k : Kernel S) → Ends (Next k) (remove_call u k)
  unfolding remove_call
  remove_call_next k = name k (pattern_arg k 4) max_length _ (λ (n, k1) h.
      answered_next k (record k1 { files = (sys_remove u k1.files n).1 })
        (zero_or_failed (sys_remove u k1.files n).0) h)

  pub open_call_next : (k : Kernel S) → Ends (Next k) (open_call u k)
  unfolding open_call
  open_call_next k =
      elim (Bool-cases (not (eq_ℤ (int_arg k 5) (pos 0)) && not (eq_ℤ (int_arg k 5) (pos 1)))) [
        | inl bad ↦ rw bad tt
        | inr good ↦ rw good (
            name k (pattern_arg k 4) (pos 32) _ (λ (n, k1) h.
              lifted k (sys_open u k1.files n (int_arg k 5)) _
                (λ (id, fs). answered_next k (record k1 { files = fs }) id h)))
      ]

  pub close_call_next : (k : Kernel S) → Ends (Next k) (close_call u k)
  unfolding close_call
  close_call_next k =
      lifted k (sys_close u k.files (int_arg k 4)) _
        (λ (result, fs). answered_next k (record k { files = fs }) (zero_or_failed result) (same k))

  pub read_call_next : (k : Kernel S) → Ends (Next k) (read_call u k)
  unfolding read_call
  read_call_next k = buffer k (pattern_arg k 4) (int_arg k 5) _ (λ (old, k1) h.
      lifted k (sys_read u k1.files (int_arg k 5) (int_arg k 6)) _ (λ (result, bytes, fs).
        let k2 : Kernel S = write_result (record k1 { files = fs }) result in
        let h2 : Agrees (regs k) (regs k2) =
          write_result-Agrees (regs k) (record k1 { files = fs }) result h in
        after k (overlay bytes old) _ (λ filled.
          Ends->>= (λ k3. Agrees (regs k) (regs k3)) _
            (if ltb_ℤ (pos 0) result
              then to_user k2 (pattern_arg k 4) (int_arg k 5 +ℤ pos 1) filled
              else returns k2)
            (λ k3. returns (next_instruction k3))
            (copied k k2 (ltb_ℤ (pos 0) result) (pattern_arg k 4) (int_arg k 5 +ℤ pos 1) filled h2)
            (λ k3 h3. next_instruction-Advances (regs k) k3 h3))))

  pub write_call_next : (k : Kernel S) → Ends (Next k) (write_call u k)
  unfolding write_call
  write_call_next k = buffer k (pattern_arg k 4) (int_arg k 5) _ (λ (b, k1) h.
      lifted k (sys_write u k1.files b (int_arg k 5) (int_arg k 6)) _
        (λ (result, fs). answered_next k (record k1 { files = fs }) result h))

  pub seek_call_next : (k : Kernel S) → Ends (Next k) (seek_call u k)
  unfolding seek_call
  seek_call_next k =
      lifted k (sys_seek u k.files (int_arg k 4) (int_arg k 5)) _
        (λ (result, fs). answered_next k (record k { files = fs }) result (same k))

  pub socket_call_next : (k : Kernel S) → Ends (Next k) (socket_call u k)
  unfolding socket_call
  socket_call_next k =
      lifted k (open_new_socket u k.files) _
        (λ (result, fs). answered_next k (record k { files = fs }) result (same k))

  pub connect_call_next : (k : Kernel S) → Ends (Next k) (connect_call u k)
  unfolding connect_call
  connect_call_next k = name k (pattern_arg k 5) max_length _ (λ (ip, k1) h.
      answered_next k (record k1 { files = (connect u k1.files (int_arg k 4) ip (int_arg k 6)).1 })
        (zero_or_failed (connect u k1.files (int_arg k 4) ip (int_arg k 6)).0) h)

  pub send_call_next : (k : Kernel S) → Ends (Next k) (send_call u k)
  unfolding send_call
  send_call_next k = buffer k (pattern_arg k 5) max_length _ (λ (b, k1) h.
      lifted k (send_socket_message u k1.files (int_arg k 4) b (int_arg k 6)) _
        (λ (result, fs). answered_next k (record k1 { files = fs }) result h))

  pub receive_call_next : (k : Kernel S) → Ends (Next k) (receive_call u k)
  unfolding receive_call
  receive_call_next k = buffer k (pattern_arg k 5) max_length _ (λ (old, k1) h.
      lifted k (receive_socket_message u k1.files (int_arg k 4) (int_arg k 6)) _
        (λ (result, bytes, fs).
          let k2 : Kernel S = write_result (record k1 { files = fs }) result in
          let h2 : Agrees (regs k) (regs k2) =
            write_result-Agrees (regs k) (record k1 { files = fs }) result h in
          after k (overlay bytes old) _ (λ filled.
            Ends->>= (λ k3. Agrees (regs k) (regs k3)) _
              (if eq_ℤ result failed
                then returns k2
                else (lift (c_string filled) >>= λ message.
                    to_user k2 (pattern_arg k 5) (pos (length message + 1)) filled))
              (λ k3. returns (next_instruction k3))
              (received k k2 (eq_ℤ result failed) (pattern_arg k 5) filled h2)
              (λ k3 h3. next_instruction-Advances (regs k) k3 h3))))

  pub read_string_call_next : (k : Kernel S) → Ends (Next k) (read_string_call u k)
  unfolding read_string_call
  read_string_call_next k =
      let text : List ℕ = (sys_read_string u k.files).0 in
      let k0 : Kernel S = record k { files = (sys_read_string u k.files).1 } in
      lifted k (c_string text) _ (λ line.
        Ends->>= (λ k1. Agrees (regs k) (regs k1)) _
          (to_user k0 (pattern_arg k 4) (pos (length line + 1)) text) _
          (to_user-Kept (regs k) k0 (pattern_arg k 4) (pos (length line + 1)) text (same k))
          (λ k1 h. answered_next k k1 (pos (length line)) h))

  pub print_string_call_next : (k : Kernel S) → Ends (Next k) (print_string_call u k)
  unfolding print_string_call
  print_string_call_next k = name k (pattern_arg k 4) max_length _ (λ (text, k1) h.
      lifted k (put_from u (length text) k1.files text) _
        (λ fs. next_instruction-Advances (regs k) (record k1 { files = fs }) h))

  pub print_num_call_next : (k : Kernel S) → Ends (Next k) (print_num_call u k)
  unfolding print_num_call
  print_num_call_next k = lifted k (number_text (pattern_arg k 4)) _ (λ text.
      lifted k (put_from u (length text) k.files text) _
        (λ fs. next_instruction-Advances (regs k) (record k { files = fs }) (same k)))
