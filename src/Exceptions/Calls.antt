-- ===== src/Exceptions/Calls.antt =====
-- The cases of ExceptionHandler in code/userprog/exception.cc, and the calls of
-- code/userprog/ksyscall.h on programs.
use nachos.Prelude.{
  ℕ, Bool, ◌+◌, false, not, ◌&&◌, List, [], ◌∷◌, length, pos_part, if◌then◌else◌, ℤ, pos, ltb_ℤ,
  ◌+ℤ◌,
}
use nachos.Machine.{put}
use nachos.Machine.Word.{signed}
use nachos.Filesys.FileTable.{Name, failed, eq_ℤ, Unix, open_for_read_write}
use nachos.Filesys.FileTable.Sockets.{
  open_new_socket, connect, send_socket_message, receive_socket_message,
}
use nachos.Console.{put_from, sys_read_string}
use nachos.Syscalls.{sys_create, sys_remove, sys_open, sys_close, sys_read, sys_seek, sys_write}
use nachos.Exceptions.{
  Outcome, returns, aborts, ◌>>=◌, lift, c_string, Kernel, Request, exec_update, exec_v_update,
  join_update, exit_update, create, wait, signal, Served, goes_on, asks, word_of, increase_pc,
}
use nachos.Exceptions.Copy.{user2_system, system2_user, copy_args}
use nachos.Exceptions.Decimal.{number_text}

abbrev pub max_length : ℤ
max_length = pos 255

module _ {S : Type 0} where
  -- ReadRegister of an argument, as its pattern and as an int.
  abbrev pub pattern_arg : Kernel S → ℕ → ℕ
  pattern_arg k r = k.machine.registers r

  abbrev pub int_arg : Kernel S → ℕ → ℤ
  int_arg k r = signed (k.machine.registers r)

  -- WriteRegister(2, result)
  unfoldable pub write_result : Kernel S → ℤ → Kernel S
  write_result k result = record k { machine = put k.machine 2 (word_of result) }

  unfoldable pub next_instruction : Kernel S → Kernel S
  unfolding increase_pc
  next_instruction k = record k { machine = increase_pc k.machine }

  unfoldable pub buffer_at : Kernel S → ℕ → ℤ → Outcome (List ℕ × Kernel S)
  unfolding user2_system
  buffer_at k virt_addr limit = do
    (buffer, m) ← user2_system k.machine virt_addr limit
    returns (buffer, record k { machine = m })

  unfoldable pub name_at : Kernel S → ℕ → ℤ → Outcome (Name × Kernel S)
  unfolding buffer_at
  name_at k virt_addr limit = do
    (buffer, k1) ← buffer_at k virt_addr limit
    name ← lift (c_string buffer)
    returns (name, k1)

  unfoldable pub to_user : Kernel S → ℕ → ℤ → List ℕ → Outcome (Kernel S)
  unfolding system2_user
  to_user k virt_addr len buffer = do
    (count, m) ← system2_user k.machine virt_addr len buffer
    returns (record k { machine = m })

-- 0 for what went well, and -1.
abbrev pub zero_or_failed : ℤ → ℤ
zero_or_failed result = if eq_ℤ result failed then failed else pos 0

-- The bytes that a call has put at the beginning of a buffer, which has to have room for them.
abbrev pub overlay : List ℕ → List ℕ → Outcome (List ℕ)
overlay [] old = returns old
overlay (c ∷ cs) [] = aborts
overlay (c ∷ cs) (d ∷ ds) = overlay cs ds >>= λ rest. returns (c ∷ rest)

-- argv[0]
abbrev pub first_arg : List (List ℕ) → Outcome (List ℕ)
first_arg [] = aborts
first_arg (program ∷ rest) = returns program

module _ {S : Type 0} (u : Unix S) where
  unfoldable pub create_call : Kernel S → Outcome (Kernel S)
  unfolding name_at sys_create write_result next_instruction
  create_call k = do
    (name, k1) ← name_at k (pattern_arg k 4) max_length
    (result, fs) ← lift (sys_create u k1.files name)
    let k2 = record k1 { files = fs }
    returns (next_instruction (write_result k2 (zero_or_failed result)))

  unfoldable pub remove_call : Kernel S → Outcome (Kernel S)
  unfolding name_at sys_remove write_result next_instruction
  remove_call k = do
    (name, k1) ← name_at k (pattern_arg k 4) max_length
    let (result, fs) = sys_remove u k1.files name
    let k2 = record k1 { files = fs }
    returns (next_instruction (write_result k2 (zero_or_failed result)))

  -- ASSERTNOTREACHED ends the case of a type that is neither 0 nor 1.
  unfoldable pub open_call : Kernel S → Outcome (Kernel S)
  unfolding name_at sys_open write_result next_instruction
  open_call k =
      let type = int_arg k 5 in
      if not (eq_ℤ type (pos 0)) && not (eq_ℤ type (pos 1)) then aborts else (do
        (name, k1) ← name_at k (pattern_arg k 4) (pos 32)
        (id, fs) ← lift (sys_open u k1.files name type)
        let k2 = record k1 { files = fs }
        returns (next_instruction (write_result k2 id)))

  unfoldable pub close_call : Kernel S → Outcome (Kernel S)
  unfolding sys_close write_result next_instruction
  close_call k = do
    (result, fs) ← lift (sys_close u k.files (int_arg k 4))
    let k1 = record k { files = fs }
    returns (next_instruction (write_result k1 (zero_or_failed result)))

  unfoldable pub read_call : Kernel S → Outcome (Kernel S)
  unfolding buffer_at sys_read write_result to_user next_instruction
  read_call k = do
    let size = int_arg k 5
    (buffer, k1) ← buffer_at k (pattern_arg k 4) size
    (result, bytes, fs) ← lift (sys_read u k1.files size (int_arg k 6))
    let k2 = write_result (record k1 { files = fs }) result
    filled ← overlay bytes buffer
    k3 ←
        (if ltb_ℤ (pos 0) result
          then to_user k2 (pattern_arg k 4) (size +ℤ pos 1) filled
          else returns k2)
    returns (next_instruction k3)

  unfoldable pub write_call : Kernel S → Outcome (Kernel S)
  unfolding buffer_at sys_write write_result next_instruction
  write_call k = do
    let size = int_arg k 5
    (buffer, k1) ← buffer_at k (pattern_arg k 4) size
    (result, fs) ← lift (sys_write u k1.files buffer size (int_arg k 6))
    let k2 = record k1 { files = fs }
    returns (next_instruction (write_result k2 result))

  unfoldable pub seek_call : Kernel S → Outcome (Kernel S)
  unfolding sys_seek write_result next_instruction
  seek_call k = do
    (result, fs) ← lift (sys_seek u k.files (int_arg k 4) (int_arg k 5))
    let k1 = record k { files = fs }
    returns (next_instruction (write_result k1 result))

  unfoldable pub socket_call : Kernel S → Outcome (Kernel S)
  unfolding open_new_socket write_result next_instruction
  socket_call k = do
    (result, fs) ← lift (open_new_socket u k.files)
    let k1 = record k { files = fs }
    returns (next_instruction (write_result k1 result))

  unfoldable pub connect_call : Kernel S → Outcome (Kernel S)
  unfolding name_at connect write_result next_instruction
  connect_call k = do
    (ip, k1) ← name_at k (pattern_arg k 5) max_length
    let (result, fs) = connect u k1.files (int_arg k 4) ip (int_arg k 6)
    let k2 = record k1 { files = fs }
    returns (next_instruction (write_result k2 (zero_or_failed result)))

  unfoldable pub send_call : Kernel S → Outcome (Kernel S)
  unfolding buffer_at send_socket_message write_result next_instruction
  send_call k = do
    (buffer, k1) ← buffer_at k (pattern_arg k 5) max_length
    (result, fs) ← lift (send_socket_message u k1.files (int_arg k 4) buffer (int_arg k 6))
    let k2 = record k1 { files = fs }
    returns (next_instruction (write_result k2 result))

  unfoldable pub receive_call : Kernel S → Outcome (Kernel S)
  unfolding buffer_at receive_socket_message write_result to_user next_instruction
  receive_call k = do
    (buffer, k1) ← buffer_at k (pattern_arg k 5) max_length
    (result, bytes, fs) ← lift (receive_socket_message u k1.files (int_arg k 4) (int_arg k 6))
    let k2 = write_result (record k1 { files = fs }) result
    received ← overlay bytes buffer
    k3 ←
        (if eq_ℤ result failed then returns k2 else (do
          message ← lift (c_string received)
          to_user k2 (pattern_arg k 5) (pos (length message + 1)) received))
    returns (next_instruction k3)

  unfoldable pub read_string_call : Kernel S → Outcome (Kernel S)
  unfolding sys_read_string write_result to_user next_instruction
  read_string_call k = do
    let (buffer, fs) = sys_read_string u k.files
    line ← lift (c_string buffer)
    k1 ← to_user (record k { files = fs }) (pattern_arg k 4) (pos (length line + 1)) buffer
    returns (next_instruction (write_result k1 (pos (length line))))

  unfoldable pub print_string_call : Kernel S → Outcome (Kernel S)
  unfolding name_at put_from next_instruction
  print_string_call k = do
    (text, k1) ← name_at k (pattern_arg k 4) max_length
    fs ← lift (put_from u (length text) k1.files text)
    returns (next_instruction (record k1 { files = fs }))

  unfoldable pub print_num_call : Kernel S → Outcome (Kernel S)
  unfolding number_text put_from next_instruction
  print_num_call k = do
    text ← lift (number_text (pattern_arg k 4))
    fs ← lift (put_from u (length text) k.files text)
    returns (next_instruction (record k { files = fs }))

  -- SysExec up to ExecUpdate: whether there is such a file, which stays open.
  unfoldable pub sys_exec : Kernel S → Name → Outcome (Bool × Kernel S)
  unfolding open_for_read_write
  sys_exec k name = do
    (fd, fs) ← lift (open_for_read_write u k.files name false)
    returns (not (eq_ℤ fd failed), record k { files = fs })

  unfoldable pub exec_call : Kernel S → Outcome (Served S)
  unfolding name_at sys_exec write_result next_instruction
  exec_call k = do
    (name, k1) ← name_at k (pattern_arg k 4) max_length
    (opened, k2) ← sys_exec k1 name
    returns (
        if opened
        then asks (exec_update name) k2
        else goes_on (next_instruction (write_result k2 failed)))

  -- SysExecV has no `return`: `left_over` is what stands where its result would.
  unfoldable pub exec_v_call : ℤ → Kernel S → Outcome (Served S)
  unfolding copy_args sys_exec write_result next_instruction
  exec_v_call left_over k = do
    (argv, m) ← copy_args (pos_part (int_arg k 4)) k.machine (pattern_arg k 5) max_length
    program ← first_arg argv
    name ← lift (c_string program)
    (opened, k1) ← sys_exec (record k { machine = m }) name
    returns (
        if opened
        then asks (exec_v_update name) k1
        else goes_on (next_instruction (write_result k1 left_over)))

module _ {S : Type 0} where
  unfoldable pub join_call : Kernel S → Outcome (Served S)
  join_call k = returns (asks (join_update (int_arg k 4)) k)

  unfoldable pub exit_call : Kernel S → Outcome (Served S)
  exit_call k = returns (asks (exit_update (int_arg k 4)) k)

  unfoldable pub create_semaphore_call : Kernel S → Outcome (Served S)
  unfolding name_at
  create_semaphore_call k = do
    (name, k1) ← name_at k (pattern_arg k 4) max_length
    returns (asks (create name (int_arg k 5)) k1)

  unfoldable pub wait_call : Kernel S → Outcome (Served S)
  unfolding name_at
  wait_call k = do
    (name, k1) ← name_at k (pattern_arg k 4) max_length
    returns (asks (wait name) k1)

  unfoldable pub signal_call : Kernel S → Outcome (Served S)
  unfolding name_at
  signal_call k = do
    (name, k1) ← name_at k (pattern_arg k 4) max_length
    returns (asks (signal name) k1)

  -- The rest of the case, when the table's call has come back with a result.
  unfoldable pub answered : ℤ → Request → ℤ → Kernel S → Kernel S
  unfolding write_result next_instruction
  answered left_over (exit_update code) result k = next_instruction k
  answered left_over (exec_v_update name) result k = next_instruction (write_result k left_over)
  answered left_over other result k = next_instruction (write_result k result)
