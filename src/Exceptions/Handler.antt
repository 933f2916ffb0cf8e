-- ===== src/Exceptions/Handler.antt =====
-- ExceptionHandler of code/userprog/exception.cc.
pub mod Keeps
pub mod Cases
pub mod Asks
pub mod Next
use nachos.Prelude.{ℕ, ℤ, Bool, true, false, ◌==◌, ◌||◌, if◌then◌else◌, ltb, leb}
use nachos.Machine.{
  ExceptionType, no_exception, syscall_exception, page_fault_exception, read_only_exception,
  bus_error_exception, address_error_exception, overflow_exception, illegal_instr_exception,
}
use nachos.Filesys.FileTable.{Unix}
use nachos.Exceptions.{Outcome, returns, halts, ◌>>=◌, Kernel, Served, goes_on}
use nachos.Exceptions.Calls.{
  create_call, remove_call, open_call, close_call, read_call, write_call, seek_call, socket_call,
  connect_call, send_call, receive_call, read_string_call, print_string_call, print_num_call,
  exec_call, exec_v_call, join_call, exit_call, create_semaphore_call, wait_call, signal_call,
}

-- The codes of syscall.h that the handler has a case for; `other` stands for every other number.
pub data Syscall : Type 0 where
  sc_halt sc_exit sc_exec sc_join sc_create sc_remove sc_open sc_read sc_write sc_seek : Syscall
  sc_close sc_exec_v sc_print_num sc_create_semaphore sc_wait sc_signal : Syscall
  sc_socket_tcp sc_connect sc_send sc_receive sc_read_string sc_print_string other : Syscall

unfoldable pub syscall_of : ℕ → Syscall
syscall_of n =
    if n == 0
    then sc_halt
    else if n == 1
    then sc_exit
    else if n == 2
    then sc_exec
    else if n == 3
    then sc_join
    else if n == 4
    then sc_create
    else if n == 5
    then sc_remove
    else if n == 6
    then sc_open
    else if n == 7
    then sc_read
    else if n == 8
    then sc_write
    else if n == 9
    then sc_seek
    else if n == 10
    then sc_close
    else if n == 13
    then sc_exec_v
    else if n == 17
    then sc_print_num
    else if n == 23
    then sc_create_semaphore
    else if n == 24
    then sc_wait
    else if n == 25
    then sc_signal
    else if n == 43
    then sc_socket_tcp
    else if n == 44
    then sc_connect
    else if n == 45
    then sc_send
    else if n == 46
    then sc_receive
    else if n == 47
    then sc_read_string
    else if n == 48
    then sc_print_string
    else other

-- A case that comes back to the user program.
abbrev pub back : {S : Type 0} → Outcome (Kernel S) → Outcome (Served S)
back o = o >>= λ k. returns (goes_on k)

module _ {S : Type 0} (u : Unix S) (left_over : ℤ) where
  unfoldable pub serve : Syscall → Kernel S → Outcome (Served S)
  unfolding create_call remove_call open_call close_call read_call write_call seek_call socket_call
      connect_call send_call receive_call read_string_call print_string_call print_num_call
      exec_call exec_v_call join_call exit_call create_semaphore_call wait_call signal_call
  serve sc_halt k = halts
  serve sc_exit k = exit_call k
  serve sc_exec k = exec_call u k
  serve sc_join k = join_call k
  serve sc_create k = back (create_call u k)
  serve sc_remove k = back (remove_call u k)
  serve sc_open k = back (open_call u k)
  serve sc_read k = back (read_call u k)
  serve sc_write k = back (write_call u k)
  serve sc_seek k = back (seek_call u k)
  serve sc_close k = back (close_call u k)
  serve sc_exec_v k = exec_v_call u left_over k
  serve sc_print_num k = back (print_num_call u k)
  serve sc_create_semaphore k = create_semaphore_call k
  serve sc_wait k = wait_call k
  serve sc_signal k = signal_call k
  serve sc_socket_tcp k = back (socket_call u k)
  serve sc_connect k = back (connect_call u k)
  serve sc_send k = back (send_call u k)
  serve sc_receive k = back (receive_call u k)
  serve sc_read_string k = back (read_string_call u k)
  serve sc_print_string k = back (print_string_call u k)
  serve other k = returns (goes_on k)

  unfoldable pub exception_handler : ExceptionType → Kernel S → Outcome (Served S)
  unfolding serve syscall_of
  exception_handler no_exception k = returns (goes_on k)
  exception_handler syscall_exception k = serve (syscall_of (k.machine.registers 2)) k
  exception_handler page_fault_exception k = halts
  exception_handler read_only_exception k = halts
  exception_handler bus_error_exception k = halts
  exception_handler address_error_exception k = halts
  exception_handler overflow_exception k = halts
  exception_handler illegal_instr_exception k = halts
