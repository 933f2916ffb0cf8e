-- ===== src/Exceptions/Handler/Next.antt =====
-- ExceptionHandler of code/userprog/exception.cc: where the user program goes on.
use nachos.Prelude.{◌≡◌, ℤ}
use nachos.Exceptions.{
  Kernel, Served, goes_on, asks, Request, exec_update, exec_v_update, join_update, exit_update,
  create, wait, signal,
}
use nachos.Exceptions.Calls.{int_arg}
use nachos.Exceptions.Handler.{
  Syscall, other, sc_exit, sc_exec, sc_join, sc_exec_v, sc_create_semaphore, sc_wait, sc_signal,
}
use nachos.Exceptions.Handler.Asks.{Named, Ended}

module _ {S : Type 0} where
  -- A number without a case leaves all as it was.
  abbrev pub Unchanged : Kernel S → Served S → Type 0
  Unchanged k (goes_on k') = k' ≡ k
  Unchanged k (asks request k') = ⊥

  -- The request that a call makes of the process and semaphore tables.
  abbrev pub Asked : Syscall → Kernel S → Request → Type 0
  Asked sc_exec k = Named exec_update
  Asked sc_exec_v k = Named exec_v_update
  Asked sc_join k = λ request. request ≡ join_update (int_arg k 4)
  Asked sc_exit k = λ request. request ≡ exit_update (int_arg k 4)
  Asked sc_create_semaphore k = Named (λ name. create name (int_arg k 5))
  Asked sc_wait k = Named wait
  Asked sc_signal k = Named signal
  Asked c k = λ request. ⊥

  abbrev pub After : ℤ → Syscall → Kernel S → Served S → Type 0
  After left_over other k = Unchanged k
  After left_over c k = Ended left_over (Asked c k) k
