-- ===== src/Threads.antt =====
-- code/threads: threads, their scheduler, and the semaphores they wait on. A thread and a semaphore
-- are named by numbers in place of their addresses.
pub mod Queue
pub mod Scheduler
pub mod System
pub mod Invariant
pub mod Reach
use nachos.Prelude.{ℕ, Bool, List, Option}

-- enum ThreadStatus of code/threads/thread.h
pub data ThreadStatus : Type 0 where
  just_created running ready blocked : ThreadStatus

-- enum IntStatus of code/machine/interrupt.h
pub data IntStatus : Type 0 where
  int_off int_on : IntStatus

-- What the scheduler reads and writes: kernel->currentThread, kernel->interrupt's level, the
-- Scheduler's readyList and toBeDestroyed, and the status of each thread.
pub record Kernel : Type 0 where
  pub current_thread : ℕ
  pub level : IntStatus
  pub ready_list : List ℕ
  pub to_be_destroyed : Option ℕ
  pub status : ℕ → ThreadStatus
