-- ===== src/Threads/Invariant.antt =====
-- code/threads: the invariant of the threads and semaphores between any two operations.
pub mod Wake
pub mod Wait
pub mod Switch
pub mod Resume
pub mod Sleep
use nachos.Prelude.{
  ℕ, ◌+◌, ◌-◌, ◌/◌, ◌≤◌, ◌<◌, ◌≡◌, ◌≢◌, Bool, true, false, not, Option, none, some, List, [], ◌∷◌,
  length,
}
use nachos.Threads.{running, ready, blocked, int_off}
use nachos.Threads.Scheduler.{is_none}
use nachos.Threads.Queue.Laws.{same, occurs}
use nachos.Threads.System.{System, Cpu, executing, idle, Control, outside, starting, in_p, in_yield}

abbrev pub is_outside : Control → Bool
is_outside outside = true
is_outside starting = false
is_outside (in_p a old) = false
is_outside (in_yield old) = false

-- 1 for a thread that is about to look at semaphore a again.
abbrev pub waking : ℕ → Control → ℕ
waking a outside = 0
waking a starting = 0
waking a (in_p b old) = same a b
waking a (in_yield old) = 0

abbrev pub waking_in : ℕ → (ℕ → Control) → List ℕ → ℕ
waking_in a control [] = 0
waking_in a control (x ∷ xs) = waking a (control x) + waking_in a control xs

-- The current thread holds the processor, also while it waits in Finish for another one to
-- take over.
abbrev pub on_cpu : Cpu → ℕ → ℕ → ℕ
on_cpu executing current t = same t current
on_cpu (idle true) current t = same t current
on_cpu (idle false) current t = 0

abbrev pub doomed : Option ℕ → ℕ → ℕ
doomed none t = 0
doomed (some u) t = same t u

-- The current thread has just been switched to.
abbrev pub is_fresh : Cpu → Control → Bool
is_fresh executing c = not (is_outside c)
is_fresh (idle finishing) c = false

abbrev pub is_idle : Cpu → Bool
is_idle executing = false
is_idle (idle finishing) = true

abbrev pub waking_on : Cpu → ℕ → Control → ℕ
waking_on executing a c = waking a c
waking_on (idle finishing) a c = 0

-- The threads on their way to another test of semaphore a.
abbrev pub awake : System → ℕ → ℕ
awake s a =
    waking_on s.cpu a (s.control s.kernel.current_thread)
    + waking_in a s.control s.kernel.ready_list

pub record IsValid (s : System) : Type 0 where
  -- A thread is on the processor, on the ready list, in the queue of one semaphore or about to be
  -- deleted, and only one of these.
  pub one_place :
      (t a : ℕ)
      → doomed s.kernel.to_be_destroyed t
          + on_cpu s.cpu s.kernel.current_thread t
          + occurs t s.kernel.ready_list
          + occurs t (s.semaphores a).queue
        ≤ 1
  pub one_queue :
      (t a b : ℕ) → a ≢ b → occurs t (s.semaphores a).queue + occurs t (s.semaphores b).queue ≤ 1
  -- The status says which.
  pub ready_status : (t : ℕ) → 0 < occurs t s.kernel.ready_list → s.kernel.status t ≡ ready
  pub queue_status : (t a : ℕ) → 0 < occurs t (s.semaphores a).queue → s.kernel.status t ≡ blocked
  pub doomed_status : (t : ℕ) → 0 < doomed s.kernel.to_be_destroyed t → s.kernel.status t ≡ blocked
  pub cpu_status : is_idle s.cpu ≡ false → s.kernel.status s.kernel.current_thread ≡ running
  pub idle_status :
      (t : ℕ)
      → is_idle s.cpu ≡ true
      → 0 < on_cpu s.cpu s.kernel.current_thread t
      → s.kernel.status t ≡ blocked
  -- A thread that is off the processor is inside one of the operations, and a thread in a queue
  -- waits for that semaphore.
  pub ready_control : (t : ℕ) → 0 < occurs t s.kernel.ready_list → is_outside (s.control t) ≡ false
  pub queue_control : (t a : ℕ) → 0 < occurs t (s.semaphores a).queue → waking a (s.control t) ≡ 1
  -- Interrupts are off until the operation ends; so long, a finished thread may wait for deletion.
  pub fresh_level :
      is_fresh s.cpu (s.control s.kernel.current_thread) ≡ true → s.kernel.level ≡ int_off
  pub idle_level : is_idle s.cpu ≡ true → s.kernel.level ≡ int_off
  pub fresh_doomed :
      is_none s.kernel.to_be_destroyed ≡ false
      → is_fresh s.cpu (s.control s.kernel.current_thread) ≡ true
  -- No wake-up is lost: while threads wait, no more is to be had than is about to be looked at.
  pub no_lost_wakeup :
      (a : ℕ) → 0 < length (s.semaphores a).queue → (s.semaphores a).value ≤ awake s a
