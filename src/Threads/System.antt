-- ===== src/Threads/System.antt =====
-- The threads of code/threads and the semaphores of synch.cc, run on one processor: Semaphore::P
-- and V, Thread::Fork, Begin, Yield, Sleep and Finish, cut at the points where the processor goes to
-- another thread.
use nachos.Prelude.{
  ℕ, ◌+◌, ◌-◌, Bool, true, false, not, ◌||◌, List, [], ◌∷◌, Option, none, some, ◌==◌, if◌then◌else◌,
}
use nachos.Prelude.{Result, ok, ◌>>=◌, ◌>>◌, assert}
use nachos.Machine.{update}
use nachos.Threads.{blocked, IntStatus, int_off, int_on, Kernel}
use nachos.Threads.Queue.{append}
use nachos.Threads.Scheduler.{
  is_off, set_status, ready_to_run, find_next_to_run, run, check_to_be_destroyed,
}

-- P takes from a value only what is there; a semaphore that a user program creates with a negative
-- one is left out.
pub record Semaphore : Type 0 where
  pub value : ℕ
  pub queue : List ℕ

-- Where a thread goes on when SWITCH returns in it: in its own code, in the loop of P, in Yield, or
-- at ThreadRoot. `old` is the oldLevel of the call.
pub data Control : Type 0 where
  outside starting : Control
  in_p : ℕ → IntStatus → Control
  in_yield : IntStatus → Control

-- The current thread executes, or waits in the loop of Sleep for an interrupt.
pub data Cpu : Type 0 where
  executing : Cpu
  idle : Bool → Cpu

pub record System : Type 0 where
  pub kernel : Kernel
  pub semaphores : ℕ → Semaphore
  pub control : ℕ → Control
  pub cpu : Cpu

abbrev pub set_level : System → IntStatus → System
set_level s now = record s { kernel = record s.kernel { level = now } }

abbrev pub set_control : System → ℕ → Control → System
set_control s thread c = record s { control = update s.control thread c }

abbrev pub put_semaphore : System → ℕ → Semaphore → System
put_semaphore s a sem = record s { semaphores = update s.semaphores a sem }

-- With no thread ready, the loop of Sleep calls Idle and goes round again.
unfoldable pub switch_to : System → Bool → Option ℕ × Kernel → Result System
switch_to s finishing (none, k) = ok (record s { kernel = k; cpu = idle finishing })
switch_to s finishing (some next_thread, k) =
    run k next_thread finishing >>= λ k1. ok (record s { kernel = k1; cpu = executing })

-- One round of the loop of Sleep.
unfoldable pub sleep_loop : System → Bool → Result System
sleep_loop s finishing = find_next_to_run s.kernel >>= switch_to s finishing

-- Thread::Sleep, called by the current thread.
unfoldable pub sleep : System → Bool → Result System
sleep s finishing =
    assert (is_off s.kernel.level)
    >> sleep_loop (record s { kernel = set_status s.kernel s.kernel.current_thread blocked })
        finishing

-- The loop of P, from its test on.
unfoldable pub p_loop : System → ℕ → IntStatus → Result System
p_loop s a old =
    let thread = s.kernel.current_thread in
    let sem = s.semaphores a in
    if sem.value == 0
    then (append sem.queue thread >>= λ q.
        sleep (set_control (put_semaphore s a (record sem { queue = q })) thread (in_p a old))
          false)
    else ok (
        set_level
          (set_control (put_semaphore s a (record sem { value = sem.value - 1 })) thread outside)
          old)

unfoldable pub p : System → ℕ → Result System
p s a = p_loop (set_level s int_off) a s.kernel.level

-- The body of V, on the queue: it may run in a thread or in an interrupt handler.
unfoldable pub v_wake : System → ℕ → List ℕ → Result System
v_wake s a [] =
    ok (put_semaphore s a (record (s.semaphores a) { value = (s.semaphores a).value + 1 }))
v_wake s a (x ∷ xs) = ready_to_run s.kernel x >>= λ k. ok (
    put_semaphore (record s { kernel = k }) a
      (record { value = (s.semaphores a).value + 1; queue = xs }))

unfoldable pub v_body : System → ℕ → Result System
v_body s a = v_wake s a (s.semaphores a).queue

-- SetLevel's ASSERT says that a handler does not turn interrupts on; in a thread inHandler is FALSE.
unfoldable pub v_by : System → ℕ → Bool → Result System
v_by s a in_handler = v_body (set_level s int_off) a >>= λ s1.
    assert (is_off s.kernel.level || not in_handler) >> ok (set_level s1 s.kernel.level)

-- V by a thread.
unfoldable pub v : System → ℕ → Result System
unfolding v_by
v s a = v_by s a false

unfoldable pub fork : System → ℕ → Result System
fork s thread = ready_to_run (record s.kernel { level = int_off }) thread >>= λ k.
    ok (set_level (set_control (record s { kernel = k }) thread starting) s.kernel.level)

-- The test of Yield on nextThread.
unfoldable pub yield_to : System → Option ℕ × Kernel → Result System
yield_to s (none, k) = ok s
yield_to s (some next_thread, k) =
    let thread = s.kernel.current_thread in
    ready_to_run k thread >>= λ k1.
    (run k1 next_thread false >>= λ k2.
    ok (set_control (record s { kernel = k2 }) thread (in_yield s.kernel.level)))

unfoldable pub yield : System → Result System
yield s = find_next_to_run (record s.kernel { level = int_off }) >>= yield_to s

unfoldable pub finish : System → Result System
finish s = sleep (set_level s int_off) true

-- The rest of the call that the current thread was in.
unfoldable pub go_on : System → Control → Result System
go_on s outside = ok s
go_on s starting = ok (set_level (set_control s s.kernel.current_thread outside) int_on)
go_on s (in_p a old) = p_loop s a old
go_on s (in_yield old) = ok (set_level (set_control s s.kernel.current_thread outside) old)

-- SWITCH returns in Run, with its second ASSERT, or comes to Begin, which has none on the level; its
-- own one is about the thread that `control` is looked up for.
abbrev pub back_from_switch : Control → Kernel → Result (Unit {0})
back_from_switch starting k = ok tt
back_from_switch other k = assert (is_off k.level)

-- SWITCH has returned in the current thread: the end of Run, or Begin, and the rest of the call.
unfoldable pub resume : System → Result System
resume s =
    let c = s.control s.kernel.current_thread in
    back_from_switch c s.kernel
    >> (check_to_be_destroyed s.kernel >>= λ k. go_on (record s { kernel = k }) c)
