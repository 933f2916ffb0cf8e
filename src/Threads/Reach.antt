-- ===== src/Threads/Reach.antt =====
-- code/threads: the orders in which the threads and the interrupt handlers may run.
use nachos.Prelude.{
  ℕ, ◌<◌, ◌≡◌, refl, sym, ◌∙◌, subst, Bool, true, false, none, [], arith, if◌then◌else◌, ◌==◌,
  length, Result, ok,
}
use nachos.Threads.{just_created, running, int_off, int_on}
use nachos.Threads.System.{
  System, executing, idle, outside, p, v_by, fork, yield, finish, resume, sleep_loop,
}
use nachos.Threads.Invariant.{IsValid, is_outside}
use nachos.Threads.Invariant.Wake.{v_by_lem}
use nachos.Threads.Invariant.Sleep.{sleep_loop_lem}
use nachos.Threads.Invariant.Wait.{p_lem}
use nachos.Threads.Invariant.Switch.{fork_lem, yield_lem, finish_lem}
use nachos.Threads.Invariant.Resume.{resume_lem}

-- What may be called next: P, Fork, Yield and Finish by a thread in its own code, V by it or by a
-- handler, which runs with interrupts off, the rest of a call by a thread that has been switched
-- to, and another round of Sleep's loop on an idle processor.
pub data Call : System → Type 0 where
  call_p :
      {s : System} → ℕ → s.cpu ≡ executing → s.control s.kernel.current_thread ≡ outside → Call s
  call_v :
      {s : System}
      → ℕ
      → (in_handler : Bool) → (in_handler ≡ true → s.kernel.level ≡ int_off)
      → Call s
  call_fork :
      {s : System} (t : ℕ)
      → s.cpu ≡ executing
      → s.control s.kernel.current_thread ≡ outside
      → s.kernel.status t ≡ just_created
      → Call s
  call_yield :
      {s : System} → s.cpu ≡ executing → s.control s.kernel.current_thread ≡ outside → Call s
  call_finish :
      {s : System} → s.cpu ≡ executing → s.control s.kernel.current_thread ≡ outside → Call s
  call_resume :
      {s : System}
      → s.cpu ≡ executing
      → is_outside (s.control s.kernel.current_thread) ≡ false
      → Call s
  call_sleep : {s : System} (finishing : Bool) → s.cpu ≡ idle finishing → Call s

abbrev pub result : (s : System) → Call s → Result System
result s (call_p a e o) = p s a
result s (call_v a in_handler off) = v_by s a in_handler
result s (call_fork t e o n) = fork s t
result s (call_yield e o) = yield s
result s (call_finish e o) = finish s
result s (call_resume e o) = resume s
result s (call_sleep finishing e) = sleep_loop s finishing

-- The states that calls lead to.
pub data Reaches (s0 : System) : System → Type 0 where
  start : Reaches s0 s0
  then_call : {s s1 : System} → Reaches s0 s → (c : Call s) → result s c ≡ ok s1 → Reaches s0 s1

-- In any state with the invariant, P, Fork, Yield, Finish, the resumption of a switched-to thread,
-- the loop of Sleep, and V by a thread or with interrupts off by a handler, come back without a
-- failing ASSERT, those of SetLevel, of List::Append and of Run after SWITCH among them, and the
-- invariant holds after them.
pub result_lem :
    (s : System) (c : Call s) → IsValid s → (s1 : System) × (result s c ≡ ok s1) × IsValid s1
result_lem s (call_p a e o) h = p_lem s a (record { valid = h; executes = e; own_code = o })
result_lem s (call_v a in_handler off) h = v_by_lem s a in_handler off h
result_lem s (call_fork t e o n) h =
    fork_lem s t (record { valid = h; executes = e; own_code = o }) n
result_lem s (call_yield e o) h = yield_lem s (record { valid = h; executes = e; own_code = o })
result_lem s (call_finish e o) h = finish_lem s (record { valid = h; executes = e; own_code = o })
result_lem s (call_resume e o) h = resume_lem s (record { valid = h; executes = e; in_call = o })
result_lem s (call_sleep f e) h =
    sleep_loop_lem s f (subst (λ c. IsValid (record s { cpu = c })) e h)

pub Reaches-IsValid : {s0 s : System} → IsValid s0 → Reaches s0 s → IsValid s
Reaches-IsValid h start = h
Reaches-IsValid h (then_call {s} {s1 = s2} r c e) =
    let (s1, runs, ok_s1) = result_lem s c (Reaches-IsValid h r) in
    let same : ok s1 ≡ ok s2 = sym runs ∙ e in subst IsValid (let q = same in cc) ok_s1

-- The kernel as Kernel::Initialize leaves it: the main thread, number 0, runs.
abbrev pub boot : (ℕ → ℕ) → System
boot values = record {
  kernel = record {
    current_thread = 0;
    level = int_on;
    ready_list = [];
    to_be_destroyed = none;
    status = λ t. if t == 0 then running else just_created;
  };
  semaphores = λ a. record { value = values a; queue = [] };
  control = λ t. outside;
  cpu = executing;
}

pub boot-IsValid : (values : ℕ → ℕ) → IsValid (boot values)
boot-IsValid values = record {
  one_place = λ t a. ground arith;
  one_queue = λ t a b ne. omega arith;
  ready_status = λ t h. absurd (omega arith);
  queue_status = λ t a h. absurd (omega arith);
  doomed_status = λ t h. absurd (omega arith);
  cpu_status = λ h. refl;
  idle_status = λ t i h. cc;
  ready_control = λ t h. absurd (omega arith);
  queue_control = λ t a h. absurd (omega arith);
  fresh_level = λ h. cc;
  idle_level = λ h. cc;
  fresh_doomed = λ h. cc;
  no_lost_wakeup = λ a h. absurd (omega arith);
}

-- After any sequence of calls since boot each thread is in one place, its status says which,
-- interrupts are off where they must be, and no wake-up is lost.
pub boot-Reaches-IsValid : (values : ℕ → ℕ) {s : System} → Reaches (boot values) s → IsValid s
boot-Reaches-IsValid values r = Reaches-IsValid (boot-IsValid values) r

-- After any sequence of calls since boot, when the processor idles with an empty ready list, a
-- semaphore with threads in its queue has the value 0.
pub idle-no_lost_wakeup :
    (values : ℕ → ℕ) (s : System) (finishing : Bool) (a : ℕ)
    → Reaches (boot values) s
    → s.cpu ≡ idle finishing
    → s.kernel.ready_list ≡ []
    → 0 < length (s.semaphores a).queue
    → (s.semaphores a).value ≡ 0
idle-no_lost_wakeup values s f a r e empty h =
    ground (arith, (boot-Reaches-IsValid values r).no_lost_wakeup a h)
