-- ===== src/Threads/Invariant/Wake.antt =====
-- Semaphore::V of code/threads/synch.cc and Thread::Fork of thread.cc, under the invariant.
use nachos.Prelude.{
  ℕ, ◌+◌, ◌<◌, ◌≡◌, refl, not, ◌||◌, sym, ap, ◌∙◌, Bool, true, false, List, [], ◌∷◌, ◌++◌, arith,
  length, ok,
}
use nachos.Threads.{ready, IntStatus, int_off, int_on, Kernel}
use nachos.Threads.Scheduler.{is_off, set_status, ready_to_run}
use nachos.Threads.Queue.Laws.{occurs, occurs-append, append_lem}
use nachos.Threads.System.{
  System, Cpu, executing, idle, Control, outside, starting, in_p, in_yield, set_level,
  put_semaphore, v_body, v_wake, v_by,
}
use nachos.Threads.Invariant.{IsValid, is_outside, waking, waking_in, on_cpu, is_fresh, is_idle}

pub waking_in-append :
    (a : ℕ) (control : ℕ → Control) (xs : List ℕ) (x : ℕ)
    → waking_in a control (xs ++ x ∷ []) ≡ waking_in a control xs + waking a (control x)
waking_in-append a control [] x = omega arith
waking_in-append a control (y ∷ ys) x = omega (arith, waking_in-append a control ys x)

pub set_level-IsValid :
    (s : System) (now : IntStatus)
    → IsValid s
    → (is_fresh s.cpu (s.control s.kernel.current_thread) ≡ true → now ≡ int_off)
    → (is_idle s.cpu ≡ true → now ≡ int_off)
    → IsValid (set_level s now)
set_level-IsValid s now ok_s f i = record {
  one_place = ok_s.one_place;
  one_queue = ok_s.one_queue;
  ready_status = ok_s.ready_status;
  queue_status = ok_s.queue_status;
  doomed_status = ok_s.doomed_status;
  cpu_status = ok_s.cpu_status;
  idle_status = ok_s.idle_status;
  ready_control = ok_s.ready_control;
  queue_control = ok_s.queue_control;
  fresh_level = f;
  idle_level = i;
  fresh_doomed = ok_s.fresh_doomed;
  no_lost_wakeup = ok_s.no_lost_wakeup;
}

-- ReadyToRun with interrupts off.
abbrev pub made_ready : Kernel → ℕ → Kernel
made_ready k t = record (set_status k t ready) { ready_list = k.ready_list ++ t ∷ [] }

pub ready_to_run_lem :
    (k : Kernel) (t : ℕ)
    → k.level ≡ int_off
    → occurs t k.ready_list ≡ 0
    → ready_to_run k t ≡ ok (made_ready k t)
unfolding ready_to_run
ready_to_run_lem k t off h = rw (off, append_lem k.ready_list t h) refl

on_cpu_self : (cpu : Cpu) (t : ℕ) → is_idle cpu ≡ false → on_cpu cpu t t ≡ 1
on_cpu_self executing t h = ground arith
on_cpu_self (idle f) t h = cc

outside-waking : (a : ℕ) (c : Control) → 0 < waking a c → is_outside c ≡ false
outside-waking a outside h = absurd (omega arith)
outside-waking a starting h = refl
outside-waking a (in_p b old) h = refl
outside-waking a (in_yield old) h = refl

-- V with a thread in the queue.
abbrev woken : System → ℕ → ℕ → List ℕ → System
woken s a x xs =
    put_semaphore (record s { kernel = made_ready s.kernel x }) a
      (record { value = (s.semaphores a).value + 1; queue = xs })

woken-IsValid :
    (s : System) (a x : ℕ) (xs : List ℕ)
    → IsValid s
    → (s.semaphores a).queue ≡ x ∷ xs
    → IsValid (woken s a x xs)
woken-IsValid s a x xs ok_s e = record {
  one_place = λ t b. ground (
    arith,
    ok_s.one_place t a,
    ok_s.one_place t b,
    ok_s.one_queue t a b,
    occurs-append t s.kernel.ready_list x,
    ap (occurs t) e,
  );
  one_queue = λ t b c ne. ground (arith, ok_s.one_queue t b c ne, ap (occurs t) e);
  ready_status = λ t h. ground (arith, ok_s.ready_status t, occurs-append t s.kernel.ready_list x);
  queue_status = λ t b h. ground (
    arith,
    ok_s.queue_status t b,
    ok_s.queue_status t a,
    ok_s.one_place t a,
    ok_s.one_queue t a b,
    ap (occurs t) e,
  );
  doomed_status = λ t h. ground (arith, ok_s.doomed_status t, ok_s.one_place t a, ap (occurs t) e);
  cpu_status = λ h. ground (
    arith,
    ok_s.cpu_status h,
    ok_s.one_place s.kernel.current_thread a,
    on_cpu_self s.cpu s.kernel.current_thread h,
    ap (occurs s.kernel.current_thread) e,
  );
  idle_status =
      λ t i h. ground (arith, ok_s.idle_status t i h, ok_s.one_place t a, ap (occurs t) e);
  ready_control = λ t h. ground (
    arith,
    ok_s.ready_control t,
    occurs-append t s.kernel.ready_list x,
    outside-waking a (s.control t),
    ok_s.queue_control t a,
    ap (occurs t) e,
  );
  queue_control =
      λ t b h. ground (arith, ok_s.queue_control t b, ok_s.queue_control t a, ap (occurs t) e);
  fresh_level = ok_s.fresh_level;
  idle_level = ok_s.idle_level;
  fresh_doomed = ok_s.fresh_doomed;
  no_lost_wakeup = λ b h. ground (
    arith,
    ok_s.no_lost_wakeup b,
    waking_in-append b s.control s.kernel.ready_list x,
    ok_s.queue_control x a,
    ap (occurs x) e,
    ap length e,
  );
}

-- V with nobody in the queue.
abbrev raised : System → ℕ → System
raised s a = put_semaphore s a (record (s.semaphores a) { value = (s.semaphores a).value + 1 })

raised-IsValid :
    (s : System) (a : ℕ) → IsValid s → (s.semaphores a).queue ≡ [] → IsValid (raised s a)
raised-IsValid s a ok_s e = record {
  one_place = λ t b. ground (arith, ok_s.one_place t a, ok_s.one_place t b, ap (occurs t) e);
  one_queue = λ t b c ne. ground (arith, ok_s.one_queue t b c ne, ap (occurs t) e);
  ready_status = ok_s.ready_status;
  queue_status = λ t b h. ground (arith, ok_s.queue_status t b);
  doomed_status = ok_s.doomed_status;
  cpu_status = ok_s.cpu_status;
  idle_status = ok_s.idle_status;
  ready_control = ok_s.ready_control;
  queue_control = λ t b h. ground (arith, ok_s.queue_control t b);
  fresh_level = ok_s.fresh_level;
  idle_level = ok_s.idle_level;
  fresh_doomed = ok_s.fresh_doomed;
  no_lost_wakeup = λ b h. ground (arith, ok_s.no_lost_wakeup b, ap length e);
}

-- The processor is with a thread that has been switched to.
abbrev pub fresh : System → Bool
fresh s = is_fresh s.cpu (s.control s.kernel.current_thread)

v_body_lem :
    (s : System) (a : ℕ) (q : List ℕ)
    → IsValid s
    → s.kernel.level ≡ int_off
    → (s.semaphores a).queue ≡ q
    → (s' : System) × (v_body s a ≡ ok s')
      × IsValid s'
      × (fresh s' ≡ fresh s)
      × (is_idle s'.cpu ≡ is_idle s.cpu)
unfolding v_body v_wake
v_body_lem s a [] ok_s off e =
    (raised s a, ap (v_wake s a) e, raised-IsValid s a ok_s e, refl, refl)
v_body_lem s a (x ∷ xs) ok_s off e = (
  woken s a x xs,
  ap (v_wake s a) e
      ∙ rw (ready_to_run_lem s.kernel x off (ground (arith, ok_s.one_place x a, ap (occurs x) e)))
          refl,
  woken-IsValid s a x xs ok_s e,
  refl,
  refl,
)

-- V returns, and the invariant holds after it.
allowed_level :
    (level : IntStatus) (in_handler : Bool)
    → (in_handler ≡ true → level ≡ int_off)
    → (is_off level || not in_handler) ≡ true
allowed_level int_off in_handler h = refl
allowed_level int_on true h = let e = h refl in cc
allowed_level int_on false h = refl

pub v_by_lem :
    (s : System) (a : ℕ) (in_handler : Bool)
    → (in_handler ≡ true → s.kernel.level ≡ int_off)
    → IsValid s
    → (s' : System) × (v_by s a in_handler ≡ ok s') × IsValid s'
unfolding v_by
v_by_lem s a in_handler off_in ok_s =
    let (s1, runs, ok_s1, same_fresh, same_idle) =
      v_body_lem (set_level s int_off) a _
        (set_level-IsValid s int_off ok_s (λ h. refl) (λ h. refl)) refl refl in
    (
      set_level s1 s.kernel.level,
      rw (runs, allowed_level s.kernel.level in_handler off_in) refl,
      set_level-IsValid s1 s.kernel.level ok_s1 (λ h. ok_s.fresh_level (sym same_fresh ∙ h))
          (λ h. ok_s.idle_level (sym same_idle ∙ h)),
    )
