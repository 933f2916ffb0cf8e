-- ===== src/Threads/Invariant/Wait.antt =====
-- Semaphore::P of code/threads/synch.cc under the invariant, at its call and each
-- time round its loop.
use nachos.Prelude.{
  ℕ, ◌+◌, ◌-◌, ◌≤◌, ◌<◌, ◌≡◌, refl, sym, ap, ◌∙◌, ◌≢◌, inl, inr, Bool, true, false, Option, none,
  some, List, [], ◌∷◌, ◌++◌, arith, ◌==◌, Bool-cases, ok, ◌>>=◌,
}
use nachos.Machine.{update}
use nachos.Threads.{blocked, IntStatus, int_off}
use nachos.Threads.Scheduler.{set_status, is_none}
use nachos.Threads.Queue.Laws.{same, occurs, occurs-append, append_lem}
use nachos.Threads.System.{
  System, executing, Control, outside, starting, in_p, in_yield, set_level, set_control,
  put_semaphore, sleep, p_loop, p,
}
use nachos.Threads.Invariant.{
  IsValid, waking, waking_in, on_cpu, doomed, is_fresh, is_idle, waking_on, awake,
}
use nachos.Threads.Invariant.Wake.{set_level-IsValid}
use nachos.Threads.Invariant.Sleep.{idling, sleep_lem}

pub waking-le : (a : ℕ) (c : Control) → waking a c ≤ 1
waking-le a outside = omega arith
waking-le a starting = omega arith
waking-le a (in_p b old) = ground arith
waking-le a (in_yield old) = omega arith

pub waking_in-update :
    (a : ℕ) (control : ℕ → Control) (t : ℕ) (c : Control) (xs : List ℕ)
    → occurs t xs ≡ 0
    → waking_in a (update control t c) xs ≡ waking_in a control xs
waking_in-update a control t c [] h = refl
waking_in-update a control t c (x ∷ xs) h =
    ground (arith, waking_in-update a control t c xs (ground arith))

-- A thread that may run the loop of P on semaphore a.
pub record MayTest (s : System) (a : ℕ) : Type 0 where
  pub valid : IsValid s
  pub executes : s.cpu ≡ executing
  pub off : s.kernel.level ≡ int_off
  pub none_doomed : s.kernel.to_be_destroyed ≡ none
  pub no_other : (b : ℕ) → a ≢ b → waking b (s.control s.kernel.current_thread) ≡ 0

-- Nothing was there: the thread goes to the queue and to sleep.
abbrev queued : System → ℕ → IntStatus → System
queued s a old =
    set_control
      (put_semaphore s a (record (s.semaphores a) {
        queue = (s.semaphores a).queue ++ s.kernel.current_thread ∷ [];
      }))
      s.kernel.current_thread (in_p a old)

abbrev asleep : System → System
asleep s = idling (record s { kernel = set_status s.kernel s.kernel.current_thread blocked }) false

-- It was there: the thread takes it.
abbrev taken : System → ℕ → IntStatus → System
taken s a old =
    set_level
      (set_control
        (put_semaphore s a (record (s.semaphores a) { value = (s.semaphores a).value - 1 }))
        s.kernel.current_thread outside)
      old

module _ (s : System) (a : ℕ) (old : IntStatus) (may : MayTest s a) where
  on_cpu_lem : (t : ℕ) → on_cpu s.cpu s.kernel.current_thread t ≡ same t s.kernel.current_thread
  on_cpu_lem t = ap (λ c. on_cpu c s.kernel.current_thread t) may.executes

  place :
      (t b : ℕ)
      → same t s.kernel.current_thread
          + occurs t s.kernel.ready_list
          + occurs t (s.semaphores b).queue
        ≤ 1
  place t b = omega (arith, may.valid.one_place t b, on_cpu_lem t)

  no_doomed : (t : ℕ) → doomed s.kernel.to_be_destroyed t ≡ 0
  no_doomed t = ap (λ d. doomed d t) may.none_doomed

  -- The current thread is not on the ready list.
  not_ready : occurs s.kernel.current_thread s.kernel.ready_list ≡ 0
  not_ready = ground (arith, place s.kernel.current_thread a)

  awake_lem :
      (b : ℕ)
      → awake s b
        ≡ waking b (s.control s.kernel.current_thread) + waking_in b s.control s.kernel.ready_list
  awake_lem b =
      ap
        (λ c.
          waking_on c b (s.control s.kernel.current_thread)
          + waking_in b s.control s.kernel.ready_list)
        may.executes

  kept :
      (c : Control) (b : ℕ)
      → waking_in b (update s.control s.kernel.current_thread c) s.kernel.ready_list
        ≡ waking_in b s.control s.kernel.ready_list
  kept c b = waking_in-update b s.control s.kernel.current_thread c s.kernel.ready_list not_ready

  queued-IsValid : (s.semaphores a).value ≡ 0 → IsValid (asleep (queued s a old))
  queued-IsValid z = record {
    one_place = λ t b. ground (
      arith,
      place t a,
      place t b,
      no_doomed t,
      occurs-append t (s.semaphores a).queue s.kernel.current_thread,
    );
    one_queue = λ t b c ne. ground (
      arith,
      may.valid.one_queue t b c ne,
      place t b,
      place t c,
      occurs-append t (s.semaphores a).queue s.kernel.current_thread,
    );
    ready_status = λ t h. ground (arith, may.valid.ready_status t, place t a);
    queue_status = λ t b h. ground (
      arith,
      may.valid.queue_status t b,
      place t b,
      occurs-append t (s.semaphores a).queue s.kernel.current_thread,
    );
    doomed_status = λ t h. absurd (omega (arith, no_doomed t));
    cpu_status = λ h. cc;
    idle_status = λ t i h. absurd (omega arith);
    ready_control = λ t h. ground (arith, may.valid.ready_control t, place t a);
    queue_control = λ t b h. ground (
      arith,
      may.valid.queue_control t b,
      place t b,
      occurs-append t (s.semaphores a).queue s.kernel.current_thread,
    );
    fresh_level = λ h. may.off;
    idle_level = λ h. may.off;
    fresh_doomed = λ h. let e = sym h ∙ ap is_none may.none_doomed in cc;
    no_lost_wakeup = λ b h.
        ground
          (arith, may.valid.no_lost_wakeup b, awake_lem b, kept (in_p a old) b, may.no_other b);
  }

  taken-IsValid : 0 < (s.semaphores a).value → IsValid (taken s a old)
  taken-IsValid z = record {
    one_place = λ t b. ground (arith, may.valid.one_place t b);
    one_queue = λ t b c ne. ground (arith, may.valid.one_queue t b c ne);
    ready_status = may.valid.ready_status;
    queue_status = λ t b h. ground (arith, may.valid.queue_status t b);
    doomed_status = may.valid.doomed_status;
    cpu_status = may.valid.cpu_status;
    idle_status = may.valid.idle_status;
    ready_control = λ t h. ground (arith, may.valid.ready_control t, place t a);
    queue_control = λ t b h. ground (arith, may.valid.queue_control t b, place t b);
    fresh_level = λ h. ground (arith, may.executes);
    idle_level = λ h. let e = sym h ∙ ap is_idle may.executes in cc;
    fresh_doomed = λ h. let e = sym h ∙ ap is_none may.none_doomed in cc;
    no_lost_wakeup = λ b h. ground (
      arith,
      may.valid.no_lost_wakeup b,
      awake_lem b,
      kept outside b,
      may.no_other b,
      waking-le b (s.control s.kernel.current_thread),
      may.executes,
    );
  }

  -- The loop of P, from its test on, returns or puts the thread to sleep.
  pub p_loop_lem : (s' : System) × (p_loop s a old ≡ ok s') × IsValid s'
  unfolding p_loop
  p_loop_lem = elim (Bool-cases ((s.semaphores a).value == 0)) [
    | inl z ↦
        let queue_free : occurs s.kernel.current_thread (s.semaphores a).queue ≡ 0 =
          ground (arith, place s.kernel.current_thread a) in
        let (s1, runs, ok_s1) = sleep_lem (queued s a old) false (queued-IsValid (ground arith)) in
        (
          s1,
          rw z (
              ap
                (λ r. r >>= λ q.
                  sleep
                    (set_control (put_semaphore s a (record (s.semaphores a) { queue = q }))
                      s.kernel.current_thread (in_p a old))
                    false)
                (append_lem (s.semaphores a).queue s.kernel.current_thread queue_free)
              ∙ runs),
          ok_s1,
        )
    | inr n ↦ (taken s a old, rw n refl, taken-IsValid (ground arith))
  ]

none_of : (o : Option ℕ) (b : Bool) → (is_none o ≡ false → b ≡ true) → b ≡ false → o ≡ none
none_of none b h e = refl
none_of (some u) b h e = let c = sym (h refl) ∙ e in cc

-- A thread that executes its own code.
pub record MayCall (s : System) : Type 0 where
  pub valid : IsValid s
  pub executes : s.cpu ≡ executing
  pub own_code : s.control s.kernel.current_thread ≡ outside

pub MayCall-none_doomed : {s : System} → MayCall s → s.kernel.to_be_destroyed ≡ none
MayCall-none_doomed {s} m = none_of s.kernel.to_be_destroyed _ m.valid.fresh_doomed (
    ap (λ c. is_fresh c (s.control s.kernel.current_thread)) m.executes
    ∙ ap (is_fresh executing) m.own_code)

-- P, called by the current thread, returns or puts it to sleep, and the invariant holds after it.
pub p_lem : (s : System) (a : ℕ) → MayCall s → (s' : System) × (p s a ≡ ok s') × IsValid s'
unfolding p
p_lem s a m = p_loop_lem (set_level s int_off) a s.kernel.level (record {
  valid = set_level-IsValid s int_off m.valid (λ h. refl) (λ h. refl);
  executes = m.executes;
  off = refl;
  none_doomed = MayCall-none_doomed m;
  no_other = λ b ne. ap (waking b) m.own_code;
})
