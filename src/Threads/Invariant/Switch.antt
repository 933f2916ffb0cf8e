-- ===== src/Threads/Invariant/Switch.antt =====
-- Thread::Fork, Yield and Finish of code/threads/thread.cc and the end of Scheduler::Run, under the
-- invariant.
use nachos.Prelude.{
  ℕ, ◌+◌, ◌≤◌, ◌≡◌, refl, sym, ap, ◌∙◌, true, false, List, [], ◌∷◌, arith, ok, ◌>>=◌,
}
use nachos.Machine.{update}
use nachos.Threads.{blocked, just_created, int_off, Kernel}
use nachos.Threads.Scheduler.{set_status, is_none, first_ready, run}
use nachos.Threads.Queue.Laws.{same, occurs, occurs-append}
use nachos.Threads.System.{
  System, starting, in_yield, set_level, set_control, fork, yield_to, yield, finish,
}
use nachos.Threads.Invariant.{IsValid, waking, waking_in, on_cpu, doomed, is_idle}
use nachos.Threads.Invariant.Wake.{made_ready, ready_to_run_lem, waking_in-append}
use nachos.Threads.Invariant.Sleep.{idling, sleep_lem, ran, run_lem, find_next_to_run_lem}
use nachos.Threads.Invariant.Wait.{MayCall, MayCall-none_doomed, waking_in-update}

-- Fork of a thread that has not been started.
abbrev forked : System → ℕ → System
forked s t =
    set_level
      (set_control (record s { kernel = made_ready (record s.kernel { level = int_off }) t }) t
        starting)
      s.kernel.level

module _ (s : System) (t : ℕ) (m : MayCall s) (new : s.kernel.status t ≡ just_created) where
  on_cpu_lem : (u : ℕ) → on_cpu s.cpu s.kernel.current_thread u ≡ same u s.kernel.current_thread
  on_cpu_lem u = ap (λ c. on_cpu c s.kernel.current_thread u) m.executes

  not_current : same t s.kernel.current_thread ≡ 0
  not_current = ground (arith, m.valid.cpu_status (ap is_idle m.executes), new)

  not_ready : occurs t s.kernel.ready_list ≡ 0
  not_ready = ground (arith, m.valid.ready_status t, new)

  not_queued : (a : ℕ) → occurs t (s.semaphores a).queue ≡ 0
  not_queued a = ground (arith, m.valid.queue_status t a, new)

  no_doomed : (u : ℕ) → doomed s.kernel.to_be_destroyed u ≡ 0
  no_doomed u = ap (λ d. doomed d u) (MayCall-none_doomed m)

  forked-IsValid : IsValid (forked s t)
  forked-IsValid = record {
    one_place = λ u b. ground (
      arith,
      m.valid.one_place u b,
      on_cpu_lem u,
      no_doomed u,
      occurs-append u s.kernel.ready_list t,
      not_current,
      not_ready,
      not_queued b,
    );
    one_queue = m.valid.one_queue;
    ready_status =
        λ u h. ground (arith, m.valid.ready_status u, occurs-append u s.kernel.ready_list t);
    queue_status = λ u b h. ground (arith, m.valid.queue_status u b, not_queued b);
    doomed_status = λ u h. absurd (omega (arith, no_doomed u));
    cpu_status = λ h. ground (arith, m.valid.cpu_status h, not_current);
    idle_status = λ u i h. let e = sym i ∙ ap is_idle m.executes in cc;
    ready_control =
        λ u h. ground (arith, m.valid.ready_control u, occurs-append u s.kernel.ready_list t);
    queue_control = λ u b h. ground (arith, m.valid.queue_control u b, not_queued b);
    fresh_level = λ h. ground (arith, m.valid.fresh_level, not_current);
    idle_level = m.valid.idle_level;
    fresh_doomed = λ h. let e = sym h ∙ ap is_none (MayCall-none_doomed m) in cc;
    no_lost_wakeup = λ b h. ground (
      arith,
      m.valid.no_lost_wakeup b h,
      not_current,
      waking_in-append b (update s.control t starting) s.kernel.ready_list t,
      waking_in-update b s.control t starting s.kernel.ready_list not_ready,
      m.executes,
    );
  }

  pub fork_lem : (s' : System) × (fork s t ≡ ok s') × IsValid s'
  unfolding fork
  fork_lem = (
    forked s t,
    rw (ready_to_run_lem (record s.kernel { level = int_off }) t refl not_ready) refl,
    forked-IsValid,
  )

-- Yield to the thread x.
abbrev yielded : System → ℕ → List ℕ → System
yielded s x xs =
    set_control
      (record s {
        kernel =
            ran
              (made_ready (record s.kernel { level = int_off; ready_list = xs })
                s.kernel.current_thread)
              x false;
      })
      s.kernel.current_thread (in_yield s.kernel.level)

module _ (s : System) (m : MayCall s) where
  cpu_lem : (u : ℕ) → on_cpu s.cpu s.kernel.current_thread u ≡ same u s.kernel.current_thread
  cpu_lem u = ap (λ c. on_cpu c s.kernel.current_thread u) m.executes

  doomed_lem : (u : ℕ) → doomed s.kernel.to_be_destroyed u ≡ 0
  doomed_lem u = ap (λ d. doomed d u) (MayCall-none_doomed m)

  module _ (x : ℕ) (xs : List ℕ) (e : s.kernel.ready_list ≡ x ∷ xs) where
    places :
        (u b : ℕ)
        → same u s.kernel.current_thread + same u x + occurs u xs + occurs u (s.semaphores b).queue
          ≤ 1
    places u b = omega (arith, m.valid.one_place u b, cpu_lem u, doomed_lem u, ap (occurs u) e)

    not_in_rest : occurs s.kernel.current_thread xs ≡ 0
    not_in_rest = ground (arith, places s.kernel.current_thread 0)

    yielded-IsValid : IsValid (yielded s x xs)
    yielded-IsValid = record {
      one_place = λ u b.
          ground (
            arith,
            places u b,
            doomed_lem u,
            m.executes,
            occurs-append u xs s.kernel.current_thread,
          );
      one_queue = m.valid.one_queue;
      ready_status = λ u h. ground (
        arith,
        m.valid.ready_status u,
        places u 0,
        ap (occurs u) e,
        occurs-append u xs s.kernel.current_thread,
      );
      queue_status = λ u b h. ground (arith, m.valid.queue_status u b, places u b);
      doomed_status = λ u h. absurd (omega (arith, doomed_lem u));
      cpu_status = λ h. ground arith;
      idle_status = λ u i h. let f = sym i ∙ ap is_idle m.executes in cc;
      ready_control = λ u h. ground (
        arith,
        m.valid.ready_control u,
        places u 0,
        ap (occurs u) e,
        occurs-append u xs s.kernel.current_thread,
      );
      queue_control = λ u b h. ground (arith, m.valid.queue_control u b, places u b);
      fresh_level = λ h. refl;
      idle_level = λ h. refl;
      fresh_doomed = λ h. let f = sym h ∙ ap is_none (MayCall-none_doomed m) in cc;
      no_lost_wakeup = λ b h. ground (
        arith,
        m.valid.no_lost_wakeup b h,
        places x b,
        m.executes,
        ap (waking b) m.own_code,
        ap (waking_in b s.control) e,
        waking_in-append b (update s.control s.kernel.current_thread (in_yield s.kernel.level)) xs
            s.kernel.current_thread,
        waking_in-update b s.control s.kernel.current_thread (in_yield s.kernel.level) xs
            not_in_rest,
      );
    }

  yield_at :
      (q : List ℕ)
      → s.kernel.ready_list ≡ q
      → (s' : System) × (yield_to s (first_ready (record s.kernel { level = int_off }) q) ≡ ok s')
        × IsValid s'
  unfolding yield_to
  yield_at [] e = (s, refl, m.valid)
  yield_at (x ∷ xs) e =
      let k : Kernel = record s.kernel { level = int_off; ready_list = xs } in
      (
        yielded s x xs,
        ap
              (λ r. r >>= λ k1.
                (run k1 x false >>= λ k2. ok (
                  set_control (record s { kernel = k2 }) s.kernel.current_thread
                    (in_yield s.kernel.level))))
              (ready_to_run_lem k s.kernel.current_thread refl (not_in_rest x xs e))
            ∙ ap
                (λ r. r >>= λ k2. ok (
                  set_control (record s { kernel = k2 }) s.kernel.current_thread
                    (in_yield s.kernel.level)))
                (run_lem (made_ready k s.kernel.current_thread) x false refl
                  (λ h. let c = h in cc)),
        yielded-IsValid x xs e,
      )

  -- Yield returns: another thread runs, or none was ready.
  pub yield_lem : (s' : System) × (yield s ≡ ok s') × IsValid s'
  unfolding yield
  yield_lem =
      let (s1, runs, ok_s1) = yield_at s.kernel.ready_list refl in
      (
        s1,
        ap (λ r. r >>= yield_to s) (find_next_to_run_lem (record s.kernel { level = int_off }) refl)
            ∙ runs,
        ok_s1,
      )

  finishing-IsValid : IsValid (
      idling
        (record s {
          kernel = set_status (record s.kernel { level = int_off }) s.kernel.current_thread blocked;
        })
        true)
  finishing-IsValid = record {
    one_place = λ u b. ground (arith, m.valid.one_place u b, m.executes);
    one_queue = m.valid.one_queue;
    ready_status = λ u h. ground (arith, m.valid.ready_status u, m.valid.one_place u 0, cpu_lem u);
    queue_status = λ u b h. ground (arith, m.valid.queue_status u b);
    doomed_status = λ u h. absurd (omega (arith, doomed_lem u));
    cpu_status = λ h. cc;
    idle_status = λ u i h. ground (arith);
    ready_control = m.valid.ready_control;
    queue_control = m.valid.queue_control;
    fresh_level = λ h. refl;
    idle_level = λ h. refl;
    fresh_doomed = λ h. let f = sym h ∙ ap is_none (MayCall-none_doomed m) in cc;
    no_lost_wakeup =
        λ b h. ground (arith, m.valid.no_lost_wakeup b h, m.executes, ap (waking b) m.own_code);
  }

  -- Finish gives the processor away.
  pub finish_lem : (s' : System) × (finish s ≡ ok s') × IsValid s'
  unfolding finish
  finish_lem = sleep_lem (set_level s int_off) true finishing-IsValid
