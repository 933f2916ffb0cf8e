-- ===== src/Threads/Invariant/Resume.antt =====
-- The end of Scheduler::Run, code/threads/scheduler.cc, under the invariant, for each call
-- the thread may go on with.
use nachos.Prelude.{
  ℕ, ◌≡◌, refl, sym, ap, ◌∙◌, false, not, Option, none, some, arith, ◌==◌, Result, ok, ◌>>=◌, ◌>>◌,
  assert,
}
use nachos.Threads.{IntStatus, int_off, int_on, Kernel}
use nachos.Threads.Scheduler.{check_to_be_destroyed}
use nachos.Threads.Queue.Laws.{same}
use nachos.Threads.System.{
  System, executing, Control, outside, starting, in_p, in_yield, set_level, set_control, go_on,
  resume, back_from_switch,
}
use nachos.Threads.Invariant.{IsValid, is_outside, waking, on_cpu, doomed, is_fresh, is_idle}
use nachos.Threads.Invariant.Wait.{p_loop_lem, waking_in-update}

-- A thread to which the processor has just come.
pub record IsFresh (s : System) : Type 0 where
  pub valid : IsValid s
  pub executes : s.cpu ≡ executing
  pub in_call : is_outside (s.control s.kernel.current_thread) ≡ false

abbrev cleaned : Kernel → Kernel
cleaned k = record k { to_be_destroyed = none }

check_at :
    (k : Kernel) (d : Option ℕ)
    → k.to_be_destroyed ≡ d
    → doomed d k.current_thread ≡ 0
    → check_to_be_destroyed k ≡ ok (cleaned k)
unfolding check_to_be_destroyed
check_at k none e h =
    rw (e, check_to_be_destroyed) (ap (λ d. ok (record k { to_be_destroyed = d })) e)
check_at k (some t) e h =
    let other : (t == k.current_thread) ≡ false = ground arith in
    rw (e, check_to_be_destroyed) (ap (λ b. assert (not b) >> ok (cleaned k)) other)

module _ (s : System) (f : IsFresh s) where
  cpu_lem : (u : ℕ) → on_cpu s.cpu s.kernel.current_thread u ≡ same u s.kernel.current_thread
  cpu_lem u = ap (λ c. on_cpu c s.kernel.current_thread u) f.executes

  off : s.kernel.level ≡ int_off
  off =
      f.valid.fresh_level
        (ap (λ c. is_fresh c (s.control s.kernel.current_thread)) f.executes ∙ ap not f.in_call)

  cleaned-IsValid : IsValid (record s { kernel = cleaned s.kernel })
  cleaned-IsValid = record {
    one_place = λ t b. ground (arith, f.valid.one_place t b);
    one_queue = f.valid.one_queue;
    ready_status = f.valid.ready_status;
    queue_status = f.valid.queue_status;
    doomed_status = λ t h. absurd (omega arith);
    cpu_status = f.valid.cpu_status;
    idle_status = f.valid.idle_status;
    ready_control = f.valid.ready_control;
    queue_control = f.valid.queue_control;
    fresh_level = f.valid.fresh_level;
    idle_level = f.valid.idle_level;
    fresh_doomed = λ h. cc;
    no_lost_wakeup = f.valid.no_lost_wakeup;
  }

  -- The thread is back in its own code.
  returned-IsValid :
      (now : IntStatus)
      → ((b : ℕ) → waking b (s.control s.kernel.current_thread) ≡ 0)
      → IsValid (
          set_level
            (set_control (record s { kernel = cleaned s.kernel }) s.kernel.current_thread outside)
            now)
  returned-IsValid now h = record {
    one_place = cleaned-IsValid.one_place;
    one_queue = f.valid.one_queue;
    ready_status = f.valid.ready_status;
    queue_status = f.valid.queue_status;
    doomed_status = λ t h. absurd (omega arith);
    cpu_status = f.valid.cpu_status;
    idle_status = f.valid.idle_status;
    ready_control =
        λ t h. ground (arith, f.valid.ready_control t, f.valid.one_place t 0, cpu_lem t);
    queue_control =
        λ t b h. ground (arith, f.valid.queue_control t b, f.valid.one_place t b, cpu_lem t);
    fresh_level = λ h. ground (arith, f.executes);
    idle_level = λ i. let e = sym i ∙ ap is_idle f.executes in cc;
    fresh_doomed = λ h. cc;
    no_lost_wakeup = λ b i. ground (
      arith,
      f.valid.no_lost_wakeup b i,
      h b,
      f.executes,
      waking_in-update b s.control s.kernel.current_thread outside s.kernel.ready_list (
          ground
            (arith, f.valid.one_place s.kernel.current_thread 0, cpu_lem s.kernel.current_thread)),
    );
  }

  go_on_lem :
      (c : Control)
      → s.control s.kernel.current_thread ≡ c
      → (s' : System) × (go_on (record s { kernel = cleaned s.kernel }) c ≡ ok s') × IsValid s'
  unfolding go_on
  go_on_lem outside e = (record s { kernel = cleaned s.kernel }, refl, cleaned-IsValid)
  go_on_lem starting e = (_, refl, returned-IsValid int_on (λ b. ap (waking b) e))
  go_on_lem (in_yield old) e = (_, refl, returned-IsValid old (λ b. ap (waking b) e))
  go_on_lem (in_p a old) e =
      p_loop_lem (record s { kernel = cleaned s.kernel }) a old
        (record {
          valid = cleaned-IsValid;
          executes = f.executes;
          off = off;
          none_doomed = refl;
          no_other = λ b ne. ap (waking b) e ∙ ground (arith, ne);
        })

  switched : (c : Control) → back_from_switch c s.kernel ≡ ok tt
  switched outside = rw off refl
  switched starting = refl
  switched (in_p a old) = rw off refl
  switched (in_yield old) = rw off refl

  -- The call returns, or goes to sleep again.
  pub resume_lem : (s' : System) × (resume s ≡ ok s') × IsValid s'
  unfolding resume
  resume_lem =
      let (s1, runs, ok_s1) = go_on_lem (s.control s.kernel.current_thread) refl in
      (
        s1,
        ap
              (λ (r : Result (Unit {0})).
                r
                >> (check_to_be_destroyed s.kernel >>= λ k.
                    go_on (record s { kernel = k }) (s.control s.kernel.current_thread)))
              (switched (s.control s.kernel.current_thread))
            ∙ ap
                (λ r.
                  r >>= λ k. go_on (record s { kernel = k }) (s.control s.kernel.current_thread))
                (check_at s.kernel s.kernel.to_be_destroyed refl (
                  ground (
                    arith,
                    f.valid.one_place s.kernel.current_thread 0,
                    cpu_lem s.kernel.current_thread,
                  )))
            ∙ runs,
        ok_s1,
      )
