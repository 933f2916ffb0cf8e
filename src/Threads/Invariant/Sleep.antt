-- ===== src/Threads/Invariant/Sleep.antt =====
-- Thread::Sleep and Thread::Finish of code/threads/thread.cc and the loop of Semaphore::P of
-- synch.cc, under the invariant.
use nachos.Prelude.{
  ℕ, ◌≡◌, refl, ap, ◌∙◌, Bool, true, false, Option, none, some, List, [], ◌∷◌, arith, if◌then◌else◌,
  ok, ◌>>=◌, ◌>>◌, assert,
}
use nachos.Threads.{running, blocked, int_off, Kernel}
use nachos.Threads.Scheduler.{set_status, is_off, is_none, first_ready, find_next_to_run, run}
use nachos.Threads.Queue.Laws.{occurs}
use nachos.Threads.System.{System, executing, idle, switch_to, sleep_loop, sleep}
use nachos.Threads.Invariant.{IsValid, waking_in}

-- s in the loop of Sleep.
abbrev pub idling : System → Bool → System
idling s finishing = record s { cpu = idle finishing }

abbrev doomed_after : Kernel → Bool → Option ℕ
doomed_after k finishing = if finishing then some k.current_thread else k.to_be_destroyed

abbrev switched : System → Bool → ℕ → List ℕ → System
switched s finishing x xs = record s {
  kernel =
      set_status
        (record s.kernel {
          ready_list = xs;
          current_thread = x;
          to_be_destroyed = doomed_after s.kernel finishing;
        })
        x running;
  cpu = executing;
}

none_of : (o : Option ℕ) → (is_none o ≡ false → false ≡ true) → o ≡ none
none_of none h = refl
none_of (some u) h = let c = h refl in cc

none_doomed : (s : System) (f : Bool) → IsValid (idling s f) → s.kernel.to_be_destroyed ≡ none
none_doomed s f ok_s = none_of s.kernel.to_be_destroyed ok_s.fresh_doomed

switched-IsValid :
    (s : System) (f : Bool) (x : ℕ) (xs : List ℕ)
    → IsValid (idling s f)
    → s.kernel.ready_list ≡ x ∷ xs
    → IsValid (switched s f x xs)
switched-IsValid s f x xs ok_s e = record {
  one_place = λ t b. ground (arith, ok_s.one_place t b, ap (occurs t) e, none_doomed s f ok_s);
  one_queue = ok_s.one_queue;
  ready_status = λ t h. ground (arith, ok_s.ready_status t, ok_s.one_place t 0, ap (occurs t) e);
  queue_status =
      λ t b h. ground (arith, ok_s.queue_status t b, ok_s.one_place t b, ap (occurs t) e);
  doomed_status = λ t h.
      ground
        (arith, ok_s.idle_status t refl, ok_s.one_place t 0, ap (occurs t) e, none_doomed s f ok_s);
  cpu_status = λ h. ground arith;
  idle_status = λ t i h. cc;
  ready_control = λ t h. ok_s.ready_control t (ground (arith, ap (occurs t) e));
  queue_control = ok_s.queue_control;
  fresh_level = λ h. ok_s.idle_level refl;
  idle_level = λ h. cc;
  fresh_doomed = λ h. ground (arith, ok_s.ready_control x, ap (occurs x) e);
  no_lost_wakeup = λ b h. ground (arith, ok_s.no_lost_wakeup b, ap (waking_in b s.control) e);
}

pub find_next_to_run_lem :
    (k : Kernel) → k.level ≡ int_off → find_next_to_run k ≡ ok (first_ready k k.ready_list)
unfolding find_next_to_run
find_next_to_run_lem k off = ap (λ l. assert (is_off l) >> ok (first_ready k k.ready_list)) off

-- What Run leaves.
abbrev pub ran : Kernel → ℕ → Bool → Kernel
ran k x f =
    set_status
      (record k {
        current_thread = x;
        to_be_destroyed = if f then some k.current_thread else k.to_be_destroyed;
      })
      x running

pub run_lem :
    (k : Kernel) (x : ℕ) (f : Bool)
    → k.level ≡ int_off
    → (f ≡ true → k.to_be_destroyed ≡ none)
    → run k x f ≡ ok (ran k x f)
unfolding run
run_lem k x true off h =
    ap (λ l. assert (is_off l) >> (assert (is_none k.to_be_destroyed) >> ok (ran k x true))) off
    ∙ ap (λ d. assert (is_none d) >> ok (ran k x true)) (h refl)
run_lem k x false off h = ap (λ l. assert (is_off l) >> ok (ran k x false)) off

-- One round of the loop returns: another thread runs, or the processor is idle.
module _ (s : System) (f : Bool) (ok_s : IsValid (idling s f)) where
  sleep_loop_at :
      (xs : List ℕ)
      → s.kernel.ready_list ≡ xs
      → (s' : System) × (switch_to s f (first_ready s.kernel xs) ≡ ok s') × IsValid s'
  unfolding switch_to
  sleep_loop_at [] e = (idling s f, refl, ok_s)
  sleep_loop_at (x ∷ xs) e = (
    switched s f x xs,
    ap (λ r. r >>= λ k. ok (record s { kernel = k; cpu = executing }))
        (run_lem (record s.kernel { ready_list = xs }) x f (ok_s.idle_level refl)
          (λ _. none_doomed s f ok_s)),
    switched-IsValid s f x xs ok_s e,
  )

  pub sleep_loop_lem : (s' : System) × (sleep_loop s f ≡ ok s') × IsValid s'
  unfolding sleep_loop
  sleep_loop_lem =
      let (s1, runs, ok_s1) = sleep_loop_at s.kernel.ready_list refl in
      (
        s1,
        ap (λ r. r >>= switch_to s f) (find_next_to_run_lem s.kernel (ok_s.idle_level refl)) ∙ runs,
        ok_s1,
      )

-- Sleep, called with the invariant as Sleep's caller leaves it.
pub sleep_lem :
    (s : System) (f : Bool)
    → IsValid (idling (record s { kernel = set_status s.kernel s.kernel.current_thread blocked }) f)
    → (s' : System) × (sleep s f ≡ ok s') × IsValid s'
unfolding sleep
sleep_lem s f ok_s =
    let s0 : System = record s { kernel = set_status s.kernel s.kernel.current_thread blocked } in
    let (s1, runs, ok_s1) = sleep_loop_lem s0 f ok_s in
    (s1, ap (λ l. assert (is_off l) >> sleep_loop s0 f) (ok_s.idle_level refl) ∙ runs, ok_s1)
