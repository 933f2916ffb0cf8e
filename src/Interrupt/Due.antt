-- ===== src/Interrupt/Due.antt =====
-- Interrupt::CheckIfDue of code/machine/interrupt.cc: the interrupts that have come due.
use nachos.Prelude.{
  ℕ, ◌+◌, ◌-◌, ◌≤◌, ◌<◌, max, ◌≡◌, refl, sym, ap, ◌∙◌, subst, Bool, true, false, List, [], ◌∷◌,
  arith, leb, ltb, ltb_iff, if◌then◌else◌, ok, ◌>>◌, assert, length, Bool-cases, inl, inr,
}
use nachos.Threads.{IntStatus, int_off}
use nachos.Threads.Scheduler.{is_off}
use nachos.Interrupt.{
  PendingInterrupt, Sim, start, MachineStatus, Devices, fire, front_is_due, skip_to, check_front,
  check_if_due,
}
use nachos.Interrupt.Sorted.{IsOrdered, InFuture, due-le-length}
use nachos.Interrupt.Fire.{WellBehaved, SameClock, Fires, fire_loop_lem, future_of_front}

-- Between two calls: no handler runs, the pending interrupts are in order and lie in the future, and
-- each tick of the clock is counted once.
pub record IsValid {W : Type 0} (s : Sim W) : Type 0 where
  pub outside : s.in_handler ≡ false
  pub ordered : IsOrdered s
  pub future : InFuture s.total_ticks s.pending
  pub counted : s.total_ticks ≡ s.idle_ticks + s.system_ticks + s.user_ticks

module _ {W : Type 0} where
  abbrev pub Counted : Sim W → Type 0
  Counted s = s.total_ticks ≡ s.idle_ticks + s.system_ticks + s.user_ticks

front_at :
    (now : ℕ) (xs : List PendingInterrupt) (next : PendingInterrupt) (rest : List PendingInterrupt)
    → xs ≡ next ∷ rest
    → next.when ≤ now
    → front_is_due now xs ≡ true
unfolding front_is_due
front_at now xs next rest e h = subst (λ l. front_is_due now l ≡ true) (sym e) (ground arith)

module _ {W : Type 0} where
  -- Neither the level nor the status matters to it.
  pub relabel :
      (s : Sim W) (level : IntStatus) (yields : Bool) (status : MachineStatus)
      → IsValid s
      → IsValid (record s { level = level; yield_on_return = yields; status = status })
  relabel s level yields status v = record {
    outside = v.outside;
    ordered = record { sorted = v.ordered.sorted; addressed = v.ordered.addressed };
    future = v.future;
    counted = v.counted;
  }

  -- It is so in the state that the constructors make.
  pub start-IsValid : (w : W) → IsValid (start w)
  unfolding start
  start-IsValid w = record {
    outside = refl;
    ordered = record { sorted = tt; addressed = tt };
    future = tt;
    counted = omega arith;
  }

module _ {W : Type 0} (d : Devices W) where
  -- From s to s' handlers have run, that of the device of `next` first, after the pending load.
  abbrev pub Handles : PendingInterrupt → Sim W → Sim W → Type 0
  Handles next s s' =
      (more : List PendingInterrupt) × (s1 : Sim W) × Fires d (next ∷ more)
        (record s { world = d.clear_load s.world; in_handler = true }) s1
      × (s' ≡ record s1 { in_handler = false })

  -- The state in which the clock has gone on to an interrupt.
  abbrev pub gone_on : Sim W → ℕ → Sim W
  gone_on s when = record s {
    idle_ticks = s.idle_ticks + (when - s.total_ticks);
    total_ticks = when;
  }

head_of : PendingInterrupt → List PendingInterrupt → PendingInterrupt
head_of other [] = other
head_of other (x ∷ xs) = x

module _ {W : Type 0} (d : Devices W) (good : WellBehaved d) where
  -- Handlers run with interrupts off, for as long as the clock stands.
  fire_lem :
      (s : Sim W) (next : PendingInterrupt) (rest : List PendingInterrupt)
      → s.pending ≡ next ∷ rest
      → s.level ≡ int_off
      → IsOrdered s
      → Counted s
      → front_is_due s.total_ticks s.pending ≡ true
      → (s' : Sim W) × (fire d s ≡ ok (true, s'))
        × IsValid s'
        × SameClock s s'
        × (s'.level ≡ int_off)
        × Handles d next s s'
  unfolding fire head_of
  fire_lem s next rest at_front off v counted front =
      let handling : Sim W = record s { world = d.clear_load s.world; in_handler = true } in
      let (s', e, k, future, (x, more, (r, s1, pending, now, acts, fires))) =
        fire_loop_lem d good (length s.pending) handling off refl
          (record { sorted = v.sorted; addressed = v.addressed }) front
          (due-le-length s.total_ticks s.pending) in
      let same : x ≡ next = ap (head_of x) (sym pending ∙ at_front) in
      (
        record s' { in_handler = false },
        rw e refl,
        record {
          outside = refl;
          ordered = record { sorted = k.ordered.sorted; addressed = k.ordered.addressed };
          future = future;
          counted = omega (
            arith, k.clock.total, k.clock.while_idle, k.clock.in_system, k.clock.in_user, counted,
          );
        },
        record {
          total = k.clock.total;
          while_idle = k.clock.while_idle;
          in_system = k.clock.in_system;
          in_user = k.clock.in_user;
          in_status = k.clock.in_status;
        },
        k.off,
        (
          more,
          s',
          subst (λ y. Fires d (y ∷ more) handling s') same (r, s1, pending, now, acts, fires),
          refl,
        ),
      )

  -- What a check gives, at a list of pending interrupts: without one, nothing has changed; otherwise
  -- the front one has been called if its time had come, or if the clock may go on to it.
  abbrev pub Checked : Bool → List PendingInterrupt → Sim W → Bool → Sim W → Type 0
  Checked advance_clock [] s fired s' = (fired ≡ false) × (s' ≡ s)
  Checked true (next ∷ rest) s fired s' =
      (fired ≡ true)
      × (s'.total_ticks ≡ max next.when s.total_ticks)
      × (s'.status ≡ s.status)
      × Handles d next (if ltb s.total_ticks next.when then gone_on d s next.when else s) s'
  Checked false (next ∷ rest) s fired s' =
      (fired ≡ leb next.when s.total_ticks)
      × (s'.total_ticks ≡ s.total_ticks)
      × (s'.status ≡ s.status)
      × (if fired then Handles d next s s' else (s' ≡ s))

  pub check_front_lem :
      (s : Sim W) (advance_clock : Bool) (pending : List PendingInterrupt)
      → s.pending ≡ pending
      → s.level ≡ int_off
      → s.in_handler ≡ false
      → IsOrdered s
      → Counted s
      → (fired : Bool) × (s' : Sim W) × (check_front d s advance_clock pending ≡ ok (fired, s'))
        × IsValid s'
        × (s'.level ≡ int_off)
        × Checked advance_clock pending s fired s'
  unfolding check_front skip_to front_is_due
  check_front_lem s advance_clock [] e off out v counted = (
    false,
    s,
    refl,
    record {
      outside = out;
      ordered = v;
      future = subst (InFuture s.total_ticks) (sym e) tt;
      counted = counted;
    },
    off,
    (refl, refl),
  )
  check_front_lem s true (next ∷ rest) e off out v counted =
      elim (Bool-cases (ltb s.total_ticks next.when)) [
        | inl later ↦
            let lt : s.total_ticks < next.when = (ltb_iff _ _).0 later in
            let front : front_is_due next.when s.pending ≡ true =
              front_at next.when s.pending next rest e (omega arith) in
            let (s', f, k, c, off', ran) =
              fire_lem (skip_to s next.when) next rest e off
                (record { sorted = v.sorted; addressed = v.addressed }) (omega arith) front in
            (
              true,
              s',
              rw later f,
              k,
              off',
              (refl, omega (arith, c.total), c.in_status, rw later ran),
            )
        | inr now ↦
            let front : front_is_due s.total_ticks s.pending ≡ true =
              front_at s.total_ticks s.pending next rest e (ground arith) in
            let (s', f, k, c, off', ran) = fire_lem s next rest e off v counted front in
            (true, s', rw now f, k, off', (refl, ground (arith, c.total), c.in_status, rw now ran))
      ]
  check_front_lem s false (next ∷ rest) e off out v counted =
      elim (Bool-cases (ltb s.total_ticks next.when)) [
        | inl later ↦ (
          false,
          s,
          rw later refl,
          record {
            outside = out;
            ordered = v;
            counted = counted;
            future =
                future_of_front s.total_ticks s.pending v.sorted
                  (subst (λ l. front_is_due s.total_ticks l ≡ false) (sym e) (ground arith));
          },
          off,
          (ground arith, refl, refl, refl),
        )
        | inr now ↦
            let front : front_is_due s.total_ticks s.pending ≡ true =
              front_at s.total_ticks s.pending next rest e (ground arith) in
            let (s', f, k, c, off', ran) = fire_lem s next rest e off v counted front in
            (true, s', rw now f, k, off', (ground arith, c.total, c.in_status, ran))
      ]

  pub unguarded :
      (s : Sim W) (advance_clock : Bool)
      → s.level ≡ int_off
      → check_if_due d s advance_clock ≡ check_front d s advance_clock s.pending
  unfolding check_if_due
  unguarded s advance_clock off =
      ap (λ (l : IntStatus). assert (is_off l) >> check_front d s advance_clock s.pending) off

  pub Checked-later :
      (advance_clock : Bool) (pending : List PendingInterrupt) (s : Sim W) (fired : Bool)
      (s' : Sim W)
      → Checked advance_clock pending s fired s'
      → (s'.status ≡ s.status) × (s.total_ticks ≤ s'.total_ticks)
  Checked-later advance_clock [] s fired s' (f, e) = rw e (refl, omega arith)
  Checked-later true (next ∷ rest) s fired s' (f, total, status, ran) =
      (status, omega (arith, total))
  Checked-later false (next ∷ rest) s fired s' (f, total, status, ran) =
      (status, omega (arith, total))

  -- With interrupts off and outside of a handler, the loop of CheckIfDue ends and no ASSERT fails;
  -- when the first pending interrupt has come due, or the clock may go on to it, the handlers run
  -- of what is due, that of the first one first, what each does carried out in order, and only
  -- then the flag is true; the clock moves only then; afterwards every pending interrupt lies in
  -- the future.
  pub check_if_due_lem :
      (s : Sim W) (advance_clock : Bool)
      → s.level ≡ int_off
      → s.in_handler ≡ false
      → IsOrdered s
      → Counted s
      → (fired : Bool) × (s' : Sim W) × (check_if_due d s advance_clock ≡ ok (fired, s'))
        × IsValid s'
        × (s'.level ≡ int_off)
        × Checked advance_clock s.pending s fired s'
  check_if_due_lem s advance_clock off out v counted =
      let (fired, s', e, k, off', checked) =
        check_front_lem s advance_clock s.pending refl off out v counted in
      (fired, s', unguarded s advance_clock off ∙ e, k, off', checked)
