-- ===== src/Interrupt/Clock.antt =====
-- Interrupt::OneTick, Idle and SetLevel of code/machine/interrupt.cc: the clock.
use nachos.Prelude.{
  ℕ, ◌<◌, ◌≡◌, refl, sym, ap, ltb_iff, ◌∙◌, subst, Bool, true, false, not, ◌&&◌, List, [], ◌∷◌,
  arith, if◌then◌else◌, Result, ok, ◌>>=◌, ◌>>◌, assert, Bool-cases, inl, inr,
}
use nachos.Threads.{IntStatus, int_off, int_on}
use nachos.Threads.Scheduler.{is_off}
use nachos.Interrupt.{
  PendingInterrupt, Sim, MachineStatus, Ticked, comes_back, calls_yield, idle_mode, system_mode,
  user_mode, Devices, check_front, advance_in, yield_if_asked, change_level, one_tick, idle,
  set_level,
}
use nachos.Interrupt.Sorted.{IsOrdered, InFuture}
use nachos.Interrupt.Fire.{WellBehaved}
use nachos.Interrupt.Due.{
  IsValid, Handles, gone_on, Counted, relabel, check_front_lem, unguarded, Checked, Checked-later,
  check_if_due_lem,
}

module _ {W : Type 0} (d : Devices W) (good : WellBehaved d) where
  -- What Idle does: with nothing pending the machine halts, as it was; otherwise the clock goes on to
  -- the first interrupt, and the handlers run of what has come due then, its own one first.
  abbrev pub Idles : List PendingInterrupt → Sim W → Result (Bool × Sim W) → Type 0
  Idles [] s r = r ≡ ok (false, record s { status = idle_mode })
  Idles (next ∷ rest) s r =
      (s' : Sim W) × (r ≡ ok (true, s'))
      × IsValid s'
      × (s'.total_ticks ≡ next.when)
      × (s'.status ≡ system_mode)
      × (s'.level ≡ int_off)
      × ((s1 : Sim W) × Handles d next (gone_on d (record s { status = idle_mode }) next.when) s1
          × (s' ≡ record s1 { status = system_mode }))

  idle_at :
      (s : Sim W) (pending : List PendingInterrupt)
      → s.pending ≡ pending
      → IsValid s
      → s.level ≡ int_off
      → Idles pending s (
          check_front d (record s { status = idle_mode }) true pending >>= λ (fired, s').
          ok (if fired then (true, record s' { status = system_mode }) else (false, s')))
  unfolding check_front
  idle_at s [] e v off = refl
  idle_at s (next ∷ rest) e v off =
      let waiting : Sim W = record s { status = idle_mode } in
      let (fired, s', f, k, off', (yes', total, status, ran)) =
        check_front_lem d good waiting true (next ∷ rest) e off v.outside
          (record { sorted = v.ordered.sorted; addressed = v.ordered.addressed }) v.counted in
      let later : InFuture s.total_ticks (next ∷ rest) =
        subst (InFuture s.total_ticks) e v.future in
      (
        record s' { status = system_mode },
        rw (f, yes') refl,
        relabel s' s'.level s'.yield_on_return system_mode k,
        omega (arith, total, later.0),
        refl,
        off',
        (
          s',
          subst
              (λ (b : Bool). Handles d next (if b then gone_on d waiting next.when else waiting) s')
              ((ltb_iff s.total_ticks next.when).1 later.0) ran,
          refl,
        ),
      )

  -- In a valid state with interrupts off, Idle halts the machine exactly when nothing is pending,
  -- and otherwise comes back in system mode with the clock at the time of the first pending
  -- interrupt, whose handler has run, before those of the others that came due, in a valid state.
  pub idle_lem : (s : Sim W) → IsValid s → s.level ≡ int_off → Idles s.pending s (idle d s)
  unfolding idle
  idle_lem s v off =
      rw (unguarded d good (record s { status = idle_mode }) true off)
        (idle_at s s.pending refl v off)

  advance_lem :
      (status : MachineStatus) (s : Sim W)
      → IsOrdered s
      → Counted s
      → IsOrdered (advance_in status s)
        × Counted (advance_in status s)
        × (s.total_ticks < (advance_in status s).total_ticks)
        × ((advance_in status s).in_handler ≡ s.in_handler)
        × ((advance_in status s).status ≡ s.status)
        × ((advance_in status s).pending ≡ s.pending)
  unfolding advance_in
  advance_lem system_mode s v c = (
    record { sorted = v.sorted; addressed = v.addressed },
    omega arith,
    omega arith,
    refl,
    refl,
    refl,
  )
  advance_lem user_mode s v c = (
    record { sorted = v.sorted; addressed = v.addressed },
    omega arith,
    omega arith,
    refl,
    refl,
    refl,
  )
  advance_lem idle_mode s v c = (
    record { sorted = v.sorted; addressed = v.addressed },
    omega arith,
    omega arith,
    refl,
    refl,
    refl,
  )

  -- How a tick ends that began in s with the clock at `now`: in a valid state with interrupts on,
  -- and Yield is called, in system mode, when a handler has asked for it.
  abbrev pub Ends : MachineStatus → ℕ → Sim W → Ticked W → Type 0
  Ends old_status now asked (comes_back s') =
      (asked.yield_on_return ≡ false)
      × (s' ≡ record asked { level = int_on })
      × IsValid s'
      × (s'.status ≡ old_status)
      × (now < s'.total_ticks)
  Ends old_status now asked (calls_yield status s') =
      (asked.yield_on_return ≡ true)
      × (s' ≡ record asked { level = int_on; yield_on_return = false; status = system_mode })
      × IsValid s'
      × (status ≡ old_status)
      × (now < s'.total_ticks)

  yield_if_asked_lem :
      (s : Sim W) (old_status : MachineStatus) (now : ℕ)
      → IsValid (record s { level = int_on })
      → s.status ≡ old_status
      → now < s.total_ticks
      → Ends old_status now s (yield_if_asked (record s { level = int_on }) old_status)
  unfolding yield_if_asked
  yield_if_asked_lem s old_status now v same_status later = elim (Bool-cases s.yield_on_return) [
    | inl asked ↦
        subst ending (sym asked) (
          asked,
          refl,
          relabel (record s { level = int_on }) int_on false system_mode v,
          refl,
          later,
        )
    | inr not_asked ↦ subst ending (sym not_asked) (not_asked, refl, v, same_status, later)
  ]
    where
      ending : Bool → Type 0
      ending b = Ends old_status now s (
          if b
          then calls_yield old_status
              (record s { level = int_on; yield_on_return = false; status = system_mode })
          else comes_back (record s { level = int_on }))

  -- The state in which OneTick checks the interrupts.
  abbrev pub ticking : Sim W → Sim W
  ticking s = record (advance_in s.status s) { level = int_off }

  -- A tick moves the clock on, runs the handlers of what is due, and ends with interrupts on.
  abbrev pub Ticks : Sim W → Result (Ticked W) → Type 0
  Ticks s r =
      (fired : Bool) × (s1 : Sim W) × (t : Ticked W) × Checked d good false s.pending (ticking s)
        fired s1
      × (r ≡ ok t)
      × Ends s.status s.total_ticks s1 t

  -- With handlers that schedule only times to come, OneTick in a valid state ends with no failing
  -- ASSERT, having run the handlers of what has come due, the first pending one first: where no
  -- handler has asked for a yield it comes back with interrupts on, the status as before and the
  -- clock further on, and otherwise it calls Yield in system mode with interrupts on and the
  -- request taken back; the state is valid either way: every pending interrupt lies in the future,
  -- in order of time, and each tick is counted once.
  pub one_tick_lem : (s : Sim W) → IsValid s → Ticks s (one_tick d s)
  unfolding one_tick change_level
  one_tick_lem s v =
      let (o, c, lt, h, st, same_pending) = advance_lem s.status s v.ordered v.counted in
      let t : Sim W = ticking s in
      let (fired, s1, e, k, off, ch) =
        check_if_due_lem d good t false refl (h ∙ v.outside)
          (record { sorted = o.sorted; addressed = o.addressed }) c in
      let (status, later) = Checked-later d good false t.pending t fired s1 ch in
      (
        fired,
        s1,
        yield_if_asked (record s1 { level = int_on }) s.status,
        subst (λ (l : List PendingInterrupt). Checked d good false l t fired s1) same_pending ch,
        rw e refl,
        yield_if_asked_lem s1 s.status s.total_ticks
            (relabel s1 int_on s1.yield_on_return s1.status k) (status ∙ st) (omega arith),
      )

  -- SetLevel: a tick when interrupts are turned on that were off; otherwise only the level changes.
  pub set_level_lem :
      (s : Sim W) (now : IntStatus)
      → IsValid s
      → (if not (is_off now) && is_off s.level
          then Ticks (record s { level = now }) (set_level d s now)
          else (set_level d s now ≡ ok (comes_back (record s { level = now }))))
  unfolding set_level change_level
  set_level_lem s int_off v = refl
  set_level_lem s int_on v =
      let t : Sim W = record s { level = int_on } in
      let called : set_level d s int_on
          ≡ (if is_off s.level then one_tick d t else ok (comes_back t)) =
        ap
          (λ (h : Bool).
            assert (not h) >> (if is_off s.level then one_tick d t else ok (comes_back t)))
          v.outside in
      let branch : Bool → Result (Ticked W) → Type 0 =
        λ b r. if b then Ticks t r else (r ≡ ok (comes_back t)) in
      elim (Bool-cases (is_off s.level)) [
        | inl was_off ↦
            let runs : set_level d s int_on ≡ one_tick d t =
              called ∙ ap (λ (b : Bool). if b then one_tick d t else ok (comes_back t)) was_off in
            subst (λ b. branch b (set_level d s int_on)) (sym was_off)
              (subst (λ r. Ticks t r) (sym runs)
                (one_tick_lem t (relabel s int_on s.yield_on_return s.status v)))
        | inr was_on ↦
            subst (λ b. branch b (set_level d s int_on)) (sym was_on)
              (called ∙ ap (λ (b : Bool). if b then one_tick d t else ok (comes_back t)) was_on)
      ]
