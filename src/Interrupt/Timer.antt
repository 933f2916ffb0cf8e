-- ===== src/Interrupt/Timer.antt =====
-- code/machine/timer.cc and code/threads/alarm.cc: the timer, whose handler asks for a context
-- switch. What RandomNumber gives is an argument.
use nachos.Prelude.{
  ℕ, suc, ◌+◌, ◌-◌, ◌*◌, ◌%◌, ◌≤◌, ◌<◌, ◌≡◌, refl, ◌∙◌, ap, Bool, true, false, List, [], ◌∷◌, ◌++◌,
  arith, sym, if◌then◌else◌, pos, Result, ok, ◌>>=◌, ◌>>◌, assert, Bool-cases, inl, inr, ◌||◌, not,
}
use nachos.SortedList.Laws.{All, All-append, Placed}
use nachos.Interrupt.Fire.{Allowed}
use nachos.Interrupt.{
  PendingInterrupt, Sim, MachineStatus, idle_mode, system_mode, user_mode, Action, schedules,
  yields_on_return, timer_int, act_all, act, ask_yield,
}
use nachos.Interrupt.Sorted.{IsOrdered, time, schedule_lem, interrupt}

pub record Timer : Type 0 where
  pub randomize : Bool
  pub disable : Bool

abbrev timer_ticks : ℕ
timer_ticks = 100

unfoldable pub delay : Timer → ℕ → ℕ
delay t random = if t.randomize then 1 + random % (timer_ticks * 2) else timer_ticks

-- `this` names the timer among the devices.
unfoldable pub set_interrupt : Timer → ℕ → ℕ → List Action
unfolding delay
set_interrupt t this random =
    if t.disable then [] else schedules this (pos (delay t random)) timer_int ∷ []

abbrev pub is_idle : MachineStatus → Bool
is_idle idle_mode = true
is_idle other = false

-- Alarm::CallBack.
unfoldable pub alarm_call_back : MachineStatus → List Action
alarm_call_back status = if not (is_idle status) then yields_on_return ∷ [] else []

-- Timer::CallBack.
unfoldable pub call_back : Timer → ℕ → ℕ → MachineStatus → List Action
unfolding alarm_call_back set_interrupt
call_back t this random status = alarm_call_back status ++ set_interrupt t this random

delay_bounds : (t : Timer) (random : ℕ) → (1 ≤ delay t random) × (delay t random ≤ 200)
unfolding delay
delay_bounds t random = ground arith

module _ {W : Type 0} (t : Timer) (this random : ℕ) (on : t.disable ≡ false) where
  -- The handler of a timer that is on comes back with a next interrupt of its own in the list, one to
  -- two hundred ticks from now, and a context switch asked for unless the machine idles.
  abbrev pub Rings : Sim W → Sim W → Type 0
  Rings s s' =
      (next : PendingInterrupt) × Placed time next s.pending s'.pending
      × (next.call_on_interrupt ≡ this)
      × (s.total_ticks < next.when)
      × (next.when ≤ s.total_ticks + 200)
      × (s'.yield_on_return ≡ (not (is_idle s.status) || s.yield_on_return))
      × (s'.total_ticks ≡ s.total_ticks)

  set_interrupt_lem :
      (s : Sim W)
      → IsOrdered s
      → (placed : List PendingInterrupt) × (act_all s (set_interrupt t this random)
          ≡ ok (record s { pending = placed; made = s.made + 1 }))
        × IsOrdered (record s { pending = placed; made = s.made + 1 })
        × Placed time (interrupt s this (delay t random - 1) timer_int) s.pending placed
  unfolding set_interrupt act_all act
  set_interrupt_lem s v =
      let later : delay t random ≡ suc (delay t random - 1) =
        omega (arith, delay_bounds t random) in
      let acts : set_interrupt t this random
          ≡ schedules this (pos (suc (delay t random - 1))) timer_int ∷ [] =
        ap
          (λ (off : Bool). if off then [] else schedules this (pos (delay t random)) timer_int ∷ [])
          on
        ∙ ap (λ (n : ℕ). schedules this (pos n) timer_int ∷ []) later in
      let (placed, e, ordered, same_due, future, where_placed) =
        schedule_lem s this (delay t random - 1) timer_int v in
      (
        placed,
        ap (act_all s) acts ∙ ap (λ (r : Result (Sim W)). r >>= λ s'. ok s') e,
        ordered,
        where_placed,
      )

  -- The two cases of Alarm::CallBack.
  waiting :
      (s : Sim W)
      → is_idle s.status ≡ true
      → act_all s (call_back t this random s.status) ≡ act_all s (set_interrupt t this random)
  unfolding call_back alarm_call_back
  waiting s idles =
      ap
        (λ (b : Bool).
          act_all s ((if not b then yields_on_return ∷ [] else []) ++ set_interrupt t this random))
        idles

  busy :
      (s : Sim W)
      → is_idle s.status ≡ false
      → s.in_handler ≡ true
      → act_all s (call_back t this random s.status)
        ≡ act_all (record s { yield_on_return = true }) (set_interrupt t this random)
  unfolding call_back alarm_call_back act_all act ask_yield
  busy s works h =
      ap
        (λ (b : Bool).
          act_all s ((if not b then yields_on_return ∷ [] else []) ++ set_interrupt t this random))
        works
      ∙ ap
          (λ (b : Bool). (assert b >> ok (record s { yield_on_return = true })) >>= λ s'.
            act_all s' (set_interrupt t this random))
          h

  -- The handler of a timer that is on comes back with a next interrupt of the timer in its place
  -- in the queue, one to two hundred ticks ahead, the clock unchanged, and a context switch asked
  -- for unless the machine idles.
  pub call_back_lem :
      (s : Sim W)
      → s.in_handler ≡ true
      → IsOrdered s
      → (s' : Sim W) × (act_all s (call_back t this random s.status) ≡ ok s')
        × IsOrdered s'
        × Rings s s'
  call_back_lem s h v = elim (Bool-cases (is_idle s.status)) [
    | inl idles ↦
        let (placed, e, ordered, where_placed) = set_interrupt_lem s v in
        (
          record s { pending = placed; made = s.made + 1 },
          waiting s idles ∙ e,
          ordered,
          (
            interrupt s this (delay t random - 1) timer_int,
            where_placed,
            refl,
            omega arith,
            omega (arith, delay_bounds t random),
            sym (ap (λ (b : Bool). not b || s.yield_on_return) idles),
            refl,
          ),
        )
    | inr works ↦
        let asked : Sim W = record s { yield_on_return = true } in
        let (placed, e, ordered, where_placed) =
          set_interrupt_lem asked (record { sorted = v.sorted; addressed = v.addressed }) in
        (
          record asked { pending = placed; made = s.made + 1 },
          busy s works h ∙ e,
          ordered,
          (
            interrupt s this (delay t random - 1) timer_int,
            where_placed,
            refl,
            omega arith,
            omega (arith, delay_bounds t random),
            sym (ap (λ (b : Bool). not b || s.yield_on_return) works),
            refl,
          ),
        )
  ]

-- What the timer's handler does is what a device may do.
pub call_back-Allowed :
    (t : Timer) (this random : ℕ) (status : MachineStatus)
    → All Allowed (call_back t this random status)
unfolding call_back alarm_call_back set_interrupt
call_back-Allowed t this random status =
    All-append Allowed (alarm_call_back status) (set_interrupt t this random) (rung status)
      (set_lem t.disable)
  where
    later : (n : ℕ) × (pos (delay t random) ≡ pos (suc n))
    later = (delay t random - 1, ap pos (omega (arith, delay_bounds t random)))

    rung : (st : MachineStatus) → All Allowed (alarm_call_back st)
    rung idle_mode = tt
    rung system_mode = (tt, tt)
    rung user_mode = (tt, tt)

    set_lem :
        (off : Bool)
        → All Allowed (if off then [] else schedules this (pos (delay t random)) timer_int ∷ [])
    set_lem true = tt
    set_lem false = (later, tt)
