-- ===== src/Interrupt.antt =====
-- code/machine/interrupt.h and interrupt.cc: the simulated clock and the interrupts of the devices.
-- What Interrupt and Statistics hold, with the number of PendingInterrupt objects made so far, which
-- stands for the address of the next one, is one state with W, all the rest of the kernel.
pub mod Sorted
pub mod Fire
pub mod Due
pub mod Clock
pub mod Timer
use nachos.Prelude.{
  ℕ, ◌+◌, ◌-◌, Bool, true, false, not, ◌&&◌, ◌||◌, List, [], ◌∷◌, Option, none, some, ℤ, pos,
  pos_part, sub_ℕ, ltb_ℤ, ltb, leb, ◌==◌, if◌then◌else◌, Result, ok, abort, ◌>>=◌, ◌>>◌, assert,
  zero, suc, length,
}
use nachos.Threads.{IntStatus, int_off, int_on}
use nachos.Threads.Scheduler.{is_off}
use nachos.SortedList.{insert}

pub data MachineStatus : Type 0 where
  idle_mode system_mode user_mode : MachineStatus

pub data IntType : Type 0 where
  timer_int disk_int console_write_int console_read_int network_send_int network_recv_int : IntType

-- `call_on_interrupt` names the object of the device that is called.
pub record PendingInterrupt : Type 0 where
  pub address : ℕ
  pub call_on_interrupt : ℕ
  pub when : ℕ
  pub kind : IntType

abbrev pub same : PendingInterrupt → PendingInterrupt → Bool
same x y = x.address == y.address

unfoldable pub pending_compare : PendingInterrupt → PendingInterrupt → ℤ
pending_compare x y =
    if ltb x.when y.when then sub_ℕ 0 1 else if ltb y.when x.when then pos 1 else pos 0

pub record Sim (W : Type 0) : Type 0 where
  pub level : IntStatus
  pub pending : List PendingInterrupt
  pub in_handler : Bool
  pub yield_on_return : Bool
  pub status : MachineStatus
  pub total_ticks : ℕ
  pub idle_ticks : ℕ
  pub system_ticks : ℕ
  pub user_ticks : ℕ
  pub made : ℕ
  pub world : W

abbrev user_tick : ℕ
user_tick = 1

abbrev system_tick : ℕ
system_tick = 10

-- What a handler does to the interrupts, besides what it does to the rest of the kernel.
pub data Action : Type 0 where
  schedules : ℕ → ℤ → IntType → Action
  yields_on_return : Action
  turns_off : Action

-- Whether the loop goes round: an interrupt is pending whose time has come.
unfoldable pub front_is_due : ℕ → List PendingInterrupt → Bool
front_is_due now [] = false
front_is_due now (next ∷ rest) = leb next.when now

-- The handlers of the devices, and DelayedLoad(0, 0) of the machine.
pub record Devices (W : Type 0) : Type 0 where
  pub handle : ℕ → Sim W → W × List Action
  pub clear_load : W → W

-- How OneTick and SetLevel end: they come back, or they call Yield of the current thread, after
-- which the status is to be as it was.
pub data Ticked (W : Type 0) : Type 0 where
  comes_back : Sim W → Ticked W
  calls_yield : MachineStatus → Sim W → Ticked W

module _ {W : Type 0} where
  -- The constructors of Interrupt and Statistics.
  unfoldable pub start : W → Sim W
  start w = record {
    level = int_off;
    pending = [];
    in_handler = false;
    yield_on_return = false;
    status = system_mode;
    total_ticks = 0;
    idle_ticks = 0;
    system_ticks = 0;
    user_ticks = 0;
    made = 0;
    world = w;
  }

  unfoldable pub change_level : Sim W → IntStatus → Sim W
  change_level s now = record s { level = now }

  -- Once the ASSERT has passed, `when` is the sum of two natural numbers.
  unfoldable pub schedule : Sim W → ℕ → ℤ → IntType → Result (Sim W)
  schedule s to_call from_now kind = do
    let to_occur : PendingInterrupt = record {
      address = s.made;
      call_on_interrupt = to_call;
      when = s.total_ticks + pos_part from_now;
      kind = kind;
    }
    assert (ltb_ℤ (pos 0) from_now)
    placed ← insert same pending_compare s.pending to_occur
    ok (record s { pending = placed; made = s.made + 1 })

  unfoldable pub ask_yield : Sim W → Result (Sim W)
  ask_yield s = assert s.in_handler >> ok (record s { yield_on_return = true })

  -- SetLevel(IntOff), which needs no clock.
  unfoldable pub set_level_off : Sim W → Sim W
  unfolding change_level
  set_level_off s = change_level s int_off

  unfoldable pub act : Sim W → Action → Result (Sim W)
  unfolding schedule ask_yield set_level_off
  act s (schedules to_call from_now kind) = schedule s to_call from_now kind
  act s yields_on_return = ask_yield s
  act s turns_off = ok (set_level_off s)

  unfoldable pub act_all : Sim W → List Action → Result (Sim W)
  unfolding act
  act_all s [] = ok s
  act_all s (a ∷ rest) = act s a >>= λ s'. act_all s' rest

  -- The clock goes on to the next interrupt.
  unfoldable pub skip_to : Sim W → ℕ → Sim W
  skip_to s when = record s {
    idle_ticks = s.idle_ticks + (when - s.total_ticks);
    total_ticks = when;
  }

  -- The clock goes on by one tick.
  unfoldable pub advance_in : MachineStatus → Sim W → Sim W
  advance_in system_mode s = record s {
    total_ticks = s.total_ticks + system_tick;
    system_ticks = s.system_ticks + system_tick;
  }
  advance_in other s = record s {
    total_ticks = s.total_ticks + user_tick;
    user_ticks = s.user_ticks + user_tick;
  }

  unfoldable pub yield_if_asked : Sim W → MachineStatus → Ticked W
  yield_if_asked s old_status =
      if s.yield_on_return
      then calls_yield old_status (record s { yield_on_return = false; status = system_mode })
      else comes_back s

  -- The end of OneTick, once Yield has come back.
  unfoldable pub after_yield : MachineStatus → Sim W → Sim W
  after_yield old_status s = record s { status = old_status }

  module _ (d : Devices W) where
    unfoldable pub call_on : Sim W → PendingInterrupt → Result (Sim W)
    unfolding act_all
    call_on s next =
        let (w, actions) = d.handle next.call_on_interrupt s in
        act_all (record s { world = w }) actions

    -- One round: RemoveFront and the handler's call.
    unfoldable pub fire_front : Sim W → List PendingInterrupt → Result (Sim W)
    unfolding call_on
    fire_front s [] = abort
    fire_front s (next ∷ rest) = call_on (record s { pending = rest }) next

    -- The do-while loop. It goes round once for each interrupt that is due, so that the fuel does not
    -- run out.
    unfoldable pub fire_loop : ℕ → Sim W → Result (Sim W)
    fire_loop zero s = abort
    fire_loop (suc fuel) s = fire_front s s.pending >>= λ s'.
        elim (front_is_due s'.total_ticks s'.pending) [ true ↦ fire_loop fuel s' | false ↦ ok s' ]

    -- From the call of DelayedLoad on.
    unfoldable pub fire : Sim W → Result (Bool × Sim W)
    unfolding fire_loop
    fire s = do
      let handling = record s { world = d.clear_load s.world; in_handler = true }
      s' ← fire_loop (length s.pending) handling
      ok (true, record s' { in_handler = false })

    unfoldable pub check_front : Sim W → Bool → List PendingInterrupt → Result (Bool × Sim W)
    unfolding fire skip_to
    check_front s advance_clock [] = ok (false, s)
    check_front s advance_clock (next ∷ rest) =
        if ltb s.total_ticks next.when
        then (if advance_clock then fire (skip_to s next.when) else ok (false, s))
        else fire s

    unfoldable pub check_if_due : Sim W → Bool → Result (Bool × Sim W)
    unfolding check_front
    check_if_due s advance_clock = assert (is_off s.level) >> check_front s advance_clock s.pending

    unfoldable pub one_tick : Sim W → Result (Ticked W)
    unfolding advance_in change_level check_if_due yield_if_asked
    one_tick s = do
      (fired, s') ← check_if_due (change_level (advance_in s.status s) int_off) false
      ok (yield_if_asked (change_level s' int_on) s.status)

    -- What Idle does: it comes back, or it halts the machine, which has nothing more to do.
    unfoldable pub idle : Sim W → Result (Bool × Sim W)
    unfolding check_if_due
    idle s = do
      (fired, s') ← check_if_due (record s { status = idle_mode }) true
      ok (if fired then (true, record s' { status = system_mode }) else (false, s'))

    unfoldable pub set_level : Sim W → IntStatus → Result (Ticked W)
    unfolding change_level one_tick
    set_level s now = do
      assert (is_off now || not s.in_handler)
      let changed = change_level s now
      if not (is_off now) && is_off s.level then one_tick changed else ok (comes_back changed)
