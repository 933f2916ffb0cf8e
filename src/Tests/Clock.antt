-- ===== src/Tests/Clock.antt =====
-- A machine whose only device is a timer, code/machine/interrupt.cc and timer.cc.
use nachos.Prelude.{
  ℕ, ◌+◌, ◌≤◌, ◌<◌, ◌≡◌, refl, Bool, true, false, List, [], ◌∷◌, arith, ok, pos, ◌==◌, ℤ, ◌-ℤ◌,
}
use nachos.Threads.{int_off, int_on}
use nachos.SortedList.{insert, precedes, is_in_list}
use nachos.SortedList.Laws.{IsSorted, Placed, insert_lem}
use nachos.Interrupt.{Sim, system_mode, timer_int, Devices, act_all, one_tick, idle, check_if_due}
use nachos.Interrupt.Sorted.{IsOrdered}
use nachos.Interrupt.Fire.{WellBehaved}
use nachos.Interrupt.Due.{IsValid, Checked, check_if_due_lem}
use nachos.Interrupt.Clock.{Idles, Ticks, idle_lem, one_tick_lem}
use nachos.Interrupt.Timer.{Timer, call_back, Rings, call_back_lem, call_back-Allowed}

abbrev by_size : ℕ → ℕ → ℤ
by_size x y = pos x -ℤ pos y

less : (x y : ℕ) → precedes by_size x y ≡ true → x < y
unfolding ◌-ℤ◌
less x y h = ground arith

not_less : (x y : ℕ) → precedes by_size x y ≡ false → y ≤ x
unfolding ◌-ℤ◌
not_less x y h = ground arith

equal_refl : (x : ℕ) → (x == x) ≡ true
equal_refl x = ground arith

insert_lem_example :
    (placed : List ℕ) × (insert ◌==◌ by_size (3 ∷ 5 ∷ []) 4 ≡ ok placed)
    × Placed (λ x. x) 4 (3 ∷ 5 ∷ []) placed
    × IsSorted (λ x. x) placed
unfolding is_in_list
insert_lem_example =
    insert_lem ◌==◌ equal_refl by_size (λ x. x) less not_less (3 ∷ 5 ∷ []) 4 refl (omega arith)

abbrev timer : Timer
timer = record { randomize = true; disable = false }

abbrev devices : Devices ℕ
devices = record {
  handle = λ device s. (s.world + 1, call_back timer 0 s.world s.status);
  clear_load = λ world. world;
}

devices-WellBehaved : WellBehaved devices
devices-WellBehaved = record { allowed = λ device s. call_back-Allowed timer 0 s.world s.status }

-- The timer's interrupt is nine ticks ahead.
abbrev in_user : Sim ℕ
in_user = record {
  level = int_on;
  pending = record { address = 0; call_on_interrupt = 0; when = 100; kind = timer_int } ∷ [];
  in_handler = false;
  yield_on_return = false;
  status = system_mode;
  total_ticks = 91;
  idle_ticks = 0;
  system_ticks = 90;
  user_ticks = 1;
  made = 1;
  world = 7;
}

in_user-IsValid : IsValid in_user
in_user-IsValid = record {
  outside = refl;
  ordered = record { sorted = (tt, tt); addressed = (omega arith, tt) };
  future = (omega arith, tt);
  counted = omega arith;
}

one_tick_lem_example : Ticks devices devices-WellBehaved in_user (one_tick devices in_user)
one_tick_lem_example = one_tick_lem devices devices-WellBehaved in_user in_user-IsValid

abbrev off : Sim ℕ
off = record in_user { level = int_off }

off-IsValid : IsValid off
off-IsValid = record {
  outside = refl;
  ordered = record { sorted = (tt, tt); addressed = (omega arith, tt) };
  future = (omega arith, tt);
  counted = omega arith;
}

idle_lem_example : Idles devices devices-WellBehaved off.pending off (idle devices off)
idle_lem_example = idle_lem devices devices-WellBehaved off off-IsValid refl

check_if_due_lem_example :
    (fired : Bool) × (s' : Sim ℕ) × (check_if_due devices off true ≡ ok (fired, s'))
    × IsValid s'
    × (s'.level ≡ int_off)
    × Checked devices devices-WellBehaved true off.pending off fired s'
check_if_due_lem_example =
    check_if_due_lem devices devices-WellBehaved off true refl refl off-IsValid.ordered
      (omega arith)

abbrev handling : Sim ℕ
handling = record off { in_handler = true; pending = []; total_ticks = 100 }

call_back_lem_example :
    (s' : Sim ℕ) × (act_all handling (call_back timer 0 7 system_mode) ≡ ok s')
    × IsOrdered s'
    × Rings timer 0 7 refl handling s'
call_back_lem_example =
    call_back_lem timer 0 7 refl handling refl (record { sorted = tt; addressed = tt })
