-- ===== src/Interrupt/Fire.antt =====
-- The loop of Interrupt::CheckIfDue, code/machine/interrupt.cc, over the handlers that it calls.
use nachos.Prelude.{
  ℕ, zero, suc, ◌+◌, ◌≤◌, ◌≡◌, refl, sym, ◌∙◌, subst, true, false, List, [], ◌∷◌, arith, pos,
  Result, ok, Bool-cases, inl, inr,
}
use nachos.Threads.{int_off}
use nachos.SortedList.Laws.{All, IsSorted}
use nachos.Interrupt.{
  PendingInterrupt, Sim, Action, schedules, yields_on_return, turns_off, Devices, act, act_all,
  ask_yield, set_level_off, call_on, fire_front, fire_loop, front_is_due,
}
use nachos.Interrupt.Sorted.{IsOrdered, InFuture, due, time, schedule_lem}

-- A device schedules its interrupts at times to come.
abbrev pub Allowed : Action → Type 0
Allowed (schedules to_call from_now kind) = (n : ℕ) × (from_now ≡ pos (suc n))
Allowed yields_on_return = Unit
Allowed turns_off = Unit

pub record WellBehaved {W : Type 0} (d : Devices W) : Type 0 where
  pub allowed : (device : ℕ) (s : Sim W) → All Allowed (d.handle device s).1

-- The clock and its counts stand still.
pub record SameClock {W : Type 0} (s s' : Sim W) : Type 0 where
  pub total : s'.total_ticks ≡ s.total_ticks
  pub while_idle : s'.idle_ticks ≡ s.idle_ticks
  pub in_system : s'.system_ticks ≡ s.system_ticks
  pub in_user : s'.user_ticks ≡ s.user_ticks
  pub in_status : s'.status ≡ s.status

-- What a handler leaves.
pub record Handled {W : Type 0} (s s' : Sim W) : Type 0 where
  pub clock : SameClock s s'
  pub off : s'.level ≡ int_off
  pub handling : s'.in_handler ≡ true
  pub ordered : IsOrdered s'

-- In a list in order whose front is not due, nothing is.
pub future_of_front :
    (now : ℕ) (xs : List PendingInterrupt)
    → IsSorted time xs
    → front_is_due now xs ≡ false
    → InFuture now xs
unfolding front_is_due
future_of_front now [] s h = tt
future_of_front now (x ∷ xs) s h = (ground arith, above xs s.0)
  where
    above : (ys : List PendingInterrupt) → All (λ y. time x ≤ time y) ys → InFuture now ys
    above [] k = tt
    above (y ∷ ys) k = (ground arith, above ys k.1)

pub front_counts :
    (now : ℕ) (xs : List PendingInterrupt) → front_is_due now xs ≡ true → 1 ≤ due now xs
unfolding front_is_due
front_counts now [] h = cc
front_counts now (x ∷ xs) h = ground arith

module _ {W : Type 0} where
  -- The interrupts that have come due are the same ones as before.
  abbrev pub Acted : Sim W → Sim W → Type 0
  Acted s s' = Handled s s' × (due s.total_ticks s'.pending ≡ due s.total_ticks s.pending)

  act_lem :
      (s : Sim W) (a : Action)
      → s.level ≡ int_off
      → s.in_handler ≡ true
      → IsOrdered s
      → Allowed a
      → (s' : Sim W) × (act s a ≡ ok s') × Acted s s'
  unfolding act ask_yield set_level_off
  act_lem s (schedules to_call from_now kind) off h v (n, e) =
      let (placed, returns, ordered, same_due, future, where_placed) =
        schedule_lem s to_call n kind v in
      (
        record s { pending = placed; made = s.made + 1 },
        rw e returns,
        (
          record {
            clock = record {
              total = refl;
              while_idle = refl;
              in_system = refl;
              in_user = refl;
              in_status = refl;
            };
            off = off;
            handling = h;
            ordered = ordered;
          },
          same_due,
        ),
      )
  act_lem s yields_on_return off h v allowed = (
    record s { yield_on_return = true },
    rw h refl,
    (
      record {
        clock = record {
          total = refl;
          while_idle = refl;
          in_system = refl;
          in_user = refl;
          in_status = refl;
        };
        off = off;
        handling = h;
        ordered = record { sorted = v.sorted; addressed = v.addressed };
      },
      refl,
    ),
  )
  act_lem s turns_off off h v allowed = (
    record s { level = int_off },
    refl,
    (
      record {
        clock = record {
          total = refl;
          while_idle = refl;
          in_system = refl;
          in_user = refl;
          in_status = refl;
        };
        off = refl;
        handling = h;
        ordered = record { sorted = v.sorted; addressed = v.addressed };
      },
      refl,
    ),
  )

  pub trans_clock : (s t u : Sim W) → SameClock s t → SameClock t u → SameClock s u
  trans_clock s t u c e = record {
    total = e.total ∙ c.total;
    while_idle = e.while_idle ∙ c.while_idle;
    in_system = e.in_system ∙ c.in_system;
    in_user = e.in_user ∙ c.in_user;
    in_status = e.in_status ∙ c.in_status;
  }

  act_all_lem :
      (s : Sim W) (actions : List Action)
      → s.level ≡ int_off
      → s.in_handler ≡ true
      → IsOrdered s
      → All Allowed actions
      → (s' : Sim W) × (act_all s actions ≡ ok s') × Acted s s'
  unfolding act_all
  act_all_lem s [] off h v allowed = (
    s,
    refl,
    (
      record {
        clock = record {
          total = refl;
          while_idle = refl;
          in_system = refl;
          in_user = refl;
          in_status = refl;
        };
        off = off;
        handling = h;
        ordered = v;
      },
      refl,
    ),
  )
  act_all_lem s (a ∷ rest) off h v allowed =
      let (s1, e, (k, same_due)) = act_lem s a off h v allowed.0 in
      let (s2, f, (l, same_due')) = act_all_lem s1 rest k.off k.handling k.ordered allowed.1 in
      (
        s2,
        rw e f,
        (
          record {
            clock = trans_clock s s1 s2 k.clock l.clock;
            off = l.off;
            handling = l.handling;
            ordered = l.ordered;
          },
          subst (λ n. due n s2.pending ≡ due n s1.pending) k.clock.total same_due' ∙ same_due,
        ),
      )

  -- The interrupts that a loop has taken from the front, in this order: each one was due, and its
  -- device's handler has done to the kernel and to the interrupts what it does.
  abbrev pub Fires : Devices W → List PendingInterrupt → Sim W → Sim W → Type 0
  Fires d [] s s' = s' ≡ s
  Fires d (next ∷ more) s s' =
      (rest : List PendingInterrupt) × (s1 : Sim W) × (s.pending ≡ next ∷ rest)
      × (next.when ≤ s.total_ticks)
      × (act_all
            (record s {
              pending = rest;
              world = (d.handle next.call_on_interrupt (record s { pending = rest })).0;
            })
            (d.handle next.call_on_interrupt (record s { pending = rest })).1
          ≡ ok s1)
      × Fires d more s1 s'

  -- The first of them.
  abbrev pub FiresFront : Devices W → Sim W → Sim W → Type 0
  FiresFront d s s' =
      (next : PendingInterrupt) × (more : List PendingInterrupt) × Fires d (next ∷ more) s s'

  module _ (d : Devices W) (good : WellBehaved d) where
    -- One round, as the first of the interrupts that are fired.
    abbrev Fired : Sim W → List PendingInterrupt → Sim W → Type 0
    Fired s pending s' =
        (next : PendingInterrupt) × (rest : List PendingInterrupt) × (pending ≡ next ∷ rest)
        × (next.when ≤ s.total_ticks)
        × (act_all
              (record s {
                pending = rest;
                world = (d.handle next.call_on_interrupt (record s { pending = rest })).0;
              })
              (d.handle next.call_on_interrupt (record s { pending = rest })).1
            ≡ ok s')

    fire_front_lem :
        (s : Sim W) (pending : List PendingInterrupt)
        → s.level ≡ int_off
        → s.in_handler ≡ true
        → IsOrdered (record s { pending = pending })
        → front_is_due s.total_ticks pending ≡ true
        → (s' : Sim W) × (fire_front d s pending ≡ ok s')
          × Handled s s'
          × (due s.total_ticks s'.pending + 1 ≡ due s.total_ticks pending)
          × Fired s pending s'
    unfolding fire_front call_on front_is_due
    fire_front_lem s [] off h v front = cc
    fire_front_lem s (next ∷ rest) off h v front =
        let called : Sim W = record s {
          pending = rest;
          world = (d.handle next.call_on_interrupt (record s { pending = rest })).0;
        } in
        let (s', e, (k, same_due)) =
          act_all_lem called (d.handle next.call_on_interrupt (record s { pending = rest })).1 off h
            (record { sorted = v.sorted.1; addressed = v.addressed.1 })
            (good.allowed next.call_on_interrupt (record s { pending = rest })) in
        (
          s',
          e,
          record {
            clock = record {
              total = k.clock.total;
              while_idle = k.clock.while_idle;
              in_system = k.clock.in_system;
              in_user = k.clock.in_user;
              in_status = k.clock.in_status;
            };
            off = k.off;
            handling = k.handling;
            ordered = k.ordered;
          },
          rw front (omega (arith, same_due)),
          (next, rest, refl, ground arith, e),
        )

    -- How the loop goes on after a round.
    goes_round :
        (s : Sim W) (fuel : ℕ) (r : Result (Sim W))
        → front_is_due s.total_ticks s.pending ≡ true
        → fire_loop d fuel s ≡ r
        → elim (front_is_due s.total_ticks s.pending) as (λ b. Result (Sim W)) [
          | true ↦ fire_loop d fuel s
          | false ↦ ok s
        ]
          ≡ r
    goes_round s fuel r again e = rw again e

    goes_out :
        (s : Sim W) (fuel : ℕ)
        → front_is_due s.total_ticks s.pending ≡ false
        → elim (front_is_due s.total_ticks s.pending) as (λ b. Result (Sim W)) [
          | true ↦ fire_loop d fuel s
          | false ↦ ok s
        ]
          ≡ ok s
    goes_out s fuel done = rw done refl

    -- With a round for each interrupt that is due the loop comes back, and what is then pending lies
    -- in the future.
    pub fire_loop_lem :
        (fuel : ℕ) (s : Sim W)
        → s.level ≡ int_off
        → s.in_handler ≡ true
        → IsOrdered s
        → front_is_due s.total_ticks s.pending ≡ true
        → due s.total_ticks s.pending ≤ fuel
        → (s' : Sim W) × (fire_loop d fuel s ≡ ok s')
          × Handled s s'
          × InFuture s'.total_ticks s'.pending
          × FiresFront d s s'
    unfolding fire_loop
    fire_loop_lem zero s off h v front enough =
        absurd (omega (arith, front_counts s.total_ticks s.pending front))
    fire_loop_lem (suc fuel) s off h v front enough =
        let (s1, e, k, fewer, (next, rest, at_front, now, acts)) =
          fire_front_lem s s.pending off h (record { sorted = v.sorted; addressed = v.addressed })
            front in
        let enough' : due s1.total_ticks s1.pending ≤ fuel =
          subst (λ n. due n s1.pending ≤ fuel) (sym k.clock.total) (omega arith) in
        elim (Bool-cases (front_is_due s1.total_ticks s1.pending)) [
          | inl again ↦
              let (s2, f, l, future, (x, xs, fires)) =
                fire_loop_lem fuel s1 k.off k.handling k.ordered again enough' in
              (
                s2,
                rw e (goes_round s1 fuel (ok s2) again f),
                record {
                  clock = trans_clock s s1 s2 k.clock l.clock;
                  off = l.off;
                  handling = l.handling;
                  ordered = l.ordered;
                },
                future,
                (next, x ∷ xs, (rest, s1, at_front, now, acts, fires)),
              )
          | inr done ↦ (
            s1,
            rw e (goes_out s1 fuel done),
            k,
            future_of_front s1.total_ticks s1.pending k.ordered.sorted done,
            (next, [], (rest, s1, at_front, now, acts, refl)),
          )
        ]
