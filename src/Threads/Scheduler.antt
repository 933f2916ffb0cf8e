-- ===== src/Threads/Scheduler.antt =====
-- code/threads/scheduler.cc, with Thread::Sleep and the destructor of Thread, thread.cc. SWITCH ends
-- the run of the old thread; what it goes on with when it is switched to is in System. The saved
-- registers and address space of a user program, and the fence post on the stack, are left out.
use nachos.Prelude.{
  ℕ, Bool, true, false, not, ◌||◌, List, [], ◌∷◌, Option, none, some, ◌==◌, if◌then◌else◌,
}
use nachos.Prelude.{Result, ok, ◌>>=◌, ◌>>◌, assert}
use nachos.Machine.{update}
use nachos.Threads.{ThreadStatus, running, ready, IntStatus, int_off, int_on, Kernel}
use nachos.Threads.Queue.{append}

abbrev pub is_off : IntStatus → Bool
is_off int_off = true
is_off int_on = false

abbrev pub is_none {ℓ} : {A : Type ℓ} → Option A → Bool
is_none none = true
is_none (some a) = false

abbrev pub set_status : Kernel → ℕ → ThreadStatus → Kernel
set_status k thread st = record k { status = update k.status thread st }

unfoldable pub ready_to_run : Kernel → ℕ → Result Kernel
ready_to_run k thread =
    assert (is_off k.level)
    >> (append k.ready_list thread >>= λ xs.
        ok (record (set_status k thread ready) { ready_list = xs }))

abbrev pub first_ready : Kernel → List ℕ → Option ℕ × Kernel
first_ready k [] = (none, k)
first_ready k (x ∷ xs) = (some x, record k { ready_list = xs })

unfoldable pub find_next_to_run : Kernel → Result (Option ℕ × Kernel)
find_next_to_run k = assert (is_off k.level) >> ok (first_ready k k.ready_list)

unfoldable pub run : Kernel → ℕ → Bool → Result Kernel
run k next_thread finishing =
    assert (is_off k.level)
    >> (assert (not finishing || is_none k.to_be_destroyed)
        >> (let doomed = if finishing then some k.current_thread else k.to_be_destroyed in
            ok (
              set_status (record k { current_thread = next_thread; to_be_destroyed = doomed })
                next_thread running)))

-- `delete toBeDestroyed` runs the destructor, which refuses the current thread.
unfoldable pub check_to_be_destroyed : Kernel → Result Kernel
check_to_be_destroyed k = elim k.to_be_destroyed [
  | none ↦ ok k
  | some t ↦ assert (not (t == k.current_thread)) >> ok (record k { to_be_destroyed = none })
]
