-- ===== src/Tests/Multitasking.antt =====
-- Two threads and the semaphores, code/threads.
use nachos.Prelude.{ℕ, ◌≡◌, refl, false, [], ◌∷◌, arith, ok}
use nachos.Machine.{update}
use nachos.Threads.{blocked, int_off, int_on}
use nachos.Threads.Queue.{is_in_list, append}
use nachos.Threads.Scheduler.{set_status, find_next_to_run}
use nachos.Threads.System.{System, idle, in_p, sleep_loop, switch_to, sleep, p_loop, p}
use nachos.Threads.Invariant.{IsValid}
use nachos.Threads.Reach.{
  call_p, call_fork, result, result_lem, Reaches, start, then_call, boot, boot-IsValid,
  boot-Reaches-IsValid, idle-no_lost_wakeup,
}

abbrev zeros : ℕ → ℕ
zeros a = 0

-- The main thread waits for semaphore 4, and no other thread exists.
abbrev waiting : System
waiting = record {
  kernel = set_status (record (boot zeros).kernel { level = int_off }) 0 blocked;
  semaphores = update (boot zeros).semaphores 4 (record { value = 0; queue = 0 ∷ [] });
  control = update (boot zeros).control 0 (in_p 4 int_on);
  cpu = idle false;
}

waits : result (boot zeros) (call_p 4 refl refl) ≡ ok waiting
unfolding p p_loop append is_in_list sleep sleep_loop find_next_to_run switch_to
waits = refl

abbrev waiting_reached : Reaches (boot zeros) waiting
waiting_reached = then_call start (call_p 4 refl refl) waits

result_lem_example :
    (s1 : System) × (result (boot zeros) (call_fork 1 refl refl refl) ≡ ok s1) × IsValid s1
result_lem_example = result_lem (boot zeros) (call_fork 1 refl refl refl) (boot-IsValid zeros)

boot-Reaches-IsValid_example : IsValid waiting
boot-Reaches-IsValid_example = boot-Reaches-IsValid zeros waiting_reached

idle-no_lost_wakeup_example : (waiting.semaphores 4).value ≡ 0
idle-no_lost_wakeup_example =
    idle-no_lost_wakeup zeros waiting false 4 waiting_reached refl refl (omega arith)
