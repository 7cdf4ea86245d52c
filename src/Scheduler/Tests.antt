-- ===== src/Scheduler/Tests.antt =====
-- Tests of the scheduler.
use cuore_os.Base.{ℕ, ◌+◌, ◌≡◌, refl, [], ◌∷◌, true, panic, arith}
use cuore_os.Scheduler.{
  Task, Scheduler, release_task, is_over, switch_to, timer_handler, find_upid, get_task_by_upid,
  enroll_task, exit_task, scheduler_init,
}
use cuore_os.Scheduler.Ring.{IsRing}
use cuore_os.Scheduler.Tick.{turned, timer_handler-IsRing}
use cuore_os.Scheduler.Enroll.{enroll_task-IsRing}
use cuore_os.Scheduler.Lookup.{first_with, get_task_by_upid-first_with}

abbrev idle : ℕ → Task
idle a = record { upid = 0; rsp = a + 1000; cr3 = 0; next = 0; prev = 0; stack_base = 0 }

abbrev at_start : Scheduler
unfolding scheduler_init
at_start =
    scheduler_init 10 (record {
      tasks = idle;
      current = 0;
      current_pid = 1;
      pml4 = 0;
      freed = [];
      freed_stacks = [];
    })

abbrev with_two : Scheduler
unfolding enroll_task
with_two = enroll_task 30 (enroll_task 20 at_start)

found : get_task_by_upid 3 2 with_two ≡ 30
unfolding get_task_by_upid find_upid enroll_task scheduler_init
found = refl

-- The bootstrap task has the number 0: the first turn frees it.
bootstrap_freed : (timer_handler 0 500 with_two).1.freed ≡ 10 ∷ []
unfolding timer_handler release_task is_over switch_to enroll_task scheduler_init
bootstrap_freed = refl

last_task : exit_task 0 500 at_start ≡ panic
unfolding exit_task scheduler_init
last_task = refl

at_start-IsRing : IsRing at_start 10 []
unfolding scheduler_init
at_start-IsRing = record {
  current = refl;
  not_null = (refl, tt);
  distinct = (tt, tt);
  path = (refl, refl);
}

two-IsRing : IsRing (enroll_task 20 at_start) 10 (20 ∷ [])
unfolding scheduler_init
two-IsRing = enroll_task-IsRing at_start [] 20 at_start-IsRing (refl, (refl, tt))

enroll_task-IsRing_example : IsRing (enroll_task 20 at_start) 10 (20 ∷ [])
unfolding scheduler_init
enroll_task-IsRing_example = enroll_task-IsRing at_start [] 20 at_start-IsRing (refl, (refl, tt))

timer_handler-IsRing_example :
    IsRing (timer_handler 0 500 (enroll_task 20 at_start)).1 20 (turned true 10 [])
unfolding scheduler_init enroll_task
timer_handler-IsRing_example = timer_handler-IsRing 0 500 (enroll_task 20 at_start) 20 [] two-IsRing

get_task_by_upid-first_with_example :
    get_task_by_upid 2 1 (enroll_task 20 at_start)
    ≡ first_with 1 (enroll_task 20 at_start).tasks (10 ∷ 20 ∷ [])
unfolding scheduler_init enroll_task
get_task_by_upid-first_with_example =
    get_task_by_upid-first_with 2 1 (enroll_task 20 at_start) (20 ∷ []) two-IsRing (omega arith)
