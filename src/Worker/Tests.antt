-- ===== src/Worker/Tests.antt =====
-- A thread with two objects.
use game_lift.Prelude.{
  ℕ, zero, suc, ◌+◌, ◌<◌, ◌≡◌, refl, map, none, some, [], ◌∷◌, arith, total, get_or, set, IsSorted,
  due,
}
use game_lift.Worker.{
  Job, job, return, do_async, do_async_after, new_executable, WorkerThread, at, do_task,
  do_timer_job,
}
use game_lift.Worker.Work.{nodes, IsFit, one, Keeps}
use game_lift.Worker.Quiet.{IsQuiet, IsIdle, ran, do_task_runs}
use game_lift.Worker.Inv.{timed}
use game_lift.Worker.Timed.{tick, due_work, do_timer_job_runs}

-- Job 1 of object 0 has object 1 run job 2, which has object 0 run job 3, and later job 4.
abbrev later_job : Job
later_job = job 0 4 return

abbrev two_objects : Job
two_objects =
    job 0 1
      (do_async (job 1 2 (do_async (job 0 3 return) (do_async_after 5 later_job return))) return)

abbrev fresh : WorkerThread
fresh = record {
  objects = new_executable ∷ new_executable ∷ [];
  executer_list = [];
  current_executer = none;
  timer_job_queue = [];
  tick_count = 10;
}

new-IsIdle : IsIdle 0 new_executable
new-IsIdle = record { no_task = refl; empty = refl; all_taken = refl; referred = refl }

fresh-IsQuiet : IsQuiet fresh
unfolding total get_or
fresh-IsQuiet = record { no_current = refl; none_waits = refl; idle = idle; timers = tt }
  where
    idle : (i : ℕ) → IsIdle 0 (at fresh i)
    idle zero = new-IsIdle
    idle (suc zero) = new-IsIdle
    idle (suc (suc i)) = new-IsIdle

two_objects-IsFit : IsFit 2 two_objects
unfolding IsFit
two_objects-IsFit = omega arith

do_task_runs_example :
    (w' : WorkerThread) × (do_task 6 two_objects fresh ≡ some w')
    × IsQuiet w'
    × ((f : Job → ℕ) → ran f w' ≡ ran f fresh + total f (nodes two_objects))
    × Keeps fresh w'
do_task_runs_example = do_task_runs 6 two_objects fresh fresh-IsQuiet two_objects-IsFit enough
  where
    enough : total one (nodes two_objects) + 2 < 6
    enough = unfold total nodes in omega arith

-- Objects 0 and 1 take their jobs, and job 4 is left for the timer.
do_task-two_objects :
    (elim (do_task 6 two_objects fresh) [ none ↦ [] | some w ↦ map (λ e. e.taken) w.objects ])
    ≡ (two_objects ∷ job 0 3 return ∷ [])
      ∷ (job 1 2 (do_async (job 0 3 return) (do_async_after 5 later_job return)) ∷ [])
      ∷ []
unfolding do_task get_or set
do_task-two_objects = refl

-- What is left then.
abbrev timing : WorkerThread
timing = record {
  objects = record new_executable { ref_count = 1 } ∷ new_executable ∷ [];
  executer_list = [];
  current_executer = none;
  timer_job_queue = record { task = later_job; execution_tick = 15 } ∷ [];
  tick_count = 10;
}

timing-IsQuiet : IsQuiet timing
unfolding total get_or IsFit
timing-IsQuiet = record { no_current = refl; none_waits = refl; idle = idle; timers = omega arith }
  where
    idle : (i : ℕ) → IsIdle (timed i timing.timer_job_queue) (at timing i)
    idle zero = record { no_task = refl; empty = refl; all_taken = refl; referred = refl }
    idle (suc zero) = new-IsIdle
    idle (suc (suc i)) = record {
      no_task = refl;
      empty = refl;
      all_taken = refl;
      referred = ground arith;
    }

do_timer_job_runs_example :
    (w' : WorkerThread) × (do_timer_job 2 4 20 timing ≡ some w')
    × IsQuiet w'
    × IsSorted tick w'.timer_job_queue
    × (due tick 20 w'.timer_job_queue ≡ [])
    × ((f : Job → ℕ) → ran f w' ≡ ran f timing + due_work f (due tick 20 timing.timer_job_queue))
do_timer_job_runs_example =
    do_timer_job_runs 2 4 20 timing timing-IsQuiet (tt, tt) room (omega arith)
  where
    room : (total one (nodes later_job) + 2 < 4) × Unit {0}
    room = unfold total nodes in omega arith
