-- ===== src/Schedule/Tests.antt =====
-- A scheduler with three tasks, one of which comes again.
use game_lift.Prelude.{IsSorted, ℕ, ◌≡◌, refl, some, List, [], ◌∷◌, arith}
use game_lift.Schedule.{JobElement, Scheduler, push_task, do_tasks}
use game_lift.Schedule.Order.{tick, tasks_due, do_tasks_lem}

abbrev pushes : ℕ → List (ℕ × ℕ)
pushes task = (task, 1000) ∷ []

abbrev waiting : List JobElement
waiting =
    record { task = 7; execution_tick = 5 }
    ∷ record { task = 8; execution_tick = 20 }
    ∷ record { task = 9; execution_tick = 30 }
    ∷ []

push_in_order :
    (push_task (push_task (record { task_queue = []; current_tick = 3 }) 1 9) 2 4).task_queue
    ≡ record { task = 2; execution_tick = 7 } ∷ record { task = 1; execution_tick = 12 } ∷ []
unfolding push_task
push_in_order = refl

do_tasks_lem_example :
    (s' : Scheduler) × (do_tasks pushes 3 25 (record { task_queue = waiting; current_tick = 3 })
      ≡ some (tasks_due 25 waiting, s'))
    × IsSorted tick s'.task_queue
    × (tasks_due 25 s'.task_queue ≡ [])
do_tasks_lem_example =
    do_tasks_lem pushes 25 3 (record { task_queue = waiting; current_tick = 3 })
      (λ task. (omega arith, tt)) ((omega arith, (omega arith, tt)), ((omega arith, tt), (tt, tt)))
      (omega arith)
