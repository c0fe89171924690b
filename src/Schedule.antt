-- ===== src/Schedule.antt =====
-- GameLiftLinuxServer/Scheduler.h and .cpp: tasks that wait for their time. What a task does is a
-- parameter: it may change the state it works on, and push tasks.
pub mod Order
mod Tests
use mathlib.Core.Option
use game_lift.Prelude.{
  ℕ, zero, suc, ◌+◌, Option, none, some, List, [], ◌∷◌, ◌++◌, ltb, if◌then◌else◌, push_by,
}

-- `struct JobElement`, with a name for the task.
pub record JobElement : Type 0 where
  pub task : ℕ
  pub execution_tick : ℕ

-- `class Scheduler`. `std::priority_queue` gives an element with the least tick; the queue is kept
-- here as a list whose first element is the one that `top` gives.
pub record Scheduler : Type 0 where
  pub task_queue : List JobElement
  pub current_tick : ℕ

-- `mTaskQueue.push`, by `JobComparator`
unfoldable pub push : JobElement → List JobElement → List JobElement
unfolding push_by
push = push_by (λ e. e.execution_tick)

unfoldable pub push_task : Scheduler → ℕ → ℕ → Scheduler
unfolding push
push_task s task after = record s {
  task_queue = push (record { task = task; execution_tick = after + s.current_tick }) s.task_queue;
}

-- What a task pushes: tasks, and after how many milliseconds they are due.
module _ (pushes : ℕ → List (ℕ × ℕ)) where
  unfoldable pub push_all : ℕ → List (ℕ × ℕ) → List JobElement → List JobElement
  unfolding push
  push_all now [] q = q
  push_all now ((task, after) ∷ more) q =
      push_all now more (push (record { task = task; execution_tick = after + now }) q)

  abbrev pub pop : List JobElement → List JobElement
  pop [] = []
  pop (e ∷ q) = q

  abbrev pub cons_run : ℕ → Option (List ℕ × List JobElement) → Option (List ℕ × List JobElement)
  cons_run task none = none
  cons_run task (some (ran, q)) = some (task ∷ ran, q)

  -- The loop of `DoTasks` at one time, for at most so many rounds: the tasks that it ran, and the
  -- queue that it leaves.
  unfoldable pub do_loop : ℕ → ℕ → List JobElement → Option (List ℕ × List JobElement)
  unfolding push_all
  do_loop zero now q = none
  do_loop (suc fuel) now [] = some ([], [])
  do_loop (suc fuel) now (e ∷ q) =
      let rest = cons_run e.task (do_loop fuel now (pop (push_all now (pushes e.task) (e ∷ q)))) in
      if ltb now e.execution_tick then some ([], e ∷ q) else rest

  -- `DoTasks`, at the tick that the clock shows.
  unfoldable pub do_tasks : ℕ → ℕ → Scheduler → Option (List ℕ × Scheduler)
  unfolding do_loop
  do_tasks fuel tick s =
      Option.map (λ ran. (ran.0, record { task_queue = ran.1; current_tick = tick }))
        (do_loop fuel tick s.task_queue)
