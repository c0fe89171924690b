-- ===== src/Schedule/Order.antt =====
-- `DoTasks` runs the tasks that are due, in the order of their times, and ends.
use game_lift.Prelude.{
  ℕ, zero, suc, ◌+◌, ◌≤◌, ◌<◌, ◌≡◌, refl, sym, ap, ◌∙◌, false, Bool-cases, inl, inr, some, List, [],
  ◌∷◌, ltb, arith, length, map, IsSorted, due, due-push_by, none_due, push_by-IsSorted,
}
use game_lift.Schedule.{
  JobElement, Scheduler, push_task, do_tasks, push, push_all, pop, cons_run, do_loop,
}

abbrev pub tick : JobElement → ℕ
tick e = e.execution_tick

-- The tasks that are due, in the order of the queue.
abbrev pub tasks_due : ℕ → List JobElement → List ℕ
tasks_due now q = map (λ e. e.task) (due tick now q)

-- Tasks that are due after more than no time.
abbrev pub AllLater : List (ℕ × ℕ) → Type 0
AllLater [] = Unit {0}
AllLater ((task, after) ∷ more) = (0 < after) × AllLater more

do_loop-run :
    (pushes : ℕ → List (ℕ × ℕ)) (fuel now : ℕ) (e : JobElement) (q : List JobElement)
    → ltb now e.execution_tick ≡ false
    → do_loop pushes (suc fuel) now (e ∷ q)
      ≡ cons_run pushes e.task
          (do_loop pushes fuel now (pop pushes (push_all pushes now (pushes e.task) (e ∷ q))))
unfolding do_loop
do_loop-run pushes fuel now e q run = rw run refl

module _ (pushes : ℕ → List (ℕ × ℕ)) (now : ℕ) where
  push_all-lem :
      (ps : List (ℕ × ℕ)) (e : JobElement) (q : List JobElement)
      → AllLater ps
      → e.execution_tick ≤ now
      → IsSorted tick q
      → (q' : List JobElement) × (push_all pushes now ps (e ∷ q) ≡ e ∷ q')
        × IsSorted tick q'
        × (tasks_due now q' ≡ tasks_due now q)
  unfolding push_all push
  push_all-lem [] e q l h s = (q, refl, s, refl)
  push_all-lem ((task, after) ∷ more) e q l h s =
      let x : JobElement = record { task = task; execution_tick = after + now } in
      let (q', same, sorted, as_due) =
        push_all-lem more e (push x q) l.1 h (push_by-IsSorted tick x q s) in
      let first : push x (e ∷ q) ≡ e ∷ push x q = ground (arith, l.0) in
      (
        q',
        ap (push_all pushes now more) first ∙ same,
        sorted,
        as_due ∙ ap (map (λ e. e.task)) (due-push_by tick now x q (omega (arith, l.0))),
      )

  do_loop_lem :
      (fuel : ℕ) (q : List JobElement)
      → ((task : ℕ) → AllLater (pushes task))
      → IsSorted tick q
      → length (tasks_due now q) < fuel
      → (q' : List JobElement) × (do_loop pushes fuel now q ≡ some (tasks_due now q, q'))
        × IsSorted tick q'
        × (tasks_due now q' ≡ [])
  unfolding do_loop
  do_loop_lem zero q l s h = absurd (omega arith)
  do_loop_lem (suc fuel) [] l s h = ([], refl, tt, refl)
  do_loop_lem (suc fuel) (e ∷ q) l s h = elim (Bool-cases (ltb now e.execution_tick)) [
    | inl wait ↦
        let later : now < e.execution_tick = ground (arith, wait) in
        let nothing : tasks_due now q ≡ [] =
          ap (map (λ e. e.task)) (none_due tick now e.execution_tick q later s.0) in
        (e ∷ q, ground (arith, later, nothing), s, ground (arith, later, nothing))
    | inr run ↦
        let here : e.execution_tick ≤ now = ground (arith, run) in
        let (q1, pushed, sorted, as_due) = push_all-lem (pushes e.task) e q (l e.task) here s.1 in
        let front : tasks_due now (e ∷ q) ≡ e.task ∷ tasks_due now q = ground (arith, here) in
        let (q2, ran, sorted', all) =
          do_loop_lem fuel q1 l sorted (omega (arith, ap length as_due, ap length front)) in
        (
          q2,
          do_loop-run pushes fuel now e q run
              ∙ ap (λ xs. cons_run pushes e.task (do_loop pushes fuel now (pop pushes xs))) pushed
              ∙ ap (cons_run pushes e.task) ran
              ∙ ap (λ xs. some (xs, q2)) (ap (λ xs. e.task ∷ xs) as_due ∙ sym front),
          sorted',
          all,
        )
  ]

  -- If no task pushes one that is due at once, and the queue is in the order of the times, then
  -- `DoTasks` ends, after as many rounds as there are due tasks, and one: it runs exactly those tasks,
  -- in the order of their times, and leaves a queue in order in which no task is due.
  pub do_tasks_lem :
      (fuel : ℕ) (s : Scheduler)
      → ((task : ℕ) → AllLater (pushes task))
      → IsSorted tick s.task_queue
      → length (tasks_due now s.task_queue) < fuel
      → (s' : Scheduler) × (do_tasks pushes fuel now s ≡ some (tasks_due now s.task_queue, s'))
        × IsSorted tick s'.task_queue
        × (tasks_due now s'.task_queue ≡ [])
  unfolding do_tasks
  do_tasks_lem fuel s l sorted h =
      let (q', ran, sorted', all) = do_loop_lem fuel s.task_queue l sorted h in
      (record { task_queue = q'; current_tick = now }, rw ran refl, sorted', all)

-- `PushTask` keeps the queue in the order of the times, if it was in it.
pub push_task-IsSorted :
    (s : Scheduler) (task after : ℕ)
    → IsSorted tick s.task_queue
    → IsSorted tick (push_task s task after).task_queue
unfolding push_task
push_task-IsSorted s task after h =
    push_by-IsSorted tick (record { task = task; execution_tick = after + s.current_tick })
      s.task_queue h
