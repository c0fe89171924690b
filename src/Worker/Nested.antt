-- ===== src/Worker/Nested.antt =====
-- About a job that runs, and the jobs that it calls for.
use game_lift.Prelude.{
  ℕ, suc, ◌+◌, ◌<◌, ◌≡◌, refl, sym, ap, subst, ◌∙◌, true, false, Bool-cases, inl, inr, some, List,
  [], ◌∷◌, ◌++◌, ◌==◌, arith, length, total, total-append,
}
use game_lift.Worker.{
  Job, job, object_of, Calls, calls_of, return, do_async, do_async_after, AsyncExecutable,
  WorkerThread, at, modify, register, register_first, add_ref_for_this, push_timer_job, and_then,
  on_execute, dispatch, do_task, flush, drain,
}
use game_lift.Worker.Work.{
  nodes, nodes_calls, IsFit, IsFitCalls, share, work, work-modify, Keeps, Keeps-refl, Keeps-trans,
  Keeps-modify, as_it_was, then_push,
}
use game_lift.Worker.Inv.{Inv}
use game_lift.Worker.Steps.{
  object-IsFit, times_after, Inv-register, Inv-register_first, Inv-push_timer_job,
}

pub nodes_lem : (j : Job) → nodes j ≡ j ∷ nodes_calls (calls_of j)
unfolding nodes
nodes_lem (job o name calls) = refl

share-register :
    (g f : Job → ℕ) (j : Job) (e : AsyncExecutable)
    → share g f (register j e) ≡ share g f e + total f (nodes j)
unfolding total
share-register g f j e = omega (arith, total-append (λ x. total f (nodes x)) e.job_queue (j ∷ []))

pub work-register :
    (g f : Job → ℕ) (j : Job) (w : WorkerThread)
    → object_of j < length w.objects
    → work g f (modify (register j) (object_of j) w) ≡ work g f w + total f (nodes j)
work-register g f j w fits = omega (
  arith,
  work-modify g f (register j) (object_of j) w fits,
  share-register g f j (at w (object_of j)),
)

pub work-register_first :
    (g f : Job → ℕ) (j : Job) (w : WorkerThread)
    → object_of j < length w.objects
    → work g f (modify (register_first j) (object_of j) w) ≡ work g f w + total f (nodes j)
work-register_first g f j w fits = omega (
  arith,
  work-modify g f (register_first j) (object_of j) w fits,
  share-register g f j (at w (object_of j)),
)

pub do_task_first :
    (fuel : ℕ) (j : Job) (w : WorkerThread)
    → ((at w (object_of j)).remain_task_count == 0) ≡ true
    → do_task (suc fuel) j w
      ≡ dispatch
          (λ w'. and_then (flush fuel (object_of j) w') (drain fuel))
          (object_of j)
          w.current_executer
          (modify (register_first j) (object_of j) w)
unfolding do_task
do_task_first fuel j w first = rw first refl

do_task_other :
    (fuel : ℕ) (j : Job) (w : WorkerThread)
    → ((at w (object_of j)).remain_task_count == 0) ≡ false
    → do_task (suc fuel) j w ≡ some (modify (register j) (object_of j) w)
unfolding do_task
do_task_other fuel j w other = rw other refl

module _ {r ow hd : List ℕ} (c : ℕ) where
  -- `DoTask` on a thread that runs an object.
  pub do_task_nested :
      (fuel : ℕ) (j : Job) (w : WorkerThread)
      → w.current_executer ≡ some c
      → Inv r ow hd w
      → IsFit (length w.objects) j
      → (w' : WorkerThread) × (do_task (suc fuel) j w ≡ some w')
        × Inv r ow hd w'
        × Keeps w w'
        × ((g f : Job → ℕ) → work g f w' ≡ work g f w + total f (nodes j))
  unfolding dispatch
  do_task_nested fuel j w cur v fit =
      let o = object_of j in
      let fits : o < length w.objects = object-IsFit (length w.objects) j fit in
      elim (Bool-cases ((at w o).remain_task_count == 0)) [
        | inl first ↦ (
          record (modify (register_first j) o w) { executer_list = w.executer_list ++ (o ∷ []) },
          do_task_first fuel j w first
              ∙ ap
                  (λ x.
                    dispatch (λ w'. and_then (flush fuel o w') (drain fuel)) o x
                      (modify (register_first j) o w))
                  cur,
          Inv-register_first v o fits j (w.executer_list ++ (o ∷ [])) ow hd w.current_executer fit
              (ground (arith, first))
              (λ i. (
                omega (arith, times_after i o w.executer_list),
                omega (arith, times_after i o w.executer_list),
              )),
          record {
            size = (Keeps-modify (register_first j) o w).size;
            current = (Keeps-modify (register_first j) o w).current;
            tick = (Keeps-modify (register_first j) o w).tick;
            timer = (Keeps-modify (register_first j) o w).timer;
          },
          λ g f. work-register_first g f j w fits,
        )
        | inr other ↦ (
          modify (register j) o w,
          do_task_other fuel j w other,
          Inv-register v o fits j fit (λ e. ground (arith, e, other)),
          Keeps-modify (register j) o w,
          λ g f. work-register g f j w fits,
        )
      ]

Keeps-push_timer_job :
    (after : ℕ) (j : Job) (w : WorkerThread) → 0 < after → Keeps w (push_timer_job after j w)
unfolding push_timer_job
Keeps-push_timer_job after j w later = record {
  size = (Keeps-modify add_ref_for_this (object_of j) w).size;
  current = (Keeps-modify add_ref_for_this (object_of j) w).current;
  tick = (Keeps-modify add_ref_for_this (object_of j) w).tick;
  timer =
      then_push (record { task = j; execution_tick = after + w.tick_count }) as_it_was
        (omega (arith, later));
}

work-push_timer_job :
    (g f : Job → ℕ) (after : ℕ) (j : Job) (w : WorkerThread)
    → object_of j < length w.objects
    → work g f (push_timer_job after j w) ≡ work g f w
unfolding push_timer_job
work-push_timer_job g f after j w fits =
    omega (arith, work-modify g f add_ref_for_this (object_of j) w fits)

module _ {r ow hd : List ℕ} (c : ℕ) (fuel : ℕ) where
  pub on_execute_lem :
      (calls : Calls) (w : WorkerThread)
      → w.current_executer ≡ some c
      → Inv r ow hd w
      → IsFitCalls (length w.objects) calls
      → (w' : WorkerThread) × (on_execute (do_task (suc fuel)) calls w ≡ some w')
        × Inv r ow hd w'
        × Keeps w w'
        × ((g f : Job → ℕ) → work g f w' ≡ work g f w + total f (nodes_calls calls))
  unfolding on_execute IsFit nodes total
  on_execute_lem return w cur v fit = (w, refl, v, Keeps-refl w, λ g f. omega arith)
  on_execute_lem (do_async j calls) w cur v fit =
      let (w1, ran, v1, k1, work1) = do_task_nested c fuel j w cur v fit.0 in
      let fit1 : IsFitCalls (length w1.objects) calls =
        subst (λ n. IsFitCalls n calls) (sym k1.size) fit.1 in
      let (w2, rest, v2, k2, work2) = on_execute_lem calls w1 (k1.current ∙ cur) v1 fit1 in
      (
        w2,
        ap (λ m. and_then m (on_execute (do_task (suc fuel)) calls)) ran ∙ rest,
        v2,
        Keeps-trans k1 k2,
        λ g f. omega (arith, work1 g f, work2 g f, total-append f (nodes j) (nodes_calls calls)),
      )
  on_execute_lem (do_async_after after j calls) w cur v fit =
      let k1 = Keeps-push_timer_job after j w fit.0 in
      let fit1 : IsFitCalls (length (push_timer_job after j w).objects) calls =
        subst (λ n. IsFitCalls n calls) (sym k1.size) fit.2 in
      let (w2, rest, v2, k2, work2) =
        on_execute_lem calls (push_timer_job after j w) (k1.current ∙ cur)
          (Inv-push_timer_job after j v fit.1) fit1 in
      (
        w2,
        rest,
        v2,
        Keeps-trans k1 k2,
        λ g f. omega (
          arith,
          work2 g f,
          work-push_timer_job g f after j w (object-IsFit (length w.objects) j fit.1),
        ),
      )
