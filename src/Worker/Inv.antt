-- ===== src/Worker/Inv.antt =====
-- What holds of a thread and its objects between any two steps.
use game_lift.Prelude.{
  ℕ, ◌+◌, ◌<◌, ◌≡◌, ◌≢◌, sym, subst, min, Bool-cases, inl, inr, List, [], ◌∷◌, ◌++◌, ◌==◌, arith,
  length, total, get_or-set,
}
use game_lift.Worker.{
  object_of, AsyncExecutable, new_executable, TimerJobElement, WorkerThread, at, modify,
}
use game_lift.Worker.Work.{IsFit, AllFit, is, times}

-- How many elements of the timer are for an object.
abbrev pub timed : ℕ → List TimerJobElement → ℕ
timed i q = total (λ e. is i (object_of e.task)) q

abbrev pub AllTimed : ℕ → List TimerJobElement → Type 0
AllTimed n [] = Unit {0}
AllTimed n (e ∷ q) = IsFit n e.task × AllTimed n q

-- An object of which so many tasks run, which so many have to see to, and with so many references.
pub record Holds (n runs seen refs : ℕ) (e : AsyncExecutable) : Type 0 where
  pub counted : e.remain_task_count ≡ length e.job_queue + runs
  pub owned : seen ≡ min 1 e.remain_task_count
  pub referred : e.ref_count ≡ refs
  pub order : e.pushed ≡ e.taken ++ e.job_queue
  pub fits : AllFit n e.job_queue

-- The objects one of whose tasks runs, those whose tasks are being flushed, and those that the
-- callers of `Flush` hold.
pub record Inv (running owner held : List ℕ) (w : WorkerThread) : Type 0 where
  pub all :
      (i : ℕ)
      → Holds
          (length w.objects)
          (times i running)
          (times i w.executer_list + times i owner)
          (times i w.executer_list + times i held + timed i w.timer_job_queue)
          (at w i)
  pub timers : AllTimed (length w.objects) w.timer_job_queue

pub at-modify_self :
    (f : AsyncExecutable → AsyncExecutable) (o : ℕ) (w : WorkerThread)
    → o < length w.objects
    → at (modify f o w) o ≡ f (at w o)
unfolding modify
at-modify_self f o w h = ground (arith, get_or-set w.objects o o (f (at w o)) new_executable h)

pub at-modify_other :
    (f : AsyncExecutable → AsyncExecutable) (o i : ℕ) (w : WorkerThread)
    → o < length w.objects
    → o ≢ i
    → at (modify f o w) i ≡ at w i
unfolding modify
at-modify_other f o i w h ne =
    ground (arith, get_or-set w.objects o i (f (at w o)) new_executable h)

module _ {r ow hd r' ow' hd' : List ℕ} {w w' : WorkerThread} (v : Inv r ow hd w) (o : ℕ) where
  -- A step on the object `o`, which leaves the others alone.
  pub change :
      length w'.objects ≡ length w.objects
      → AllTimed (length w.objects) w'.timer_job_queue
      → ((i : ℕ)
          → o ≢ i
          → (at w' i ≡ at w i)
            × (times i r' ≡ times i r)
            × (times i w'.executer_list + times i ow' ≡ times i w.executer_list + times i ow)
            × (times i w'.executer_list + times i hd' + timed i w'.timer_job_queue
                ≡ times i w.executer_list + times i hd + timed i w.timer_job_queue))
      → Holds
          (length w.objects)
          (times o r')
          (times o w'.executer_list + times o ow')
          (times o w'.executer_list + times o hd' + timed o w'.timer_job_queue)
          (at w' o)
      → Inv r' ow' hd' w'
  change size timers others here = record {
    all = λ i.
        subst
          (λ n.
            Holds n (times i r') (times i w'.executer_list + times i ow')
              (times i w'.executer_list + times i hd' + timed i w'.timer_job_queue) (at w' i))
          (sym size)
          (elim (Bool-cases (o == i)) [
            | inl same ↦
                let e : o ≡ i = ground (arith, same) in
                subst
                  (λ j.
                    Holds (length w.objects) (times j r') (times j w'.executer_list + times j ow')
                      (times j w'.executer_list + times j hd' + timed j w'.timer_job_queue)
                      (at w' j))
                  e here
            | inr other ↦
                let ne : o ≢ i = λ e. ground (arith, e, other) in
                let (as_was, runs, seen, refs) = others i ne in
                subst
                  (Holds (length w.objects) (times i r') (times i w'.executer_list + times i ow')
                    (times i w'.executer_list + times i hd' + timed i w'.timer_job_queue))
                  (sym as_was)
                  (record {
                    counted = omega (arith, (v.all i).counted, runs);
                    owned = omega (arith, (v.all i).owned, seen);
                    referred = omega (arith, (v.all i).referred, refs);
                    order = (v.all i).order;
                    fits = (v.all i).fits;
                  })
          ]);
    timers = subst (λ n. AllTimed n w'.timer_job_queue) (sym size) timers;
  }
