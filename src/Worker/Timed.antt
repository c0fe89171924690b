-- ===== src/Worker/Timed.antt =====
-- About `DoTimerJob` of a thread that is between two jobs.
use game_lift.Prelude.{
  ℕ, zero, suc, ◌+◌, ◌≤◌, ◌<◌, ◌≡◌, refl, sym, ap, subst, ◌∙◌, false, Bool-cases, inl, inr, some,
  List, [], ◌∷◌, ltb, arith, length, total, IsSorted, due, push_by, push_by-IsSorted, due-push_by,
  none_due,
}
use game_lift.Worker.{
  Job, object_of, TimerJobElement, WorkerThread, modify, release_ref_for_this, push, and_then, pop,
  do_task, timer_turn, timer_loop, do_timer_job,
}
use game_lift.Worker.Work.{nodes, one, work-modify, Pushed, as_it_was, then_push}
use game_lift.Worker.Inv.{timed, AllTimed}
use game_lift.Worker.Steps.{object-IsFit, Inv-release}
use game_lift.Worker.Quiet.{IsQuiet, Inv-IsQuiet, IsQuiet-Inv, ran, work-quiet, do_task_runs}

abbrev pub tick : TimerJobElement → ℕ
tick e = e.execution_tick

-- There is room for the jobs that come of each element.
abbrev pub AllRoom : ℕ → List TimerJobElement → Type 0
AllRoom fuel [] = Unit {0}
AllRoom fuel (e ∷ q) = (total one (nodes e.task) + 2 < fuel) × AllRoom fuel q

-- All jobs that come of the elements.
abbrev pub due_work : (Job → ℕ) → List TimerJobElement → ℕ
due_work f q = total (λ e. total f (nodes e.task)) q

-- A due element stays on top, and what is pushed is not due.
Pushed-top :
    {now : ℕ} {e : TimerJobElement} {q q' : List TimerJobElement}
    → Pushed now (e ∷ q) q'
    → e.execution_tick ≤ now
    → IsSorted tick (e ∷ q)
    → (rest : List TimerJobElement) × (q' ≡ e ∷ rest)
      × IsSorted tick rest
      × (due tick now rest ≡ due tick now q)
unfolding push push_by
Pushed-top {now} {e} {q} as_it_was h s = (q, refl, s.1, refl)
Pushed-top {now} {e} {q} (then_push x p later) h s =
    let (rest, same, sorted, as_due) = Pushed-top p h s in
    let below : push x (e ∷ rest) ≡ e ∷ push x rest = ground (arith, later, h) in
    (
      push x rest,
      ap (push x) same ∙ below,
      push_by-IsSorted tick x rest sorted,
      due-push_by tick now x rest later ∙ as_due,
    )

timer_next :
    (rounds fuel : ℕ) (e : TimerJobElement) (q : List TimerJobElement) (w w1 : WorkerThread)
    → w.timer_job_queue ≡ e ∷ q
    → ltb w.tick_count e.execution_tick ≡ false
    → do_task fuel e.task w ≡ some w1
    → timer_loop (suc rounds) fuel w
      ≡ timer_loop rounds fuel (record (modify release_ref_for_this (object_of e.task) w1) {
        timer_job_queue = pop w1.timer_job_queue;
      })
unfolding timer_loop timer_turn modify
timer_next rounds fuel e q w w1 same run ran =
    ap (λ x. timer_turn (timer_loop rounds fuel) (do_task fuel) x w) same
    ∙ rw run (
        ap
          (λ r. and_then r (λ w'.
            timer_loop rounds fuel (record (modify release_ref_for_this (object_of e.task) w') {
              timer_job_queue = pop w'.timer_job_queue;
            })))
          ran)

-- What a run of `DoTimerJob` leaves.
pub record TimerRuns (q : List TimerJobElement) (w w' : WorkerThread) : Type 0 where
  pub quiet : IsQuiet w'
  pub sorted : IsSorted tick w'.timer_job_queue
  pub none_left : due tick w.tick_count w'.timer_job_queue ≡ []
  pub all_ran : (f : Job → ℕ) → ran f w' ≡ ran f w + due_work f (due tick w.tick_count q)
  pub same_tick : w'.tick_count ≡ w.tick_count

-- One due element.
timer_step :
    (rounds fuel : ℕ) (e : TimerJobElement) (q : List TimerJobElement) (w : WorkerThread)
    → IsQuiet w
    → w.timer_job_queue ≡ e ∷ q
    → IsSorted tick (e ∷ q)
    → ltb w.tick_count e.execution_tick ≡ false
    → total one (nodes e.task) + 2 < fuel
    → (w2 : WorkerThread) × (timer_loop (suc rounds) fuel w ≡ timer_loop rounds fuel w2)
      × IsQuiet w2
      × IsSorted tick w2.timer_job_queue
      × (due tick w.tick_count w2.timer_job_queue ≡ due tick w.tick_count q)
      × ((f : Job → ℕ) → ran f w2 ≡ ran f w + total f (nodes e.task))
      × (w2.tick_count ≡ w.tick_count)
unfolding modify total
timer_step rounds fuel e q w quiet same sorted run room =
    let here : e.execution_tick ≤ w.tick_count = ground (arith, run) in
    let fit = (subst (AllTimed (length w.objects)) same quiet.timers).0 in
    let (w1, ran1, quiet1, work1, k) = do_task_runs fuel e.task w quiet fit room in
    let (rest, top, sorted1, as_due) =
      Pushed-top (subst (λ x. Pushed w.tick_count x w1.timer_job_queue) same k.timer) here sorted in
    let o = object_of e.task in
    let fits : o < length w1.objects =
      omega (arith, k.size, object-IsFit (length w.objects) e.task fit) in
    let popped : pop w1.timer_job_queue ≡ rest = ap pop top in
    let w2 : WorkerThread = record (modify release_ref_for_this o w1) {
      timer_job_queue = pop w1.timer_job_queue;
    } in
    let quiet2 : IsQuiet w2 =
      IsQuiet-Inv
        (Inv-release o fits w1.current_executer (pop w1.timer_job_queue) (Inv-IsQuiet quiet1)
          (subst (AllTimed (length w1.objects)) (sym popped)
            (subst (AllTimed (length w1.objects)) top quiet1.timers).1)
          (λ i. omega (arith, ap (timed i) top, ap (timed i) popped)))
        quiet1.no_current quiet1.none_waits in
    (
      w2,
      timer_next rounds fuel e q w w1 same run ran1,
      quiet2,
      subst (IsSorted tick) (sym popped) sorted1,
      ap (due tick w.tick_count) popped ∙ as_due,
      λ f. omega (
        arith,
        work1 f,
        work-quiet f f quiet1,
        work-quiet f f quiet2,
        work-modify f f release_ref_for_this o w1 fits,
      ),
      k.tick,
    )

timer_loop_lem :
    (rounds fuel : ℕ) (q : List TimerJobElement) (w : WorkerThread)
    → IsQuiet w
    → w.timer_job_queue ≡ q
    → IsSorted tick q
    → AllRoom fuel (due tick w.tick_count q)
    → length (due tick w.tick_count q) < rounds
    → (w' : WorkerThread) × (timer_loop rounds fuel w ≡ some w') × TimerRuns q w w'
unfolding timer_loop timer_turn total
timer_loop_lem zero fuel q w quiet same sorted room h = absurd (omega arith)
timer_loop_lem (suc rounds) fuel [] w quiet same sorted room h = (
  w,
  ap (λ x. timer_turn (timer_loop rounds fuel) (do_task fuel) x w) same,
  record {
    quiet = quiet;
    sorted = subst (IsSorted tick) (sym same) sorted;
    none_left = ap (due tick w.tick_count) same;
    all_ran = λ f. omega arith;
    same_tick = refl;
  },
)
timer_loop_lem (suc rounds) fuel (e ∷ q) w quiet same sorted room h =
    elim (Bool-cases (ltb w.tick_count e.execution_tick)) [
      | inl wait ↦
          let later : w.tick_count < e.execution_tick = ground (arith, wait) in
          let none_left : due tick w.tick_count (e ∷ q) ≡ [] =
            none_due tick w.tick_count e.execution_tick (e ∷ q) later (omega arith, sorted.0) in
          (
            w,
            ap (λ x. timer_turn (timer_loop rounds fuel) (do_task fuel) x w) same ∙ rw wait refl,
            record {
              quiet = quiet;
              sorted = subst (IsSorted tick) (sym same) sorted;
              none_left = ap (due tick w.tick_count) same ∙ none_left;
              all_ran = λ f. omega (arith, ap (due_work f) none_left);
              same_tick = refl;
            },
          )
      | inr run ↦
          let front : due tick w.tick_count (e ∷ q) ≡ e ∷ due tick w.tick_count q =
            ground (arith, run) in
          let room' = subst (AllRoom fuel) front room in
          let (w2, stepped, quiet2, sorted2, as_due, ran2, tick2) =
            timer_step rounds fuel e q w quiet same sorted run room'.0 in
          let as_due' : due tick w2.tick_count w2.timer_job_queue ≡ due tick w.tick_count q =
            subst (λ t. due tick t w2.timer_job_queue ≡ due tick w.tick_count q) (sym tick2)
              as_due in
          let (w3, done, r) =
            timer_loop_lem rounds fuel w2.timer_job_queue w2 quiet2 refl sorted2
              (subst (AllRoom fuel) (sym as_due') room'.1)
              (omega (arith, h, ap length front, ap length as_due')) in
          (
            w3,
            stepped ∙ done,
            record {
              quiet = r.quiet;
              sorted = r.sorted;
              none_left = subst (λ t. due tick t w3.timer_job_queue ≡ []) tick2 r.none_left;
              all_ran = λ f.
                  omega
                    (arith, r.all_ran f, ran2 f, ap (due_work f) front, ap (due_work f) as_due');
              same_tick = r.same_tick ∙ tick2;
            },
          )
    ]

-- A thread between two jobs calls `DoTimerJob` when its clock shows `now`, and its timer's queue is
-- in the order of the times. The jobs of the timer and all that come of them are for objects of the
-- thread, and every `DoAsyncAfter` in them has a delay above 0. With one round more than elements are
-- due, and with room for the jobs that come of each, it returns. Exactly the jobs that are due and
-- those that come of them by `DoAsync` have run; the thread is between two jobs again, its timer's
-- queue is in order, nothing in it is due, and each object is referred to once for each of its
-- elements.
pub do_timer_job_runs :
    (rounds fuel now : ℕ) (w : WorkerThread)
    → IsQuiet w
    → IsSorted tick w.timer_job_queue
    → AllRoom fuel (due tick now w.timer_job_queue)
    → length (due tick now w.timer_job_queue) < rounds
    → (w' : WorkerThread) × (do_timer_job rounds fuel now w ≡ some w')
      × IsQuiet w'
      × IsSorted tick w'.timer_job_queue
      × (due tick now w'.timer_job_queue ≡ [])
      × ((f : Job → ℕ) → ran f w' ≡ ran f w + due_work f (due tick now w.timer_job_queue))
unfolding do_timer_job
do_timer_job_runs rounds fuel now w quiet sorted room h =
    let w0 : WorkerThread = record w { tick_count = now } in
    let quiet0 : IsQuiet w0 = record {
      no_current = quiet.no_current;
      none_waits = quiet.none_waits;
      idle = quiet.idle;
      timers = quiet.timers;
    } in
    let (w', done, r) = timer_loop_lem rounds fuel w.timer_job_queue w0 quiet0 refl sorted room h in
    (w', done, r.quiet, r.sorted, r.none_left, r.all_ran)
