-- ===== src/Worker/Quiet.antt =====
-- About `DoTask` of a thread that is between two jobs.
use game_lift.Prelude.{
  ℕ, zero, suc, ◌+◌, ◌<◌, ◌≡◌, refl, sym, ap, subst, ◌∙◌, true, none, some, List, [], ◌∷◌, ◌++◌,
  append-nil, ◌==◌, arith, length, total, nil_of_length, get_or,
}
use game_lift.Worker.{
  Job, object_of, AsyncExecutable, new_executable, WorkerThread, at, modify, register_first,
  release_ref_for_this, and_then, dispatch, do_task, flush, drain,
}
use game_lift.Worker.Work.{
  nodes, IsFit, AllFit, share, work, nothing, one, waiting, work-modify, is, times, Keeps,
  Keeps-modify,
}
use game_lift.Worker.Inv.{Inv, timed, AllTimed}
use game_lift.Worker.Steps.{object-IsFit, Inv-register_first, Inv-release}
use game_lift.Worker.Nested.{work-register_first, do_task_first}
use game_lift.Worker.Runs.{flush-drain}

-- An object for which no task waits: all that were pushed have been taken, in the order in which
-- they were pushed, and only the timer's elements refer to it.
pub record IsIdle (timers : ℕ) (e : AsyncExecutable) : Type 0 where
  pub no_task : e.remain_task_count ≡ 0
  pub empty : e.job_queue ≡ []
  pub all_taken : e.pushed ≡ e.taken
  pub referred : e.ref_count ≡ timers

-- A thread between two jobs: it runs no object, none waits, and of the jobs in the timer, and all
-- that come of them, each is for an object that is there, and no `DoAsyncAfter` has the delay 0.
pub record IsQuiet (w : WorkerThread) : Type 0 where
  pub no_current : w.current_executer ≡ none
  pub none_waits : w.executer_list ≡ []
  pub idle : (i : ℕ) → IsIdle (timed i w.timer_job_queue) (at w i)
  pub timers : AllTimed (length w.objects) w.timer_job_queue

-- What a property of jobs sums up to over the jobs that were taken.
abbrev pub ran : (Job → ℕ) → WorkerThread → ℕ
ran f w = total (λ e. total f e.taken) w.objects

pub Inv-IsQuiet : {w : WorkerThread} → IsQuiet w → Inv [] [] [] w
unfolding total
Inv-IsQuiet {w} q = record {
  all = λ i. record {
    counted = omega (arith, (q.idle i).no_task, ap length (q.idle i).empty);
    owned = omega (arith, (q.idle i).no_task, ap (times i) q.none_waits);
    referred = omega (arith, (q.idle i).referred, ap (times i) q.none_waits);
    order =
        (q.idle i).all_taken
        ∙ sym (append-nil (at w i).taken)
        ∙ ap (λ xs. (at w i).taken ++ xs) (sym (q.idle i).empty);
    fits = subst (AllFit (length w.objects)) (sym (q.idle i).empty) tt;
  };
  timers = q.timers;
}

pub IsQuiet-Inv :
    {w : WorkerThread}
    → Inv [] [] [] w
    → w.current_executer ≡ none
    → w.executer_list ≡ []
    → IsQuiet w
unfolding total
IsQuiet-Inv {w} v cur list =
    let none_left : (i : ℕ) → (at w i).remain_task_count ≡ 0 =
      λ i. omega (arith, (v.all i).owned, ap (times i) list) in
    let empty : (i : ℕ) → (at w i).job_queue ≡ [] =
      λ i. nil_of_length (at w i).job_queue (omega (arith, (v.all i).counted, none_left i)) in
    record {
      no_current = cur;
      none_waits = list;
      idle = λ i. record {
        no_task = none_left i;
        empty = empty i;
        all_taken =
            (v.all i).order ∙ ap (λ xs. (at w i).taken ++ xs) (empty i) ∙ append-nil (at w i).taken;
        referred = omega (arith, (v.all i).referred, ap (times i) list);
      };
      timers = v.timers;
    }

shares_taken :
    (g f : Job → ℕ) (xs : List AsyncExecutable)
    → ((i : ℕ) → (get_or xs i new_executable).job_queue ≡ [])
    → total (share g f) xs ≡ total (λ e. total g e.taken) xs
unfolding total get_or
shares_taken g f [] h = refl
shares_taken g f (x ∷ xs) h =
    omega (arith, ap (total (λ j. total f (nodes j))) (h 0), shares_taken g f xs (λ i. h (suc i)))

total-nothing : (js : List Job) → total nothing js ≡ 0
unfolding total
total-nothing [] = refl
total-nothing (j ∷ js) = omega (arith, total-nothing js)

taken-nothing : (xs : List AsyncExecutable) → total (λ e. total nothing e.taken) xs ≡ 0
unfolding total
taken-nothing [] = refl
taken-nothing (x ∷ xs) = omega (arith, total-nothing x.taken, taken-nothing xs)

pub work-quiet : (g f : Job → ℕ) {w : WorkerThread} → IsQuiet w → work g f w ≡ ran g w
work-quiet g f {w} q = shares_taken g f w.objects (λ i. (q.idle i).empty)

waiting-quiet : {w : WorkerThread} → IsQuiet w → waiting w ≡ 0
waiting-quiet {w} q = work-quiet nothing one q ∙ taken-nothing w.objects

-- A thread between two jobs gives a job to its object by `DoTask`. The job, the jobs of the timer and
-- all that come of these are for objects of the thread, and every `DoAsyncAfter` in them has a delay
-- above 0. With room for as many rounds as jobs come of it, `DoTask` returns. The thread is between
-- two jobs again: every object has run what was pushed to it, in that order, and is referred to by
-- the timer's elements only. The jobs that were run in all are the job and those that it and they
-- called for by `DoAsync`, each as often: whatever is counted of them sums up to the same. The tick is
-- the old one, and to the timer's queue elements were pushed that are due later.
pub do_task_runs :
    (fuel : ℕ) (j : Job) (w : WorkerThread)
    → IsQuiet w
    → IsFit (length w.objects) j
    → total one (nodes j) + 2 < fuel
    → (w' : WorkerThread) × (do_task fuel j w ≡ some w')
      × IsQuiet w'
      × ((f : Job → ℕ) → ran f w' ≡ ran f w + total f (nodes j))
      × Keeps w w'
unfolding dispatch modify
do_task_runs zero j w q fit h = absurd (omega arith)
do_task_runs (suc fuel) j w q fit h =
    let o = object_of j in
    let fits : o < length w.objects = object-IsFit (length w.objects) j fit in
    let m = modify (register_first j) o w in
    let w0 : WorkerThread = record m { current_executer = some o } in
    let none_yet : (at w o).remain_task_count ≡ 0 = (q.idle o).no_task in
    let first : ((at w o).remain_task_count == 0) ≡ true = ground (arith, none_yet) in
    let v0 : Inv [] (o ∷ []) (o ∷ []) w0 =
      Inv-register_first (Inv-IsQuiet q) o fits j w.executer_list (o ∷ []) (o ∷ []) (some o) fit
        none_yet (λ i. (own i w, own i w)) in
    let room : waiting w0 ≡ total one (nodes j) =
      omega (arith, work-register_first nothing one j w fits, waiting-quiet q) in
    let (w2, run, r, none_left) =
      flush-drain o o fuel (o ∷ []) w0 refl v0 (omega (arith, h, room)) in
    let w3 : WorkerThread = modify release_ref_for_this o (record w2 { current_executer = none }) in
    let k0 = Keeps-modify (register_first j) o w in
    let fits2 : o < length w2.objects = omega (arith, fits, k0.size, r.keeps.size) in
    let q3 : IsQuiet w3 =
      IsQuiet-Inv
        (Inv-release o fits2 none w2.timer_job_queue r.holds r.holds.timers (λ i. own_left i w2))
        refl none_left in
    (
      w3,
      do_task_first fuel j w first
          ∙ ap (λ x. dispatch (λ w'. and_then (flush fuel o w') (drain fuel)) o x m) q.no_current
          ∙ ap
              (λ m'. and_then m' (λ w'.
                some (modify release_ref_for_this o (record w' { current_executer = none }))))
              run,
      q3,
      λ f. omega (
        arith,
        work-quiet f f q,
        work-quiet f f q3,
        work-register_first f f j w fits,
        r.balance f,
        work-modify f f release_ref_for_this o w2 fits2,
      ),
      record {
        size = (Keeps-modify release_ref_for_this o w2).size ∙ r.keeps.size ∙ k0.size;
        current = sym q.no_current;
        tick = r.keeps.tick;
        timer = r.keeps.timer;
      },
    )
  where
    own :
        (i : ℕ) (t : WorkerThread)
        → times i t.executer_list + times i (object_of j ∷ [])
          ≡ times i t.executer_list + times i [] + is i (object_of j)
    own i t = unfold total in omega arith

    own_left :
        (i : ℕ) (t : WorkerThread)
        → times i (object_of j ∷ []) + timed i t.timer_job_queue
          ≡ times i [] + timed i t.timer_job_queue + is i (object_of j)
    own_left i t = unfold total in omega arith
