-- ===== src/Worker/Work.antt =====
-- What the jobs of a thread amount to: the jobs that a job calls for, those that fit the objects of
-- the thread, and what a run leaves of the thread's variables.
use game_lift.Prelude.{
  ℕ, ◌+◌, ◌<◌, ◌≡◌, refl, subst, ◌∙◌, List, [], ◌∷◌, ◌++◌, ◌==◌, if◌then◌else◌, length, total,
  total-set, length-set,
}
use game_lift.Worker.{
  Job, job, Calls, return, do_async, do_async_after, AsyncExecutable, new_executable,
  TimerJobElement, WorkerThread, at, modify, push,
}

-- A job and the jobs that come of it without the timer.
unfoldable mutual
  pub nodes : Job → List Job
  nodes (job o name calls) = job o name calls ∷ nodes_calls calls

  pub nodes_calls : Calls → List Job
  nodes_calls return = []
  nodes_calls (do_async j calls) = nodes j ++ nodes_calls calls
  nodes_calls (do_async_after after j calls) = nodes_calls calls

-- A job and all that come of it, those for the timer too, are for one of `n` objects, and every
-- `DoAsyncAfter` among them has a delay that is not 0.
unfoldable mutual
  pub IsFit : ℕ → Job → Type 0
  IsFit n (job o name calls) = (o < n) × IsFitCalls n calls

  pub IsFitCalls : ℕ → Calls → Type 0
  IsFitCalls n return = Unit {0}
  IsFitCalls n (do_async j calls) = IsFit n j × IsFitCalls n calls
  IsFitCalls n (do_async_after after j calls) = (0 < after) × IsFit n j × IsFitCalls n calls

abbrev pub AllFit : ℕ → List Job → Type 0
AllFit n [] = Unit {0}
AllFit n (j ∷ js) = IsFit n j × AllFit n js

pub AllFit-append : (n : ℕ) (xs ys : List Job) → AllFit n xs → AllFit n ys → AllFit n (xs ++ ys)
AllFit-append n [] ys h k = k
AllFit-append n (x ∷ xs) ys h k = (h.0, AllFit-append n xs ys h.1 k)

-- What is counted of an object: `g` over the jobs that were taken to be run, and `f` over those that
-- come of the jobs that wait.
abbrev pub share : (Job → ℕ) → (Job → ℕ) → AsyncExecutable → ℕ
share g f e = total g e.taken + total (λ j. total f (nodes j)) e.job_queue

abbrev pub work : (Job → ℕ) → (Job → ℕ) → WorkerThread → ℕ
work g f w = total (share g f) w.objects

abbrev pub nothing : Job → ℕ
nothing j = 0

abbrev pub one : Job → ℕ
one j = 1

-- The jobs that wait, with those that come of them.
abbrev pub waiting : WorkerThread → ℕ
waiting w = work nothing one w

pub work-modify :
    (g f : Job → ℕ) (h : AsyncExecutable → AsyncExecutable) (o : ℕ) (w : WorkerThread)
    → o < length w.objects
    → work g f (modify h o w) + share g f (at w o) ≡ work g f w + share g f (h (at w o))
unfolding modify
work-modify g f h o w fits = total-set (share g f) w.objects o (h (at w o)) new_executable fits

-- How often an object stands in a list.
abbrev pub is : ℕ → ℕ → ℕ
is i o = if o == i then 1 else 0

abbrev pub times : ℕ → List ℕ → ℕ
times i os = total (is i) os

-- The timer's queue after elements were pushed that are due later than `now`.
pub data Pushed (now : ℕ) (q : List TimerJobElement) : List TimerJobElement → Type 0 where
  as_it_was : Pushed now q q
  then_push :
      {q' : List TimerJobElement} (e : TimerJobElement)
      → Pushed now q q'
      → now < e.execution_tick
      → Pushed now q (push e q')

pub Pushed-trans :
    {now : ℕ} {q q' q'' : List TimerJobElement}
    → Pushed now q q'
    → Pushed now q' q''
    → Pushed now q q''
Pushed-trans p as_it_was = p
Pushed-trans p (then_push e r h) = then_push e (Pushed-trans p r) h

-- What a run keeps.
pub record Keeps (w w' : WorkerThread) : Type 0 where
  pub size : length w'.objects ≡ length w.objects
  pub current : w'.current_executer ≡ w.current_executer
  pub tick : w'.tick_count ≡ w.tick_count
  pub timer : Pushed w.tick_count w.timer_job_queue w'.timer_job_queue

pub Keeps-refl : (w : WorkerThread) → Keeps w w
Keeps-refl w = record { size = refl; current = refl; tick = refl; timer = as_it_was }

pub Keeps-trans : {u v w : WorkerThread} → Keeps u v → Keeps v w → Keeps u w
Keeps-trans {u} {v} {w} h k = record {
  size = k.size ∙ h.size;
  current = k.current ∙ h.current;
  tick = k.tick ∙ h.tick;
  timer =
      Pushed-trans h.timer
        (subst (λ t. Pushed t v.timer_job_queue w.timer_job_queue) h.tick k.timer);
}

pub Keeps-modify :
    (f : AsyncExecutable → AsyncExecutable) (o : ℕ) (w : WorkerThread) → Keeps w (modify f o w)
unfolding modify
Keeps-modify f o w = record {
  size = length-set w.objects o (f (at w o));
  current = refl;
  tick = refl;
  timer = as_it_was;
}
