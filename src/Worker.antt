-- ===== src/Worker.antt =====
-- DummyClients/DummyClients/JobDispatcher.h, Timer.h, Timer.cpp and `Run` of WorkerThread.cpp: the
-- jobs of one worker thread, on any number of objects. `Dispatcher` is about many threads and one
-- object; here one thread runs everything, its list of waiting objects and its timer included.
pub mod Work
pub mod Inv
pub mod Steps
pub mod Nested
pub mod Flushes
pub mod Runs
pub mod Quiet
pub mod Timed
mod Tests
use game_lift.Prelude.{
  ℕ, zero, suc, ◌+◌, ◌-◌, Option, none, some, List, [], ◌∷◌, ◌++◌, ltb, ◌==◌, if◌then◌else◌, get_or,
  set, push_by,
}

-- A job, by the object that it is for, a name, and what its member function calls when it runs:
-- `DoAsync`, and `DoAsyncAfter` with so many milliseconds, for whatever objects.
mutual
  pub data Job : Type 0 where
    job : ℕ → ℕ → Calls → Job

  pub data Calls : Type 0 where
    return : Calls
    do_async : Job → Calls → Calls
    do_async_after : ℕ → Job → Calls → Calls

abbrev pub object_of : Job → ℕ
object_of (job o name calls) = o

abbrev pub calls_of : Job → Calls
calls_of (job o name calls) = calls

-- `AsyncExecutable`; the last two fields are not of the code: what was pushed to the queue, and what
-- was popped to be run.
pub record AsyncExecutable : Type 0 where
  pub remain_task_count : ℕ
  pub ref_count : ℕ
  pub job_queue : List Job
  pub pushed : List Job
  pub taken : List Job

abbrev pub new_executable : AsyncExecutable
new_executable = record {
  remain_task_count = 0;
  ref_count = 0;
  job_queue = [];
  pushed = [];
  taken = [];
}

-- `TimerJobElement`; `mOwner` is the object of the job.
pub record TimerJobElement : Type 0 where
  pub task : Job
  pub execution_tick : ℕ

-- The objects, and the variables of the thread: `LExecuterList`,
-- `LCurrentExecuterOccupyingThisThread`, `LTimer` and `LTickCount`. The timer's queue is a list whose
-- first element is the one that `top` gives.
pub record WorkerThread : Type 0 where
  pub objects : List AsyncExecutable
  pub executer_list : List ℕ
  pub current_executer : Option ℕ
  pub timer_job_queue : List TimerJobElement
  pub tick_count : ℕ

abbrev pub at : WorkerThread → ℕ → AsyncExecutable
at w o = get_or w.objects o new_executable

unfoldable pub modify : (AsyncExecutable → AsyncExecutable) → ℕ → WorkerThread → WorkerThread
modify f o w = record w { objects = set w.objects o (f (at w o)) }

abbrev pub add_ref_for_this : AsyncExecutable → AsyncExecutable
add_ref_for_this e = record e { ref_count = e.ref_count + 1 }

abbrev pub release_ref_for_this : AsyncExecutable → AsyncExecutable
release_ref_for_this e = record e { ref_count = e.ref_count - 1 }

-- `mRemainTaskCount.fetch_add(1)` and `mJobQueue.Push(task)`.
abbrev pub register : Job → AsyncExecutable → AsyncExecutable
register j e = record e {
  remain_task_count = e.remain_task_count + 1;
  job_queue = e.job_queue ++ (j ∷ []);
  pushed = e.pushed ++ (j ∷ []);
}

-- The same for the first task, and `AddRefForThis`.
abbrev pub register_first : Job → AsyncExecutable → AsyncExecutable
register_first j e = add_ref_for_this (register j e)

-- `mJobQueue.Pop()`, of a queue that is not empty.
abbrev pub popped : Job → List Job → AsyncExecutable → AsyncExecutable
popped j rest e = record e { job_queue = rest; taken = e.taken ++ (j ∷ []) }

-- `mRemainTaskCount.fetch_sub(1)`
abbrev pub task_done : AsyncExecutable → AsyncExecutable
task_done e = record e { remain_task_count = e.remain_task_count - 1 }

-- `mTimerJobQueue.push`, by `TimerJobComparator`
unfoldable pub push : TimerJobElement → List TimerJobElement → List TimerJobElement
unfolding push_by
push = push_by (λ e. e.execution_tick)

unfoldable pub push_timer_job : ℕ → Job → WorkerThread → WorkerThread
unfolding modify push
push_timer_job after j w = record (modify add_ref_for_this (object_of j) w) {
  timer_job_queue =
      push (record { task = j; execution_tick = after + w.tick_count }) w.timer_job_queue;
}

abbrev pub and_then :
    Option WorkerThread → (WorkerThread → Option WorkerThread) → Option WorkerThread
and_then none f = none
and_then (some w) f = f w

-- `OnExecute`, given `DoTask`.
unfoldable pub on_execute :
    (Job → WorkerThread → Option WorkerThread) → Calls → WorkerThread → Option WorkerThread
unfolding push_timer_job
on_execute do_task return w = some w
on_execute do_task (do_async j calls) w = and_then (do_task j w) (on_execute do_task calls)
on_execute do_task (do_async_after after j calls) w =
    on_execute do_task calls (push_timer_job after j w)

-- A turn of the loop of `Flush`, given the turns that follow and `DoTask`.
unfoldable pub flush_turn :
    (WorkerThread → Option WorkerThread)
    → (Job → WorkerThread → Option WorkerThread)
    → ℕ
    → List Job
    → WorkerThread
    → Option WorkerThread
unfolding on_execute modify
flush_turn again do_task o [] w = again w
flush_turn again do_task o (j ∷ rest) w =
    and_then (on_execute do_task (calls_of j) (modify (popped j rest) o w)) (λ w'.
      if (at w' o).remain_task_count == 1
      then some (modify task_done o w')
      else again (modify task_done o w'))

-- A turn of the loop of `DoTask` over the objects that wait.
unfoldable pub drain_turn :
    (WorkerThread → Option WorkerThread)
    → (ℕ → WorkerThread → Option WorkerThread)
    → List ℕ
    → WorkerThread
    → Option WorkerThread
unfolding modify
drain_turn again flush [] w = some w
drain_turn again flush (o ∷ rest) w =
    and_then (flush o (record w { executer_list = rest }))
      (λ w'. again (modify release_ref_for_this o w'))

-- `DoTask` for the first task of an object: it waits, if the thread runs another, or is run.
unfoldable pub dispatch :
    (WorkerThread → Option WorkerThread) → ℕ → Option ℕ → WorkerThread → Option WorkerThread
unfolding modify
dispatch run o (some c) w = some (record w { executer_list = w.executer_list ++ (o ∷ []) })
dispatch run o none w =
    and_then (run (record w { current_executer = some o }))
      (λ w'. some (modify release_ref_for_this o (record w' { current_executer = none })))

-- The three call one another, with so many rounds and calls inside one another at most.
unfoldable mutual
  unfolding dispatch flush_turn drain_turn modify

  pub do_task : ℕ → Job → WorkerThread → Option WorkerThread
  do_task zero j w = none
  do_task (suc fuel) j w =
      let run = λ (w' : WorkerThread). and_then (flush fuel (object_of j) w') (drain fuel) in
      if (at w (object_of j)).remain_task_count == 0
      then dispatch run (object_of j) w.current_executer (modify (register_first j) (object_of j) w)
      else some (modify (register j) (object_of j) w)

  pub flush : ℕ → ℕ → WorkerThread → Option WorkerThread
  flush zero o w = none
  flush (suc fuel) o w = flush_turn (flush fuel o) (do_task fuel) o (at w o).job_queue w

  pub drain : ℕ → WorkerThread → Option WorkerThread
  drain zero w = none
  drain (suc fuel) w = drain_turn (drain fuel) (flush fuel) w.executer_list w

abbrev pub pop : List TimerJobElement → List TimerJobElement
pop [] = []
pop (e ∷ q) = q

-- A turn of `DoTimerJob`, given the turns that follow: the element on top when the job has run is
-- the one that is popped.
unfoldable pub timer_turn :
    (WorkerThread → Option WorkerThread)
    → (Job → WorkerThread → Option WorkerThread)
    → List TimerJobElement
    → WorkerThread
    → Option WorkerThread
unfolding modify
timer_turn again do_task [] w = some w
timer_turn again do_task (e ∷ q) w =
    if ltb w.tick_count e.execution_tick
    then some w
    else and_then (do_task e.task w) (λ w'.
      let released = modify release_ref_for_this (object_of e.task) w' in
      again (record released { timer_job_queue = pop released.timer_job_queue }))

unfoldable pub timer_loop : ℕ → ℕ → WorkerThread → Option WorkerThread
unfolding timer_turn do_task
timer_loop zero fuel w = none
timer_loop (suc rounds) fuel w =
    timer_turn (timer_loop rounds fuel) (do_task fuel) w.timer_job_queue w

-- `DoTimerJob` when the clock shows `tick`, for at most so many rounds.
unfoldable pub do_timer_job : ℕ → ℕ → ℕ → WorkerThread → Option WorkerThread
unfolding timer_loop
do_timer_job rounds fuel tick w = timer_loop rounds fuel (record w { tick_count = tick })
