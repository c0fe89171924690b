-- ===== src/Dispatcher.antt =====
-- DummyClients/DummyClients/JobDispatcher.h: `AsyncExecutable`. Any number of threads give tasks to
-- one object by `DoTask`; the thread whose task is the first runs all of them by `Flush`. A step is
-- one atomic operation, or a whole `Push` or `Pop` of the queue (which `Jobs` is about), and a thread
-- that a task gives a further task from is one more thread here.
pub mod Runner
mod Tests
use game_lift.Prelude.{ℕ, ◌+◌, ◌-◌, ◌≡◌, Bool, List, [], ◌∷◌, ◌++◌, ◌==◌, if◌then◌else◌, replicate}

-- Where a thread stands: outside of `DoTask`; before the `Push` of a task that is not, or is, the
-- first; before the `AddRefForThis`; with the object in its `LExecuterList`; in the loop of `Flush`;
-- in `OnExecute`; and after `Flush`, before the `ReleaseRefForThis` of the object, where it may run the
-- objects of its list.
pub data Pc : Type 0 where
  outside registering registering_first adding_ref deferred flushing executing releasing : Pc

-- `mRemainTaskCount`, `mRefCount` and the queue; what was pushed, and what was popped to be run.
pub record AsyncExecutable : Type 0 where
  pub remain_task_count : ℕ
  pub ref_count : ℕ
  pub job_queue : List ℕ
  pub pushed : List ℕ
  pub taken : List ℕ
  pub threads : List Pc

-- The constructor, and so many threads.
unfoldable pub new_executable : ℕ → AsyncExecutable
new_executable n = record {
  remain_task_count = 0;
  ref_count = 0;
  job_queue = [];
  pushed = [];
  taken = [];
  threads = replicate n outside;
}

unfoldable pub push_task : ℕ → AsyncExecutable → AsyncExecutable
push_task task s = record s {
  job_queue = s.job_queue ++ (task ∷ []);
  pushed = s.pushed ++ (task ∷ []);
}

unfoldable pub add_ref_for_this : AsyncExecutable → AsyncExecutable
add_ref_for_this s = record s { ref_count = s.ref_count + 1 }

unfoldable pub release_ref_for_this : AsyncExecutable → AsyncExecutable
release_ref_for_this s = record s { ref_count = s.ref_count - 1 }

-- A turn of `Flush`, on what the queue holds.
unfoldable pub pop_task : List ℕ → AsyncExecutable → Pc × AsyncExecutable
pop_task [] s = (flushing, s)
pop_task (task ∷ rest) s =
    (executing, record s { job_queue = rest; taken = s.taken ++ (task ∷ []) })

-- The end of a task: `mRemainTaskCount.fetch_sub(1) == 1` ends `Flush`.
unfoldable pub task_done : AsyncExecutable → Pc × AsyncExecutable
task_done s = (
  if s.remain_task_count == 1 then releasing else flushing,
  record s { remain_task_count = s.remain_task_count - 1 },
)

-- The next step of a thread; `occupied` says whether the thread runs another object, and `task` is
-- what it calls `DoTask` with.
unfoldable pub advance : Bool → ℕ → Pc → AsyncExecutable → Pc × AsyncExecutable
unfolding push_task add_ref_for_this release_ref_for_this pop_task task_done
advance occupied task outside s = (
  if s.remain_task_count == 0 then registering_first else registering,
  record s { remain_task_count = s.remain_task_count + 1 },
)
advance occupied task registering s = (outside, push_task task s)
advance occupied task registering_first s = (adding_ref, push_task task s)
advance occupied task adding_ref s = (if occupied then deferred else flushing, add_ref_for_this s)
advance occupied task deferred s = (flushing, s)
advance occupied task flushing s = pop_task s.job_queue s
advance occupied task executing s = task_done s
advance occupied task releasing s = (outside, release_ref_for_this s)

-- A step of one of the threads.
pub data Step (s : AsyncExecutable) : AsyncExecutable → Type 0 where
  steps :
      (occupied : Bool) (task : ℕ) (before : List Pc) (p : Pc) (behind : List Pc)
      → s.threads ≡ before ++ (p ∷ behind)
      → Step s (record (advance occupied task p s).1 {
        threads = before ++ ((advance occupied task p s).0 ∷ behind);
      })

pub data Reach (n : ℕ) : AsyncExecutable → Type 0 where
  start : Reach n (new_executable n)
  later : {s t : AsyncExecutable} → Reach n s → Step s t → Reach n t
