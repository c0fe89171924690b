-- ===== src/Spinlock.antt =====
-- DummyClients/DummyClients/FastSpinlock.cpp: a lock that is one flag, for any number of threads. A
-- step is one `InterlockedExchange`; the waits between two tries are left out.
pub mod Owner
mod Tests
use game_lift.Prelude.{ℕ, ◌≡◌, List, ◌∷◌, ◌++◌, ◌==◌, if◌then◌else◌, replicate}

-- Where a thread stands: outside, in the loop of `EnterLock`, and between `EnterLock` and `LeaveLock`.
pub data Pc : Type 0 where
  outside entering inside : Pc

pub record FastSpinlock : Type 0 where
  pub lock_flag : ℕ
  pub threads : List Pc

-- The constructor, and so many threads.
unfoldable pub new_lock : ℕ → FastSpinlock
new_lock n = record { lock_flag = 0; threads = replicate n outside }

-- `InterlockedExchange(&mLockFlag, 1) == 0`: the flag is 1 then, and the thread is inside if it was 0.
unfoldable pub try_enter : ℕ → Pc × ℕ
try_enter lock_flag = (if lock_flag == 0 then inside else entering, 1)

-- The next step of a thread, by the flag.
unfoldable pub advance : Pc → ℕ → Pc × ℕ
unfolding try_enter
advance outside lock_flag = (entering, lock_flag)
advance entering lock_flag = try_enter lock_flag
advance inside lock_flag = (outside, 0)

pub data Step (s : FastSpinlock) : FastSpinlock → Type 0 where
  steps :
      (before : List Pc) (p : Pc) (behind : List Pc)
      → s.threads ≡ before ++ (p ∷ behind)
      → Step s (record {
        lock_flag = (advance p s.lock_flag).1;
        threads = before ++ ((advance p s.lock_flag).0 ∷ behind);
      })

pub data Reach (n : ℕ) : FastSpinlock → Type 0 where
  start : Reach n (new_lock n)
  later : {s t : FastSpinlock} → Reach n s → Step s t → Reach n t
