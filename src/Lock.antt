-- ===== src/Lock.antt =====
-- GameLiftGameServer/GameLiftGameServer/FastSpinlock.cpp: a lock for one writer or many readers in
-- one 32-bit word, taken by threads whose atomic operations interleave in any order.
pub mod Counts
pub mod Exclusion
mod Tests
use game_lift.Prelude.{
  ℕ, ◌+◌, ◌-◌, ◌/◌, ◌%◌, ◌^◌, ◌≡◌, Bool, true, false, List, [], ◌∷◌, ◌++◌, ◌==◌, if◌then◌else◌,
  replicate,
}

-- `LF_WRITE_FLAG`. The masks are written as arithmetic: `x & LF_WRITE_MASK`, shifted down, and
-- `x & LF_READ_MASK`.
abbrev pub lf_write_flag : ℕ
lf_write_flag = 2 ^ 20

abbrev pub write_bits : ℕ → ℕ
write_bits x = x / 2 ^ 20 % 2 ^ 11

abbrev pub read_bits : ℕ → ℕ
read_bits x = x % 2 ^ 20

-- `InterlockedAdd` of a number, and of its negation.
abbrev pub add_word : ℕ → ℕ → ℕ
add_word x d = (x + d) % 2 ^ 32

abbrev pub sub_word : ℕ → ℕ → ℕ
sub_word x d = (x + 2 ^ 32 - d) % 2 ^ 32

-- Where a thread stands: outside, or before one of the atomic operations of the four functions.
pub data Pc : Type 0 where
  idle : Pc
  -- `EnterWriteLock`: the first wait, the addition, its undoing, the wait for the readers
  write_poll write_try write_undo write_drain : Pc
  -- the exclusive section, and `LeaveWriteLock`
  writing : Pc
  -- `EnterReadLock`: the wait, the increment, its undoing
  read_poll read_try read_undo : Pc
  -- the shared section, and `LeaveReadLock`
  reading : Pc

-- What a thread outside calls next.
pub data Choice : Type 0 where
  to_write to_read : Choice

-- One atomic operation of a thread on the flag, and where the thread stands after it.
unfoldable pub advance : Choice → ℕ → Pc → ℕ × Pc
advance to_write x idle = (x, write_poll)
advance to_read x idle = (x, read_poll)
advance c x write_poll = (x, if write_bits x == 0 then write_try else write_poll)
advance c x write_try =
    let y = add_word x lf_write_flag in (y, if write_bits y == 1 then write_drain else write_undo)
advance c x write_undo = (sub_word x lf_write_flag, write_poll)
advance c x write_drain = (x, if read_bits x == 0 then writing else write_drain)
advance c x writing = (sub_word x lf_write_flag, idle)
advance c x read_poll = (x, if write_bits x == 0 then read_try else read_poll)
advance c x read_try = let y = add_word x 1 in (y, if write_bits y == 0 then reading else read_undo)
advance c x read_undo = (sub_word x 1, read_poll)
advance c x reading = (sub_word x 1, idle)

pub record FastSpinlock : Type 0 where
  pub lock_flag : ℕ
  pub threads : List Pc

-- The constructor, with so many threads that will use the lock.
unfoldable pub new_lock : ℕ → FastSpinlock
new_lock n = record { lock_flag = 0; threads = replicate n idle }

-- Some thread makes its next atomic operation.
pub data Step (s : FastSpinlock) : FastSpinlock → Type 0 where
  turn :
      (c : Choice) (before : List Pc) (p : Pc) (behind : List Pc)
      → s.threads ≡ before ++ (p ∷ behind)
      → Step s (record {
        lock_flag = (advance c s.lock_flag p).0;
        threads = before ++ ((advance c s.lock_flag p).1 ∷ behind);
      })

pub data Reach (n : ℕ) : FastSpinlock → Type 0 where
  start : Reach n (new_lock n)
  later : {s t : FastSpinlock} → Reach n s → Step s t → Reach n t
