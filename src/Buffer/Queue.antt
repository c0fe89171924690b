-- ===== src/Buffer/Queue.antt =====
-- What a user of `CircularBuffer` may rely on: a queue of bytes, oldest first, of a fixed capacity.
use game_lift.Prelude.{ℕ, ◌+◌, ◌≤◌, ◌<◌, List, [], ◌∷◌, ◌++◌, ◌⊎◌, length, take, drop}

pub data Op : Type 0 where
  -- `Write`
  put : List ℕ → Op
  -- a `read` from a socket into `GetBuffer`, for which these bytes are waiting, and `Commit`
  receive : List ℕ → Op
  -- `Read`, `Peek`, `Remove`
  get look skip : ℕ → Op

pub data Reply : Type 0 where
  done : Reply
  failed : Reply
  bytes : List ℕ → Reply

-- The steps of the queue. A write fails only if it is too large for the free space, or the queue holds something.
pub data Step (cap : ℕ) (q : List ℕ) : Op → Reply → List ℕ → Type 0 where
  put_done : (ys : List ℕ) → length q + length ys ≤ cap → Step cap q (put ys) done (q ++ ys)
  put_failed : (ys : List ℕ) → (cap < length ys) ⊎ (0 < length q) → Step cap q (put ys) failed q
  receive_done :
      (ys : List ℕ) (n : ℕ) → length q + n ≤ cap → Step cap q (receive ys) done (q ++ take n ys)
  get_bytes : (n : ℕ) → n ≤ length q → Step cap q (get n) (bytes (take n q)) (drop n q)
  get_failed : (n : ℕ) → length q < n → Step cap q (get n) failed q
  look_bytes : (n : ℕ) → n ≤ length q → Step cap q (look n) (bytes (take n q)) q
  look_failed : (n : ℕ) → length q < n → Step cap q (look n) failed q
  skip_done : (n : ℕ) → Step cap q (skip n) done (drop n q)

-- Sequences of steps, with the replies.
pub data Run (cap : ℕ) : List ℕ → List Op → List Reply → List ℕ → Type 0 where
  stop : {q : List ℕ} → Run cap q [] [] q
  go_on :
      {q q' q'' : List ℕ} {op : Op} {ops : List Op} {a : Reply} {rest : List Reply}
      → Step cap q op a q'
      → Run cap q' ops rest q''
      → Run cap q (op ∷ ops) (a ∷ rest) q''
