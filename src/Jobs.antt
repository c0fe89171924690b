-- ===== src/Jobs.antt =====
-- DummyClients/DummyClients/JobDispatcher.h: `JobQueue`, a list of jobs that many threads push to and
-- one pops from. A `NodeEntry` is a number, and the stub is 0; a job is its node. A step is one read
-- or write of a pointer that threads share, and other threads may come between any two of them;
-- every thread sees the writes in one order.
pub mod Chain
pub mod Link
pub mod Pops
pub mod Order
pub mod Ready
mod Tests
use game_lift.Prelude.{
  ℕ, zero, suc, Bool, Option, none, some, List, [], ◌∷◌, ◌++◌, ◌==◌, if◌then◌else◌,
}

-- `&mStub`
abbrev pub stub : ℕ
stub = 0

-- `mHead`, `mTail`, and `mNext` of every node; `none` is the null pointer.
pub record JobQueue : Type 0 where
  pub head : ℕ
  pub tail : ℕ
  pub next : ℕ → Option ℕ

abbrev pub set_next : (ℕ → Option ℕ) → ℕ → Option ℕ → ℕ → Option ℕ
set_next next node value k = if node == k then value else next k

unfoldable pub new_queue : JobQueue
new_queue = record { head = stub; tail = stub; next = λ k. none }

-- The constructor of a `NodeEntry`, in a new job.
unfoldable pub new_entry : ℕ → JobQueue → JobQueue
new_entry node q = record q { next = set_next q.next node none }

-- `Push`: the exchange of the head, which gives the node before, and the store into that node.
unfoldable pub push_exchange : ℕ → JobQueue → ℕ × JobQueue
push_exchange node q = (q.head, record q { head = node })

unfoldable pub push_link : ℕ → ℕ → JobQueue → JobQueue
push_link prev node q = record q { next = set_next q.next prev (some node) }

-- Where the consumer stands in `Pop`, by what it does next: outside, or at its first read of a next;
-- at the read of the next after a tail that was the stub; at the read of the head; at the store into
-- the stub; at the exchange of the head; at the store into the node that the exchange gave; and at
-- the last read of a next.
pub data Pc : Type 0 where
  idle second_read reads_head clears_stub exchanges reads_again : Pc
  joins_stub : ℕ → Pc

-- A step of `Pop` goes on, or returns a job or null.
pub data Turn : Type 0 where
  goes_on : Pc → Turn
  returns : Option ℕ → Turn

-- The tail is a job, and this is its next: `otherwise` is what follows if that is null.
unfoldable pub take_tail : Option ℕ → Turn → JobQueue → Turn × JobQueue
take_tail none otherwise q = (otherwise, q)
take_tail (some n) otherwise q = (returns (some q.tail), record q { tail = n })

-- The tail is the stub, and this is its next.
unfoldable pub leave_stub : Option ℕ → JobQueue → Turn × JobQueue
leave_stub none q = (returns none, q)
leave_stub (some n) q = (goes_on second_read, record q { tail = n })

-- A step of `Pop`: one read or write of what other threads write or read. `mTail` is the consumer's.
unfoldable pub pop_step : Pc → JobQueue → Turn × JobQueue
unfolding take_tail leave_stub push_exchange push_link
pop_step idle q =
    if q.tail == stub
    then leave_stub (q.next q.tail) q
    else take_tail (q.next q.tail) (goes_on reads_head) q
pop_step second_read q = take_tail (q.next q.tail) (goes_on reads_head) q
pop_step reads_head q = (if q.tail == q.head then goes_on clears_stub else returns none, q)
pop_step clears_stub q = (goes_on exchanges, record q { next = set_next q.next stub none })
pop_step exchanges q = let (prev, q') = push_exchange stub q in (goes_on (joins_stub prev), q')
pop_step (joins_stub prev) q = (goes_on reads_again, push_link prev stub q)
pop_step reads_again q = take_tail (q.next q.tail) (returns none) q

-- The queue, the pushes between their two steps (the node before, and the node), the consumer, and
-- the jobs that were pushed and popped so far, in the order of the exchanges and of the pops.
pub record System : Type 0 where
  pub queue : JobQueue
  pub pushing : List (ℕ × ℕ)
  pub consumer : Pc
  pub pushed : List ℕ
  pub popped : List ℕ

unfoldable pub new_system : System
unfolding new_queue
new_system = record { queue = new_queue; pushing = []; consumer = idle; pushed = []; popped = [] }

-- A push begins, with a new job.
unfoldable pub begin_push : ℕ → System → System
unfolding new_entry push_exchange
begin_push node s =
    let (prev, q) = push_exchange node (new_entry node s.queue) in
    record s { queue = q; pushing = (prev, node) ∷ s.pushing; pushed = s.pushed ++ (node ∷ []) }

-- A push ends; the others are left.
unfoldable pub end_push : ℕ → ℕ → List (ℕ × ℕ) → System → System
unfolding push_link
end_push prev node others s = record s { queue = push_link prev node s.queue; pushing = others }

-- The consumer makes a step; a job that `Pop` returns is popped.
unfoldable pub stepped : Turn × JobQueue → System → System
stepped (goes_on pc, q) s = record s { queue = q; consumer = pc }
stepped (returns none, q) s = record s { queue = q; consumer = idle }
stepped (returns (some job), q) s = record s {
  queue = q;
  consumer = idle;
  popped = s.popped ++ (job ∷ []);
}

unfoldable pub consume : System → System
unfolding pop_step stepped
consume s = stepped (pop_step s.consumer s.queue) s

-- A call of `Pop` that no push falls into, for at most so many steps; `none` if it has not returned.
unfoldable pub pop_turns : ℕ → Turn × JobQueue → Option (Option ℕ × JobQueue)
unfolding pop_step
pop_turns zero (goes_on pc, q) = none
pop_turns zero (returns r, q) = some (r, q)
pop_turns (suc fuel) (returns r, q) = some (r, q)
pop_turns (suc fuel) (goes_on pc, q) = pop_turns fuel (pop_step pc q)

unfoldable pub pop : JobQueue → Option (Option ℕ × JobQueue)
unfolding pop_turns
pop q = pop_turns 7 (pop_step idle q)
