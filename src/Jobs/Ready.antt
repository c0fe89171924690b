-- ===== src/Jobs/Ready.antt =====
-- About a `Pop` that no push falls into.
use game_lift.Prelude.{
  ℕ, suc, ◌≡◌, ◌≢◌, refl, sym, ap, ◌∙◌, Bool, true, false, Bool-cases, inl, inr, Option, none, some,
  List, [], ◌∷◌, ◌++◌, ◌==◌, if◌then◌else◌, arith, total,
}
use game_lift.Jobs.{
  stub, set_next, JobQueue, idle, reads_head, clears_stub, goes_on, returns, take_tail, leave_stub,
  pop_step, pop_turns, pop, System,
}
use game_lift.Jobs.Chain.{nodes, unlinked, is_pair}
use game_lift.Jobs.Pops.{jobs, Chain, own_link, not_stub}
use game_lift.Jobs.Order.{Reach, Reach-Inv}

abbrev pub first_of : List ℕ → Option ℕ
first_of [] = none
first_of (n ∷ ns) = some n

-- Every link is made.
abbrev AllLinked : ℕ → List (ℕ × Bool) → Type 0
AllLinked a rest = (x y : ℕ) → total (is_pair x y) (unlinked a rest) ≡ 0

-- The last node is taken: the stub is put behind it.
last_lem :
    (k : ℕ) (q : JobQueue)
    → q.tail ≡ q.head
    → (q' : JobQueue) × (pop_turns (suc (suc (suc (suc (suc (suc k)))))) (goes_on reads_head, q)
        ≡ some (some q.tail, q'))
unfolding pop_turns pop_step take_tail
last_lem k q same =
    let seen : (q.tail == q.head) ≡ true = ground (arith, same) in
    let back : (q.head == q.tail) ≡ true = ground (arith, same) in
    let q0 : JobQueue = record q {
      head = stub;
      next = set_next (set_next q.next stub none) q.head (some stub);
    } in
    (
      record q0 { tail = stub },
      ap
            (λ (b : Bool).
              pop_turns (suc (suc (suc (suc (suc k)))))
                (if b then goes_on clears_stub else returns none, q))
            seen
          ∙ ap
              (λ (b : Bool). pop_turns (suc k) (
                take_tail (if b then some stub else set_next q.next stub none q.tail) (returns none)
                  q0))
              back,
    )

-- Such a call from the read of the next of a tail that is a job.
tail_lem :
    (k : ℕ) (q : JobQueue) (rest : List (ℕ × Bool))
    → Chain q rest
    → AllLinked q.tail rest
    → (q' : JobQueue) × (pop_turns
          (suc (suc (suc (suc (suc (suc k))))))
          (take_tail (q.next q.tail) (goes_on reads_head) q)
        ≡ some (some q.tail, q'))
unfolding pop_turns take_tail total
tail_lem k q [] c all = let (q', taken) = last_lem k q c.follows.0 in (q', rw c.follows.1 taken)
tail_lem k q ((b, true) ∷ rest) c all = (record q { tail = b }, rw c.follows.0 refl)
tail_lem k q ((b, false) ∷ rest) c all = let own = all q.tail b in absurd (ground (arith, own))

stub_lem :
    (q : JobQueue) (rest : List (ℕ × Bool))
    → Chain q rest
    → q.tail ≡ stub
    → AllLinked q.tail rest
    → (q' : JobQueue) × (pop_turns 7 (leave_stub (q.next q.tail) q)
        ≡ some (first_of (jobs (nodes rest)), q'))
unfolding pop_turns leave_stub pop_step total
stub_lem q [] c first all = (q, rw c.follows.1 refl)
stub_lem q ((b, false) ∷ rest) c first all = let own = all q.tail b in absurd (ground (arith, own))
stub_lem q ((b, true) ∷ rest) c first all =
    let ne : b ≢ stub = λ e. absurd (ground (arith, e, first, c.distinct.0)) in
    let (q', popped) =
      tail_lem 0 (record q { tail = b }) rest
        (record { follows = c.follows.1; distinct = c.distinct.1 }) all in
    (
      q',
      rw c.follows.0 (
          popped
          ∙ ap
              (λ (t : Bool).
                some (first_of (if t then jobs (nodes rest) else b ∷ jobs (nodes rest)), q'))
              (sym (not_stub b ne))),
    )

pop_lem :
    (q : JobQueue) (rest : List (ℕ × Bool))
    → Chain q rest
    → AllLinked q.tail rest
    → (q' : JobQueue) × (pop q ≡ some (first_of (jobs (q.tail ∷ nodes rest)), q'))
unfolding pop pop_step
pop_lem q rest c all = elim (Bool-cases (q.tail == stub)) [
  | inl first ↦
      let (q', popped) = stub_lem q rest c (ground (arith, first)) all in (q', rw first popped)
  | inr other ↦ let (q', popped) = tail_lem 1 q rest c all in (q', rw other popped)
]

-- In every state that the steps of pushes and pops reach in which no push stands between its two
-- steps, and the consumer is outside of `Pop`: a call of `Pop` that no push falls into returns, with
-- the oldest job that waits, and with null only if none waits.
pub pop_ready :
    {s : System}
    → Reach s
    → s.pushing ≡ []
    → s.consumer ≡ idle
    → (waiting : List ℕ) × (s.pushed ≡ s.popped ++ waiting)
      × ((q : JobQueue) × (pop s.queue ≡ some (first_of waiting, q)))
unfolding total
pop_ready {s} r quiet outside =
    let i = Reach-Inv r in
    (
      jobs (s.queue.tail ∷ nodes i.rest),
      i.order,
      pop_lem s.queue i.rest i.chain (λ x y. omega (
        arith,
        i.links x y,
        ap (total (is_pair x y)) quiet,
        ap (λ c. total (is_pair x y) (own_link c)) outside,
      )),
    )
