-- ===== src/Jobs/Tests.antt =====
-- A queue of jobs on concrete runs.
use game_lift.Prelude.{ℕ, ◌≡◌, refl, some, List, [], ◌∷◌, ◌++◌, arith}
use game_lift.Jobs.{JobQueue, System, new_system, begin_push, end_push, consume, pop}
use game_lift.Jobs.Order.{begins, finishes, consumes, Reach, start, later, popped_in_order}
use game_lift.Jobs.Ready.{first_of, pop_ready}

-- Job 1 is pushed; the consumer comes as far as to the store into the stub.
abbrev looking : System
looking = consume (consume (consume (end_push 0 1 [] (begin_push 1 new_system))))

looking-Reach : Reach looking
unfolding new_system begin_push end_push consume
looking-Reach =
    later
      (later
        (later (later (later start (begins 1 (omega arith) refl)) (finishes [] 0 1 [] refl))
          consumes)
        consumes)
      consumes

-- Job 2 comes between that and the exchange of the head, and is not linked yet when the consumer
-- reads again: `Pop` returns null, with the stub behind job 2.
abbrev missed : System
missed = consume (consume (consume (consume (begin_push 2 looking))))

missed-Reach : Reach missed
unfolding new_system begin_push end_push consume
missed-Reach =
    later
      (later (later (later (later looking-Reach (begins 2 (omega arith) refl)) consumes) consumes)
        consumes)
      consumes

-- Then job 2 is linked.
abbrev settled : System
settled = end_push 1 2 [] missed

settled-Reach : Reach settled
unfolding new_system begin_push end_push consume
settled-Reach = later missed-Reach (finishes [] 1 2 [] refl)

-- Nothing was popped, and the first job is popped now.
settled-popped : (settled.popped ≡ []) × (settled.pushed ≡ 1 ∷ 2 ∷ [])
unfolding new_system begin_push end_push consume
settled-popped = (refl, refl)

popped_in_order_example : (waiting : List ℕ) × (settled.pushed ≡ settled.popped ++ waiting)
popped_in_order_example = popped_in_order settled-Reach

pop_ready_example :
    (waiting : List ℕ) × (settled.pushed ≡ settled.popped ++ waiting)
    × ((q : JobQueue) × (pop settled.queue ≡ some (first_of waiting, q)))
unfolding new_system begin_push end_push consume
pop_ready_example = pop_ready settled-Reach refl refl
