-- ===== src/Pool/Tests.antt =====
-- ObjectPool.h on concrete runs.
use game_lift.Prelude.{refl, [], ◌∷◌, total}
use game_lift.Pool.{idle, popping, ObjectPool, new_pool, begin_new, finish_new, popped}
use game_lift.Pool.Exclusive.{new_position, new_exchange, start, later, IsKept, exclusive}

-- Two threads; the first asks for an object while the pool is empty.
abbrev asking : ObjectPool
unfolding begin_new new_pool
asking = record (begin_new (new_pool 2)) { threads = popping 0 ∷ idle ∷ [] }

abbrev given : ObjectPool
unfolding finish_new popped
given = record (finish_new 7 0 asking) { threads = idle ∷ idle ∷ [] }

exclusive_example : IsKept 7 given
unfolding new_pool begin_new finish_new popped total
exclusive_example =
    exclusive {n = 2}
      (later (later start (new_position [] (idle ∷ []) refl))
        (new_exchange 7 [] 0 (idle ∷ []) refl refl))
      7
