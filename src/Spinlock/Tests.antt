-- ===== src/Spinlock/Tests.antt =====
-- Two threads: one is inside, the other has tried.
use game_lift.Prelude.{◌≤◌, ◌≡◌, refl, [], ◌∷◌, total}
use game_lift.Spinlock.{
  outside, entering, inside, FastSpinlock, new_lock, advance, Reach, start, later, steps,
}
use game_lift.Spinlock.Owner.{is_inside, one_owner}

abbrev taken_lock : FastSpinlock
taken_lock = record { lock_flag = 1; threads = inside ∷ entering ∷ [] }

taken_lock-Reach : Reach 2 taken_lock
unfolding new_lock advance
taken_lock-Reach =
    later
      (later
        (later (later start (steps [] outside (outside ∷ []) refl))
          (steps (entering ∷ []) outside [] refl))
        (steps [] entering (entering ∷ []) refl))
      (steps (inside ∷ []) entering [] refl)

one_owner_example :
    (total is_inside taken_lock.threads ≤ 1)
    × (total is_inside taken_lock.threads ≡ 0 → (advance entering taken_lock.lock_flag).0 ≡ inside)
one_owner_example = one_owner taken_lock-Reach
