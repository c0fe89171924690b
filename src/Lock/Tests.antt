-- ===== src/Lock/Tests.antt =====
-- A run of two threads, a writer and a reader.
use game_lift.Prelude.{total, ◌^◌, ◌≤◌, ◌≡◌, refl, ◌⊎◌, [], ◌∷◌, arith}
use game_lift.Lock.{
  idle, write_poll, write_try, write_drain, writing, read_poll, to_write, to_read, advance,
  FastSpinlock, new_lock, turn, Reach, start, later,
}
use game_lift.Lock.Counts.{writers, readers}
use game_lift.Lock.Exclusion.{exclusion}

-- The first thread writes, the second waits to read.
abbrev contended : FastSpinlock
contended = record { lock_flag = 2 ^ 20; threads = writing ∷ read_poll ∷ [] }

contended-Reach : Reach 2 contended
unfolding new_lock advance
contended-Reach =
    later
      (later
        (later
          (later (later start (turn to_write [] idle (idle ∷ []) refl))
            (turn to_write [] write_poll (idle ∷ []) refl))
          (turn to_write [] write_try (idle ∷ []) refl))
        (turn to_write [] write_drain (idle ∷ []) refl))
      (turn to_read (writing ∷ []) idle [] refl)

exclusion_example :
    (total writers contended.threads ≤ 1)
    × ((total writers contended.threads ≡ 0) ⊎ (total readers contended.threads ≡ 0))
exclusion_example = exclusion (omega arith) contended-Reach
