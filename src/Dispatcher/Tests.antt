-- ===== src/Dispatcher/Tests.antt =====
-- An object with two threads.
use game_lift.Prelude.{◌≤◌, ◌≡◌, refl, false, [], ◌∷◌, ◌++◌, total}
use game_lift.Dispatcher.{
  outside, registering, registering_first, adding_ref, flushing, executing, AsyncExecutable,
  new_executable, advance, Reach, start, later, steps,
}
use game_lift.Dispatcher.Runner.{running, owners, holders, one_runner}

-- The first thread runs its task, and the second has counted one.
abbrev busy : AsyncExecutable
busy = record {
  remain_task_count = 2;
  ref_count = 1;
  job_queue = [];
  pushed = 7 ∷ [];
  taken = 7 ∷ [];
  threads = executing ∷ registering ∷ [];
}

busy-Reach : Reach 2 busy
unfolding new_executable advance
busy-Reach =
    later
      (later
        (later
          (later (later start (steps false 7 [] outside (outside ∷ []) refl))
            (steps false 7 [] registering_first (outside ∷ []) refl))
          (steps false 7 [] adding_ref (outside ∷ []) refl))
        (steps false 7 [] flushing (outside ∷ []) refl))
      (steps false 8 (executing ∷ []) outside [] refl)

one_runner_example :
    (total running busy.threads ≤ 1)
    × (busy.pushed ≡ busy.taken ++ busy.job_queue)
    × (1 ≤ busy.remain_task_count → total owners busy.threads ≡ 1)
    × (total owners busy.threads ≡ 0 → busy.job_queue ≡ [])
    × (busy.ref_count ≡ total holders busy.threads)
one_runner_example = one_runner busy-Reach
