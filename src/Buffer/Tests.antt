-- ===== src/Buffer/Tests.antt =====
-- Runs of the buffer on small arrays, and its theorems at them.
use game_lift.Prelude.{◌+◌, ◌≤◌, ◌<◌, ◌≡◌, ◌⊎◌, true, false, refl, none, some, [], ◌∷◌, arith}
use game_lift.Buffer.{
  CircularBuffer, init, get_buffer, a_free_space, space_before_a, taken, read, write,
}
use game_lift.Buffer.Inv.{IsValid, contents, init-IsValid}
use game_lift.Buffer.Queue.{put, get, look, skip}
use game_lift.Buffer.Fill.{room, Put, write_lem}
use game_lift.Buffer.Window.{stale_window}
use game_lift.Buffer.Refine.{RunRefines, exec_all-RunRefines}

abbrev fresh : CircularBuffer
fresh = init (0 ∷ 0 ∷ 0 ∷ 0 ∷ 0 ∷ 0 ∷ []) 6

-- 3, 4 in region A at offset 3, then 5 in region B; six places.
abbrev split : CircularBuffer
split = record {
  buffer = 5 ∷ 0 ∷ 0 ∷ 3 ∷ 4 ∷ 0 ∷ [];
  capacity = 6;
  a_pointer = 3;
  a_size = 2;
  b_pointer = some 0;
  b_size = 1;
}

-- Before region B is opened.
abbrev shut : CircularBuffer
shut = record split { b_pointer = none; b_size = 0 }

fresh-IsValid : IsValid fresh
fresh-IsValid = init-IsValid (0 ∷ 0 ∷ 0 ∷ 0 ∷ 0 ∷ 0 ∷ []) 6 refl (omega arith)

split-IsValid : IsValid split
split-IsValid = record {
  storage = refl;
  small = omega arith;
  a_fits = omega arith;
  drained = λ e. absurd (omega arith);
  b_fits = (refl, omega arith, omega arith);
}

shut-IsValid : IsValid shut
shut-IsValid = record {
  storage = refl;
  small = omega arith;
  a_fits = omega arith;
  drained = λ e. absurd (omega arith);
  b_fits = refl;
}

read-split : (read split 3).0 ≡ taken (3 ∷ 4 ∷ 5 ∷ [])
unfolding read
read-split = refl

write-shut : contents (write shut (5 ∷ 6 ∷ 7 ∷ [])).1 ≡ 3 ∷ 4 ∷ 5 ∷ 6 ∷ 7 ∷ []
unfolding write
write-shut = refl

exec_all-RunRefines_example :
    RunRefines split
      (get 2 ∷ put (6 ∷ 7 ∷ 8 ∷ 9 ∷ 1 ∷ 2 ∷ []) ∷ skip 1 ∷ put (1 ∷ []) ∷ look 4 ∷ [])
exec_all-RunRefines_example =
    exec_all-RunRefines
      (get 2 ∷ put (6 ∷ 7 ∷ 8 ∷ 9 ∷ 1 ∷ 2 ∷ []) ∷ skip 1 ∷ put (1 ∷ []) ∷ look 4 ∷ []) split-IsValid

write_lem_example :
    ((2 ≤ room split)
      × ((write split (6 ∷ 7 ∷ [])).0 ≡ true)
      × Put split (6 ∷ 7 ∷ []) (write split (6 ∷ 7 ∷ [])).1)
    ⊎ ((room split < 2)
        × ((write split (6 ∷ 7 ∷ [])).0 ≡ false)
        × Put split [] (write split (6 ∷ 7 ∷ [])).1)
write_lem_example = write_lem (6 ∷ 7 ∷ []) split-IsValid

stale_window_example : 6 < get_buffer shut + room shut
unfolding a_free_space space_before_a
stale_window_example = stale_window shut-IsValid refl (omega arith)
