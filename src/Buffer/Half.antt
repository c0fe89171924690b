-- ===== src/Buffer/Half.antt =====
-- How much of the array a write is offered at least: region B is opened only where it has more room
-- than A, so the space does not fall apart.
use game_lift.Prelude.{ℕ, ◌+◌, ◌*◌, ◌≤◌, Option, none, some, List, arith}
use game_lift.Buffer.{CircularBuffer, init, read, write, get_free_space_size, get_stored_size}
use game_lift.Buffer.Inv.{IsValid}
use game_lift.Buffer.Fill.{room}

-- An open region B lies before an A that starts in the later half, or once did.
abbrev pub BHalf : Option ℕ → ℕ → ℕ → ℕ → Type 0
BHalf none capacity a_pointer a_size = Unit {0}
BHalf (some p) capacity a_pointer a_size = capacity ≤ 2 * a_pointer + a_size

abbrev pub IsHalf : CircularBuffer → Type 0
IsHalf r = BHalf r.b_pointer r.capacity r.a_pointer r.a_size

pub init-IsHalf : (storage : List ℕ) (n : ℕ) → IsHalf (init storage n)
unfolding init
init-IsHalf storage n = tt

pub write-IsHalf : {r : CircularBuffer} (ys : List ℕ) → IsValid r → IsHalf r → IsHalf (write r ys).1
unfolding write
write-IsHalf {r} ys v h = ground arith

pub read-IsHalf : {r : CircularBuffer} (n : ℕ) → IsValid r → IsHalf r → IsHalf (read r n).1
unfolding read
read-IsHalf {r} n v h = ground arith

-- The capacity is at most twice the room and three times what is stored.
pub room-IsHalf :
    {r : CircularBuffer} → IsValid r → IsHalf r → r.capacity ≤ 2 * room r + 3 * get_stored_size r
unfolding get_free_space_size get_stored_size
room-IsHalf {r} v h = ground arith
