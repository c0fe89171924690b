-- ===== src/Buffer/Inv.antt =====
-- The representation invariant of `CircularBuffer`, and the bytes that a buffer holds.
use game_lift.Prelude.{
  sym, ◌∙◌, ℕ, ◌+◌, ◌-◌, ◌^◌, ◌≤◌, ◌<◌, ◌≡◌, Option, none, some, List, [], ◌++◌, arith, length,
  length-append, length-slice, slice,
}
use game_lift.Buffer.{CircularBuffer, init, a_free_space, get_stored_size}

-- Region B, where there is one, starts the array and ends before A, and A is not empty.
abbrev pub BRegion : Option ℕ → ℕ → ℕ → ℕ → Type 0
BRegion none b_size a_pointer a_size = b_size ≡ 0
BRegion (some p) b_size a_pointer a_size = (p ≡ 0) × (b_size ≤ a_pointer) × (0 < a_size)

pub record IsValid (r : CircularBuffer) : Type 0 where
  pub storage : length r.buffer ≡ r.capacity
  pub small : r.capacity < 2 ^ 63
  pub a_fits : r.a_pointer + r.a_size ≤ r.capacity
  pub drained : r.a_size ≡ 0 → r.a_pointer ≡ 0
  pub b_fits : BRegion r.b_pointer r.b_size r.a_pointer r.a_size

abbrev pub b_contents : List ℕ → Option ℕ → ℕ → List ℕ
b_contents buffer none n = []
b_contents buffer (some p) n = slice buffer p n

-- Oldest first.
abbrev pub contents : CircularBuffer → List ℕ
contents r = slice r.buffer r.a_pointer r.a_size ++ b_contents r.buffer r.b_pointer r.b_size

pub init-IsValid :
    (storage : List ℕ) (capacity : ℕ)
    → length storage ≡ capacity
    → capacity < 2 ^ 63
    → IsValid (init storage capacity)
unfolding init
init-IsValid storage capacity h k = ground arith

length-b_contents :
    (buffer : List ℕ) (b : Option ℕ) (n a m : ℕ)
    → BRegion b n a m
    → a + m ≤ length buffer
    → length (b_contents buffer b n) ≡ n
length-b_contents buffer none n a m v h = omega arith
length-b_contents buffer (some p) n a m v h = length-slice buffer p n (omega arith)

pub length-contents : {r : CircularBuffer} → IsValid r → length (contents r) ≡ r.a_size + r.b_size
length-contents {r} v = omega (
  arith,
  length-append (slice r.buffer r.a_pointer r.a_size) (b_contents r.buffer r.b_pointer r.b_size),
  length-slice r.buffer r.a_pointer r.a_size,
  length-b_contents r.buffer r.b_pointer r.b_size r.a_pointer r.a_size v.b_fits,
)

-- `mARegionSize + mBRegionSize` does not wrap.
pub get_stored_size-eq : {r : CircularBuffer} → IsValid r → get_stored_size r ≡ r.a_size + r.b_size
unfolding get_stored_size
get_stored_size-eq v = ground arith

pub a_free_space-eq :
    {r : CircularBuffer} → IsValid r → a_free_space r ≡ r.capacity - r.a_pointer - r.a_size
unfolding a_free_space
a_free_space-eq v = omega arith

pub length-contents_stored :
    {r : CircularBuffer} → IsValid r → length (contents r) ≡ get_stored_size r
length-contents_stored v = length-contents v ∙ sym (get_stored_size-eq v)
