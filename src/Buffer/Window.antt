-- ===== src/Buffer/Window.antt =====
-- `GetContiguiousBytes` and `GetBufferStart`, from which data is sent, and the window of `GetBuffer`
-- and `GetFreeSpaceSize`, into which data is received.
use game_lift.Prelude.{ℕ, ◌+◌, ◌≤◌, ◌<◌, ◌≡◌, none, some, arith, take, slice}
use game_lift.Buffer.{
  CircularBuffer, get_free_space_size, get_contiguous_bytes, get_buffer_start, get_buffer,
  get_stored_size, a_free_space, space_before_a,
}
use game_lift.Buffer.Inv.{IsValid, contents, b_contents}
use game_lift.Buffer.Drain.{take_front}
use game_lift.Buffer.Fill.{room}

get_contiguous_bytes-eq : {r : CircularBuffer} → IsValid r → get_contiguous_bytes r ≡ r.a_size
unfolding get_contiguous_bytes
get_contiguous_bytes-eq v = ground arith

-- There is nothing contiguous to send exactly when nothing is stored.
pub get_contiguous_bytes-pos :
    {r : CircularBuffer} → IsValid r → 0 < get_stored_size r → 0 < get_contiguous_bytes r
unfolding get_contiguous_bytes get_stored_size
get_contiguous_bytes-pos v h = ground arith

pub get_contiguous_bytes-le :
    {r : CircularBuffer} → IsValid r → get_contiguous_bytes r ≤ get_stored_size r
unfolding get_contiguous_bytes get_stored_size
get_contiguous_bytes-le v = ground arith

-- While something is stored in a valid buffer, `GetBufferStart` is a pointer into the array, and the `GetContiguiousBytes`
-- bytes there are that many of the oldest bytes.
pub send_window :
    {r : CircularBuffer}
    → IsValid r
    → 0 < get_stored_size r
    → (p : ℕ) × (get_buffer_start r ≡ some p)
      × (p + get_contiguous_bytes r ≤ r.capacity)
      × (0 < get_contiguous_bytes r)
      × (slice r.buffer p (get_contiguous_bytes r) ≡ take (get_contiguous_bytes r) (contents r))
unfolding get_buffer_start get_stored_size get_contiguous_bytes
send_window {r} v h = (
  r.a_pointer,
  ground arith,
  ground arith,
  ground arith,
  ground (
    arith,
    take_front r.buffer r.a_pointer r.a_size r.a_size (omega arith) (omega arith)
        (b_contents r.buffer r.b_pointer r.b_size),
  ),
)

-- If `GetBuffer` is evaluated before a `GetFreeSpaceSize` that opens region B, the space offered
-- from there on runs over the end of the array.
pub stale_window :
    {r : CircularBuffer}
    → IsValid r
    → r.b_pointer ≡ none
    → a_free_space r < space_before_a r
    → r.capacity < get_buffer r + room r
unfolding get_free_space_size get_buffer a_free_space space_before_a
stale_window v e h = ground arith
