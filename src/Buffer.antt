-- ===== src/Buffer.antt =====
-- GameLiftLinuxServer/CircularBuffer.h and CircularBuffer.cpp: a byte queue in one array, kept in
-- two regions. A is read first and written at its end; when there is more room before A than
-- behind it, a region B is opened at the start of the array, and B becomes A when A is used up.
-- (The other programs of the repository hold copies of the same two files.)
--
-- A pointer is its offset from `mBuffer`, and `none` is the null pointer. A `size_t` is a number
-- below 2 ^ 64 and its sums and differences wrap. `bytes` of a write is the length of the list.
pub mod Inv
pub mod Compact
pub mod Queue
pub mod Drain
pub mod Fill
pub mod Half
pub mod Window
pub mod Refine
mod Tests
use game_lift.Prelude.{
  ℕ, ◌+◌, ◌-◌, ◌%◌, ◌^◌, Bool, true, false, ◌&&◌, Option, none, some, List, [], ◌++◌, ltb, ◌==◌,
  if◌then◌else◌, length, slice, splice,
}
use mathlib.Core.Option

pub record CircularBuffer : Type 0 where
  pub buffer : List ℕ
  pub capacity : ℕ
  pub a_pointer : ℕ
  pub a_size : ℕ
  pub b_pointer : Option ℕ
  pub b_size : ℕ

abbrev pub add_size : ℕ → ℕ → ℕ
add_size a b = (a + b) % 2 ^ 64

abbrev pub sub_size : ℕ → ℕ → ℕ
sub_size a b = (a + 2 ^ 64 - b) % 2 ^ 64

-- The constructor; `storage` is what `new char[capacity]` returns.
unfoldable pub init : List ℕ → ℕ → CircularBuffer
init storage capacity = record {
  buffer = storage;
  capacity = capacity;
  a_pointer = 0;
  a_size = 0;
  b_pointer = none;
  b_size = 0;
}

-- Three private accessors. `mBufferEnd` is at offset `capacity`.
pub a_free_space : CircularBuffer → ℕ
a_free_space r = sub_size (r.capacity - r.a_pointer) r.a_size

pub space_before_a : CircularBuffer → ℕ
space_before_a r = r.a_pointer

pub b_free_space : CircularBuffer → ℕ
b_free_space r = elim r.b_pointer [ none ↦ 0 | some p ↦ sub_size (r.a_pointer - p) r.b_size ]

pub allocate_b : CircularBuffer → CircularBuffer
allocate_b r = record r { b_pointer = some 0 }

-- It may open region B, so it returns the buffer too.
unfoldable pub get_free_space_size : CircularBuffer → ℕ × CircularBuffer
unfolding a_free_space space_before_a b_free_space allocate_b
get_free_space_size r = elim r.b_pointer [
  | some p ↦ (b_free_space r, r)
  | none ↦
      if ltb (a_free_space r) (space_before_a r)
      then (b_free_space (allocate_b r), allocate_b r)
      else (a_free_space r, r)
]

unfoldable pub get_stored_size : CircularBuffer → ℕ
get_stored_size r = add_size r.a_size r.b_size

unfoldable pub get_contiguous_bytes : CircularBuffer → ℕ
get_contiguous_bytes r = if ltb 0 r.a_size then r.a_size else r.b_size

unfoldable pub get_buffer : CircularBuffer → ℕ
get_buffer r = elim r.b_pointer [ some p ↦ p + r.b_size | none ↦ r.a_pointer + r.a_size ]

unfoldable pub commit : CircularBuffer → ℕ → CircularBuffer
commit r len = elim r.b_pointer [
  | some p ↦ record r { b_size = add_size r.b_size len }
  | none ↦ record r { a_size = add_size r.a_size len }
]

unfoldable pub get_buffer_start : CircularBuffer → Option ℕ
get_buffer_start r = if ltb 0 r.a_size then some r.a_pointer else r.b_pointer

-- What a read gives: `false`; `true` and the bytes put into `destbuf`; or no return, since an
-- assertion fails or a null pointer is read through.
pub data Outcome : Type 0 where
  refused : Outcome
  taken : List ℕ → Outcome
  aborted : Outcome

-- `aRead` and `aRemove`: how much of `cnt` region A serves. It exceeds neither `cnt` nor `mARegionSize`.
pub from_a : CircularBuffer → ℕ → ℕ
from_a r cnt = if ltb 0 r.a_size then (if ltb r.a_size cnt then r.a_size else cnt) else 0

peek_b : CircularBuffer → List ℕ → ℕ → Outcome
peek_b r out cnt =
    if ltb 0 cnt && ltb 0 r.b_size
    then (if ltb r.b_size cnt
        then aborted
        else elim r.b_pointer [ none ↦ aborted | some p ↦ taken (out ++ slice r.buffer p cnt) ])
    else if cnt == 0
    then taken out
    else aborted

unfoldable pub peek : CircularBuffer → ℕ → Outcome
unfolding get_stored_size from_a peek_b
peek r bytes =
    if ltb (get_stored_size r) bytes
    then refused
    else let n = from_a r bytes in peek_b r (slice r.buffer r.a_pointer n) (bytes - n)

-- `memmove(mBuffer, mBRegionPointer, mBRegionSize)`, unless B lies there already.
pub moved : List ℕ → Option ℕ → ℕ → List ℕ
moved buffer none n = buffer
moved buffer (some p) n = if p == 0 then buffer else splice buffer 0 (slice buffer p n)

-- The end of `Read`, and of `Remove`: if A is used up, B becomes A.
pub compact : CircularBuffer → CircularBuffer
unfolding moved
compact r =
    if r.a_size == 0
    then (if ltb 0 r.b_size
        then record r {
          buffer = moved r.buffer r.b_pointer r.b_size;
          a_pointer = 0;
          a_size = r.b_size;
          b_pointer = none;
          b_size = 0;
        }
        else record r { b_pointer = none; b_size = 0; a_pointer = 0; a_size = 0 })
    else r

-- `mARegionSize -= n; mARegionPointer += n`, for an `n` of `from_a`.
pub advance_a : CircularBuffer → ℕ → CircularBuffer
advance_a r n = record r { a_size = r.a_size - n; a_pointer = r.a_pointer + n }

-- `mBRegionSize -= n; mBRegionPointer += n`, for an `n` up to `mBRegionSize`.
pub advance_b : CircularBuffer → ℕ → CircularBuffer
advance_b r n = record r { b_size = r.b_size - n; b_pointer = Option.map (λ p. p + n) r.b_pointer }

pub read_b : CircularBuffer → List ℕ → ℕ → Outcome × CircularBuffer
unfolding compact advance_b
read_b r out cnt =
    if ltb 0 cnt && ltb 0 r.b_size
    then (if ltb r.b_size cnt then (aborted, r) else elim r.b_pointer [
      | none ↦ (aborted, r)
      | some p ↦ (taken (out ++ slice r.buffer p cnt), compact (advance_b r cnt))
    ])
    else if cnt == 0
    then (taken out, compact r)
    else (aborted, r)

unfoldable pub read : CircularBuffer → ℕ → Outcome × CircularBuffer
unfolding get_stored_size from_a advance_a read_b
read r bytes =
    if ltb (get_stored_size r) bytes
    then (refused, r)
    else let n = from_a r bytes in read_b (advance_a r n) (slice r.buffer r.a_pointer n) (bytes - n)

pub remove_b : CircularBuffer → ℕ → CircularBuffer
unfolding compact advance_b
remove_b r cnt =
    if ltb 0 cnt && ltb 0 r.b_size
    then compact (advance_b r (if ltb r.b_size cnt then r.b_size else cnt))
    else compact r

unfoldable pub remove : CircularBuffer → ℕ → CircularBuffer
unfolding from_a advance_a remove_b
remove r len = let n = from_a r len in remove_b (advance_a r n) (len - n)

-- The two `memcpy` calls of `Write`, with the test before them.
pub write_b : CircularBuffer → ℕ → List ℕ → Bool × CircularBuffer
unfolding b_free_space
write_b r p bytes = if ltb (b_free_space r) (length bytes) then (false, r) else (
  true,
  record r {
    buffer = splice r.buffer (p + r.b_size) bytes;
    b_size = add_size r.b_size (length bytes);
  },
)

pub write_a : CircularBuffer → List ℕ → Bool × CircularBuffer
unfolding a_free_space
write_a r bytes = if ltb (a_free_space r) (length bytes) then (false, r) else (
  true,
  record r {
    buffer = splice r.buffer (r.a_pointer + r.a_size) bytes;
    a_size = add_size r.a_size (length bytes);
  },
)

unfoldable pub write : CircularBuffer → List ℕ → Bool × CircularBuffer
unfolding a_free_space space_before_a allocate_b write_a write_b
write r bytes = elim r.b_pointer [
  | some p ↦ write_b r p bytes
  | none ↦
      if ltb (a_free_space r) (space_before_a r)
      then write_b (allocate_b r) 0 bytes
      else write_a r bytes
]
