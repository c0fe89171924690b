-- ===== src/Pool.antt =====
-- GameLiftGameServer/GameLiftGameServer/ObjectPool.h: memory that is handed out again. Any number of
-- threads call `operator new` and `operator delete`, and their atomic operations interleave.
pub mod Copies
pub mod Exclusive
mod Tests
use game_lift.Prelude.{
  ℕ, ◌+◌, ◌%◌, ◌^◌, ◌≡◌, Option, none, some, List, [], ◌∷◌, ◌++◌, ◌==◌, if◌then◌else◌, replicate,
  map, zero, suc, length,
}

-- `POOL_MAX_SIZE`; `& POOL_SIZE_MASK` is the rest of a division by it.
abbrev pub pool_max_size : ℕ
pool_max_size = 1024

abbrev pub get_or_none : List (Option ℕ) → ℕ → Option ℕ
get_or_none [] i = none
get_or_none (v ∷ vs) zero = v
get_or_none (v ∷ vs) (suc i) = get_or_none vs i

abbrev pub set : List (Option ℕ) → ℕ → Option ℕ → List (Option ℕ)
set [] i v = []
set (w ∷ ws) zero v = v ∷ ws
set (w ∷ ws) (suc i) v = w ∷ set ws i v

-- `InterlockedIncrement64` of a position; the position before it is what the caller uses.
abbrev pub increment : ℕ → ℕ
increment n = (n + 1) % 2 ^ 64

-- Where a thread stands: outside, or between the two atomic operations of `operator new`, with its
-- position, or of `operator delete`, with its position and the object.
pub data Pc : Type 0 where
  idle : Pc
  popping : ℕ → Pc
  pushing : ℕ → ℕ → Pc

-- `mPool`, `mHeadPos` and `mTailPos`, and who has the memory: an address is a number, and `held` are
-- the objects that the callers of `operator new` have. The last two are the calls of the system.
pub record ObjectPool : Type 0 where
  pub pool : List (Option ℕ)
  pub head_pos : ℕ
  pub tail_pos : ℕ
  pub held : List ℕ
  pub threads : List Pc
  pub mallocs : List ℕ
  pub frees : List ℕ

-- The static variables, and so many threads.
unfoldable pub new_pool : ℕ → ObjectPool
new_pool n = record {
  pool = replicate pool_max_size none;
  head_pos = 0;
  tail_pos = 0;
  held = [];
  threads = replicate n idle;
  mallocs = [];
  frees = [];
}

-- `PrepareAllocation`, given what `_aligned_malloc` returns in its loop.
unfoldable pub prepare_allocation : List ℕ → ObjectPool → ObjectPool
prepare_allocation addresses s = record s {
  pool = map some addresses;
  tail_pos = (s.tail_pos + pool_max_size) % 2 ^ 64;
  mallocs = addresses ++ s.mallocs;
}

-- The slot that a position means.
abbrev pub slot : ℕ → ℕ
slot pos = pos % pool_max_size

-- `operator new`: its first atomic operation, and the rest of it; `fresh` is what `_aligned_malloc`
-- returns if it is called.
unfoldable pub begin_new : ObjectPool → ObjectPool
begin_new s = record s { head_pos = increment s.head_pos }

unfoldable pub popped : ℕ → ℕ → Option ℕ → ObjectPool → ObjectPool
popped fresh pos (some v) s = record s { pool = set s.pool (slot pos) none; held = v ∷ s.held }
popped fresh pos none s = record s {
  pool = set s.pool (slot pos) none;
  held = fresh ∷ s.held;
  mallocs = fresh ∷ s.mallocs;
}

unfoldable pub finish_new : ℕ → ℕ → ObjectPool → ObjectPool
unfolding popped
finish_new fresh pos s = popped fresh pos (get_or_none s.pool (slot pos)) s

-- `operator delete` of one of the objects that are held.
unfoldable pub begin_delete : List ℕ → ObjectPool → ObjectPool
begin_delete left s = record s { tail_pos = increment s.tail_pos; held = left }

unfoldable pub put_back : ℕ → ℕ → Option ℕ → ObjectPool → ObjectPool
put_back pos obj (some prev) s = record s {
  pool = set s.pool (slot pos) (some obj);
  frees = prev ∷ s.frees;
}
put_back pos obj none s = record s { pool = set s.pool (slot pos) (some obj) }

unfoldable pub finish_delete : ℕ → ℕ → ObjectPool → ObjectPool
unfolding put_back
finish_delete pos obj s = put_back pos obj (get_or_none s.pool (slot pos)) s
