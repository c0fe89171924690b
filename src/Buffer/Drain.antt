-- ===== src/Buffer/Drain.antt =====
-- `Peek`, `Read` and `Remove`: the three ways to take bytes from the front.
use game_lift.Prelude.{
  ◌≢◌, ℕ, ◌+◌, ◌-◌, ◌≤◌, ◌<◌, min, ◌≡◌, refl, inl, inr, some, List, ◌++◌, arith, length,
  length-slice, slice, take, drop, take-slice, drop-slice, take-append_left, take-append_right,
  drop-append_left, drop-append_right, ap, sym, ◌∙◌, Option-cases,
}
use native.Mathlib.Decide.{dec_le}
use game_lift.Buffer.{
  CircularBuffer, refused, taken, aborted, from_a, peek, read, read_b, remove, remove_b, advance_a,
  advance_b, compact, peek_b, get_stored_size,
}
use game_lift.Buffer.Inv.{IsValid, contents, b_contents, get_stored_size-eq}
use game_lift.Buffer.Compact.{Loose, compact-IsValid, contents-compact, capacity-compact}

-- The bytes of two regions, cut within the first.
module _ (buffer : List ℕ) (a s n : ℕ) (within : a + s ≤ length buffer) (few : n ≤ s)
    (b : List ℕ) where
  pub take_front : take n (slice buffer a s ++ b) ≡ slice buffer a n
  take_front =
      take-append_left n (slice buffer a s) b (omega (arith, length-slice buffer a s within))
      ∙ take-slice buffer a n s few

  drop_front : drop n (slice buffer a s ++ b) ≡ slice buffer (a + n) (s - n) ++ b
  drop_front =
      drop-append_left n (slice buffer a s) b (omega (arith, length-slice buffer a s within))
      ∙ ap (λ xs. xs ++ b) (drop-slice buffer a n (s - n) s (omega arith))

-- And within the second.
module _ (buffer : List ℕ) (a s p t m k : ℕ) (within : a + s ≤ length buffer) (few : m ≤ t)
    (e : k ≡ s + m) where
  take_back : take k (slice buffer a s ++ slice buffer p t) ≡ slice buffer a s ++ slice buffer p m
  take_back =
      take-append_right k m (slice buffer a s) (slice buffer p t)
        (omega (arith, length-slice buffer a s within))
      ∙ ap (◌++◌ (slice buffer a s)) (take-slice buffer p m t few)

  drop_back : drop k (slice buffer a s ++ slice buffer p t) ≡ slice buffer (p + m) (t - m)
  drop_back =
      drop-append_right k m (slice buffer a s) (slice buffer p t)
        (omega (arith, length-slice buffer a s within))
      ∙ drop-slice buffer p m (t - m) t (omega arith)

from_a-eq-min : (r : CircularBuffer) (cnt : ℕ) → from_a r cnt ≡ min cnt r.a_size
unfolding from_a
from_a-eq-min r cnt = ground arith

-- The buffer after `n` bytes are taken, where region A has so many.
abbrev front : CircularBuffer → ℕ → CircularBuffer
front r n = compact (advance_a r n)

-- The buffer after all of region A and `m` bytes of region B are taken.
abbrev back : CircularBuffer → ℕ → CircularBuffer
back r m = compact (advance_b (advance_a r r.a_size) m)

advance_a-Loose : {r : CircularBuffer} (n : ℕ) → IsValid r → n ≤ r.a_size → Loose (advance_a r n)
unfolding advance_a
advance_a-Loose n v h = ground arith

contents-advance_a :
    {r : CircularBuffer} (n : ℕ)
    → IsValid r
    → n ≤ r.a_size
    → contents (advance_a r n) ≡ drop n (contents r)
unfolding advance_a
contents-advance_a {r} n v h = sym (
    drop_front r.buffer r.a_pointer r.a_size n (omega arith) h
      (b_contents r.buffer r.b_pointer r.b_size))

module _ {r : CircularBuffer} (p m : ℕ) (v : IsValid r) (e : r.b_pointer ≡ some p)
    (few : m ≤ r.b_size) where
  advance_b-Loose : Loose (advance_b (advance_a r r.a_size) m)
  unfolding advance_a advance_b
  advance_b-Loose = ground arith

  contents-advance_b :
      contents (advance_b (advance_a r r.a_size) m) ≡ drop (r.a_size + m) (contents r)
  unfolding advance_a advance_b
  contents-advance_b =
      ground (arith, drop_back r.buffer r.a_pointer r.a_size p r.b_size m (r.a_size + m))

-- Taking more than region A has means that there is a region B.
b_exists :
    {r : CircularBuffer} (n : ℕ)
    → IsValid r
    → r.a_size < n
    → n ≤ r.a_size + r.b_size
    → (p : ℕ) × (r.b_pointer ≡ some p)
b_exists {r} n v h k = elim (Option-cases r.b_pointer) [
  | inl e ↦ absurd (ground arith)
  | inr found ↦ found
]

read-front :
    {r : CircularBuffer} (n : ℕ)
    → IsValid r
    → n ≤ r.a_size
    → read r n ≡ (taken (slice r.buffer r.a_pointer n), front r n)
unfolding read read_b
read-front {r} n v h = ground (arith, from_a-eq-min r n, get_stored_size-eq v)

read-back :
    {r : CircularBuffer} (p m : ℕ)
    → IsValid r
    → r.b_pointer ≡ some p
    → 0 < m
    → m ≤ r.b_size
    → read r (r.a_size + m)
      ≡ (taken (slice r.buffer r.a_pointer r.a_size ++ slice r.buffer p m), back r m)
unfolding read read_b
read-back {r} p m v e h k = ground (arith, from_a-eq-min r (r.a_size + m), get_stored_size-eq v)

-- What an operation that takes `n` bytes does to the state.
pub record Took (r : CircularBuffer) (n : ℕ) (r' : CircularBuffer) : Type 0 where
  pub valid : IsValid r'
  pub rest : contents r' ≡ drop n (contents r)
  pub same_capacity : r'.capacity ≡ r.capacity

front-Took : {r : CircularBuffer} (n : ℕ) → IsValid r → n ≤ r.a_size → Took r n (front r n)
unfolding advance_a
front-Took {r} n v h = record {
  valid = compact-IsValid (advance_a-Loose n v h);
  rest = contents-compact (advance_a-Loose n v h) ∙ contents-advance_a n v h;
  same_capacity = capacity-compact (advance_a r n);
}

back-Took :
    {r : CircularBuffer} (p m : ℕ)
    → IsValid r
    → r.b_pointer ≡ some p
    → m ≤ r.b_size
    → Took r (r.a_size + m) (back r m)
unfolding advance_a advance_b
back-Took {r} p m v e h = record {
  valid = compact-IsValid (advance_b-Loose p m v e h);
  rest = contents-compact (advance_b-Loose p m v e h) ∙ contents-advance_b p m v e h;
  same_capacity = capacity-compact (advance_b (advance_a r r.a_size) m);
}

-- A request for `n` bytes that are there is served by A alone, or by all of A and some of B.
pub data Split (r : CircularBuffer) (n : ℕ) : Type 0 where
  within_a : n ≤ r.a_size → Split r n
  into_b : (p m : ℕ) → r.b_pointer ≡ some p → 0 < m → m ≤ r.b_size → n ≡ r.a_size + m → Split r n

pub Split-at : {r : CircularBuffer} (n : ℕ) → IsValid r → n ≤ get_stored_size r → Split r n
Split-at {r} n v h = elim (dec_le n r.a_size) [
  | yes few ↦ within_a few
  | no many ↦
      let (p, e) = b_exists n v (omega arith) (omega (arith, get_stored_size-eq v)) in
      into_b p (n - r.a_size) e (omega arith) (omega (arith, get_stored_size-eq v)) (omega arith)
]

-- The bytes that such a request gets.
abbrev gather : (r : CircularBuffer) (n : ℕ) → Split r n → List ℕ
gather r n (within_a _) = slice r.buffer r.a_pointer n
gather r n (into_b p m _ _ _ _) = slice r.buffer r.a_pointer r.a_size ++ slice r.buffer p m

gather-eq-take :
    {r : CircularBuffer} (n : ℕ) (d : Split r n) → IsValid r → gather r n d ≡ take n (contents r)
gather-eq-take {r} n (within_a h) v = sym (
    take_front r.buffer r.a_pointer r.a_size n (omega arith) h
      (b_contents r.buffer r.b_pointer r.b_size))
gather-eq-take {r} n (into_b p m e pos h k) v =
    ground (arith, take_back r.buffer r.a_pointer r.a_size p r.b_size m n)

-- `Read` of as many bytes as a valid buffer holds, or fewer, returns the oldest ones, in order, and
-- leaves the others in a valid buffer.
pub read_lem :
    {r : CircularBuffer} (n : ℕ)
    → IsValid r
    → n ≤ get_stored_size r
    → ((read r n).0 ≡ taken (take n (contents r))) × Took r n (read r n).1
read_lem {r} n v h = go (Split-at n v h)
  where
    go : Split r n → ((read r n).0 ≡ taken (take n (contents r))) × Took r n (read r n).1
    go (within_a few) =
        rw (read-front n v few) (ap taken (gather-eq-take n (within_a few) v), front-Took n v few)
    go (into_b p m e pos few k) =
        rw (k, read-back p m v e pos few)
          (
            ap taken (gather-eq-take (r.a_size + m) (into_b p m e pos few refl) v),
            back-Took p m v e few,
          )

-- A read of more than is stored is refused and changes nothing.
pub read_refused : (r : CircularBuffer) (n : ℕ) → get_stored_size r < n → read r n ≡ (refused, r)
unfolding read
read_refused r n h = ground arith

-- On a valid buffer, `Peek` answers as `Read` does.
pub peek-eq-read : {r : CircularBuffer} (n : ℕ) → IsValid r → peek r n ≡ (read r n).0
unfolding peek peek_b read read_b advance_a
peek-eq-read {r} n v = ground arith

remove-front : {r : CircularBuffer} (n : ℕ) → IsValid r → n ≤ r.a_size → remove r n ≡ front r n
unfolding remove remove_b
remove-front {r} n v h = ground (arith, from_a-eq-min r n)

remove-back :
    {r : CircularBuffer} (p m : ℕ)
    → IsValid r
    → r.b_pointer ≡ some p
    → 0 < m
    → m ≤ r.b_size
    → remove r (r.a_size + m) ≡ back r m
unfolding remove remove_b
remove-back {r} p m v e h k = ground (arith, from_a-eq-min r (r.a_size + m))

-- `Remove` drops that many of the oldest bytes.
pub remove_lem :
    {r : CircularBuffer} (n : ℕ) → IsValid r → n ≤ get_stored_size r → Took r n (remove r n)
remove_lem {r} n v h = go (Split-at n v h)
  where
    go : Split r n → Took r n (remove r n)
    go (within_a few) = rw (remove-front n v few) (front-Took n v few)
    go (into_b p m e pos few k) = rw (k, remove-back p m v e pos few) (back-Took p m v e few)

-- `Remove` of more than is stored removes as much as is stored.
pub remove_all :
    {r : CircularBuffer} (n : ℕ)
    → IsValid r
    → get_stored_size r ≤ n
    → remove r n ≡ remove r (get_stored_size r)
unfolding remove remove_b advance_a
remove_all {r} n v h =
    ground (arith, from_a-eq-min r n, from_a-eq-min r (get_stored_size r), get_stored_size-eq v)

-- `Read` keeps the buffer valid, and no assertion in it fails.
pub read-IsValid :
    {r : CircularBuffer} (n : ℕ) → IsValid r → IsValid (read r n).1 × ((read r n).0 ≢ aborted)
read-IsValid {r} n v = elim (dec_le n (get_stored_size r)) [
  | yes fits ↦ let (out, t) = read_lem n v fits in (t.valid, rw out (λ e. cc))
  | no over ↦ rw (read_refused r n (omega arith)) (v, λ e. cc)
]
