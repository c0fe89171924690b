-- ===== src/Buffer/Fill.antt =====
-- `GetFreeSpaceSize`, `GetBuffer`, `Commit` and `Write`: the two ways to add bytes at the end.
use game_lift.Prelude.{
  ℕ, ◌+◌, ◌≤◌, ◌<◌, ◌≡◌, refl, ◌⊎◌, inl, inr, true, false, Option, none, some, List, [], ◌++◌,
  arith, length, length-splice, slice, splice, append-nil, append_assoc, slice-add,
  slice-splice_self, slice-splice_before, slice-splice_after, ltb, if◌then◌else◌, ap, ap₂, sym, ◌∙◌,
  Option-cases, Bool-cases, ltb→lt, lt→ltb, le→ltb,
}
use game_lift.Buffer.{
  CircularBuffer, get_free_space_size, get_buffer, commit, get_stored_size, write, write_a, write_b,
}
use game_lift.Buffer.Inv.{IsValid, contents, b_contents}

-- Writing behind the bytes of one region, within the array.
module _ (buffer : List ℕ) (p n k : ℕ) (ys : List ℕ) (room : p + n + length ys ≤ length buffer)
    (e : n + length ys ≡ k) where
  slice-grown : slice (splice buffer (p + n) ys) p k ≡ slice buffer p n ++ ys
  slice-grown =
      slice-add (splice buffer (p + n) ys) p n (length ys) k e
      ∙ ap₂ ◌++◌ (slice-splice_before buffer (p + n) ys p n (omega arith))
          (slice-splice_self buffer (p + n) ys room)

-- Bytes put where `GetBuffer` points, and committed.
unfoldable pub store : CircularBuffer → List ℕ → CircularBuffer
unfolding get_buffer commit
store r ys = commit (record r { buffer = splice r.buffer (get_buffer r) ys }) (length ys)

-- The space that the next write has, once region B is open where it should be.
abbrev pub room : CircularBuffer → ℕ
room r = (get_free_space_size r).0

abbrev pub opened : CircularBuffer → CircularBuffer
opened r = (get_free_space_size r).1

-- Asking for the space keeps the bytes and the invariant.
pub opened-IsValid :
    {r : CircularBuffer}
    → IsValid r
    → IsValid (opened r)
      × (contents (opened r) ≡ contents r)
      × (get_stored_size (opened r) ≡ get_stored_size r)
unfolding get_free_space_size get_stored_size
opened-IsValid {r} v = ground (arith, append-nil (slice r.buffer r.a_pointer r.a_size))

pub capacity-opened : (r : CircularBuffer) → (opened r).capacity ≡ r.capacity
unfolding get_free_space_size
capacity-opened r = ground arith

-- Asking twice gives the same answer.
pub get_free_space_size_idem :
    {r : CircularBuffer} → IsValid r → get_free_space_size (opened r) ≡ get_free_space_size r
unfolding get_free_space_size
get_free_space_size_idem {r} v = ground arith

-- In a valid buffer, the space offered lies in the array, behind `GetBuffer`, and the stored bytes
-- leave room for it.
pub room_in_bounds :
    {r : CircularBuffer}
    → IsValid r
    → (get_buffer (opened r) + room r ≤ r.capacity) × (get_stored_size r + room r ≤ r.capacity)
unfolding get_free_space_size get_buffer get_stored_size
room_in_bounds {r} v = ground arith

-- A valid buffer with nothing in it offers all of its array.
pub room-drained : {r : CircularBuffer} → IsValid r → get_stored_size r ≡ 0 → room r ≡ r.capacity
unfolding get_free_space_size get_stored_size
room-drained v h = ground arith

-- Where the region that is written to must end.
abbrev limit : CircularBuffer → ℕ
limit r = elim r.b_pointer [ some p ↦ r.a_pointer | none ↦ r.capacity ]

room-limit : {r : CircularBuffer} → IsValid r → get_buffer (opened r) + room r ≡ limit (opened r)
unfolding get_free_space_size get_buffer
room-limit {r} v = ground arith

store-IsValid :
    {r : CircularBuffer} (ys : List ℕ)
    → IsValid r
    → get_buffer r + length ys ≤ limit r
    → IsValid (store r ys)
unfolding store
store-IsValid {r} ys v h = ground (arith, length-splice r.buffer (get_buffer r) ys)

b_contents-splice :
    (buffer : List ℕ) (b : Option ℕ) (n q : ℕ) (ys : List ℕ)
    → b ≡ none
    → b_contents (splice buffer q ys) b n ≡ []
b_contents-splice buffer none n q ys e = refl
b_contents-splice buffer (some p) n q ys e = cc

contents-store_a :
    {r : CircularBuffer} (ys : List ℕ)
    → IsValid r
    → r.b_pointer ≡ none
    → get_buffer r + length ys ≤ r.capacity
    → contents (store r ys) ≡ contents r ++ ys
unfolding store
contents-store_a {r} ys v e h = ground (
  arith,
  slice-grown r.buffer r.a_pointer r.a_size (r.a_size + length ys) ys,
  append-nil (slice r.buffer r.a_pointer r.a_size),
  append-nil (slice r.buffer r.a_pointer r.a_size ++ ys),
)

contents-store_b :
    {r : CircularBuffer} (p : ℕ) (ys : List ℕ)
    → IsValid r
    → r.b_pointer ≡ some p
    → get_buffer r + length ys ≤ r.a_pointer
    → contents (store r ys) ≡ contents r ++ ys
unfolding store
contents-store_b {r} p ys v e h = ground (
  arith,
  slice-grown r.buffer p r.b_size (r.b_size + length ys) ys,
  slice-splice_after r.buffer (p + r.b_size) ys r.a_pointer r.a_size,
  append_assoc (slice r.buffer r.a_pointer r.a_size) (slice r.buffer p r.b_size) ys,
)

contents-store :
    {r : CircularBuffer} (ys : List ℕ)
    → IsValid r
    → get_buffer r + length ys ≤ limit r
    → contents (store r ys) ≡ contents r ++ ys
contents-store {r} ys v h = elim (Option-cases r.b_pointer) [
  | inl e ↦ contents-store_a ys v e (ground arith)
  | inr (p, e) ↦ contents-store_b p ys v e (ground arith)
]

-- What an operation that adds `ys` does to the state.
pub record Put (r : CircularBuffer) (ys : List ℕ) (r' : CircularBuffer) : Type 0 where
  pub valid : IsValid r'
  pub whole : contents r' ≡ contents r ++ ys
  pub same_capacity : r'.capacity ≡ r.capacity

capacity-store : (r : CircularBuffer) (ys : List ℕ) → (store r ys).capacity ≡ r.capacity
unfolding store
capacity-store r ys = ground arith

-- In a valid buffer, bytes that fit the space offered are added at the end, by a copy to `GetBuffer`
-- after `GetFreeSpaceSize`, and `Commit`.
pub store-Put :
    {r : CircularBuffer} (ys : List ℕ)
    → IsValid r
    → length ys ≤ room r
    → Put r ys (store (opened r) ys)
store-Put {r} ys v h =
    let fits : get_buffer (opened r) + length ys ≤ limit (opened r) = omega (arith, room-limit v) in
    let (ready, same, _) = opened-IsValid v in
    record {
      valid = store-IsValid ys ready fits;
      whole = contents-store ys ready fits ∙ ap (λ xs. xs ++ ys) same;
      same_capacity = capacity-store (opened r) ys ∙ capacity-opened r;
    }

-- `Write` is a request for space, a copy to `GetBuffer` and a `Commit`, if the space suffices.
pub write-eq-store :
    (r : CircularBuffer) (ys : List ℕ)
    → write r ys
      ≡ (if ltb (room r) (length ys) then (false, opened r) else (true, store (opened r) ys))
unfolding write write_a write_b get_free_space_size store
write-eq-store r ys = ground arith

-- `Write` to a valid buffer adds all the bytes if they fit the space offered; else it adds none and
-- keeps what is stored. The buffer stays valid.
pub write_lem :
    {r : CircularBuffer} (ys : List ℕ)
    → IsValid r
    → ((length ys ≤ room r) × ((write r ys).0 ≡ true) × Put r ys (write r ys).1)
      ⊎ ((room r < length ys) × ((write r ys).0 ≡ false) × Put r [] (write r ys).1)
write_lem {r} ys v = elim (Bool-cases (ltb (room r) (length ys))) [
  | inl over ↦
      rw (write-eq-store r ys, over)
        (inr (
          ltb→lt _ _ over,
          refl,
          record {
            valid = (opened-IsValid v).0;
            whole = (opened-IsValid v).1 ∙ sym (append-nil (contents r));
            same_capacity = capacity-opened r;
          },
        ))
  | inr fits ↦
      rw (write-eq-store r ys, fits) (inl (ground arith, refl, store-Put ys v (ground arith)))
]

pub write_fits :
    {r : CircularBuffer} (ys : List ℕ)
    → IsValid r
    → length ys ≤ room r
    → ((write r ys).0 ≡ true) × Put r ys (write r ys).1
write_fits {r} ys v h =
    rw (write-eq-store r ys, le→ltb (room r) (length ys) h) (refl, store-Put ys v h)

pub write_over :
    {r : CircularBuffer} (ys : List ℕ) → IsValid r → room r < length ys → (write r ys).0 ≡ false
write_over {r} ys v h = rw (write-eq-store r ys, lt→ltb (room r) (length ys) h)

-- Whether it succeeds or not, `Write` keeps the buffer valid.
pub write-IsValid : {r : CircularBuffer} (ys : List ℕ) → IsValid r → IsValid (write r ys).1
write-IsValid {r} ys v = elim (write_lem ys v) [
  | inl (fits, done, p) ↦ p.valid
  | inr (over, undone, p) ↦ p.valid
]

-- `Write` leaves where region A begins, and does not shorten it.
pub write_keeps_a :
    (r : CircularBuffer) (ys : List ℕ)
    → IsValid r
    → ((write r ys).1.a_pointer ≡ r.a_pointer) × (r.a_size ≤ (write r ys).1.a_size)
unfolding write write_a write_b
write_keeps_a r ys v = (ground arith, ground arith)
