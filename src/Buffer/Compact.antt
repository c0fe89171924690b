-- ===== src/Buffer/Compact.antt =====
-- The end of `Read` and `Remove`: when A is used up, B is moved to the start and becomes A.
use game_lift.Prelude.{
  ℕ, zero, suc, ◌+◌, ◌^◌, ◌≤◌, ◌<◌, ◌≡◌, refl, Option, none, some, List, [], arith, length,
  length-slice, length-splice, slice, splice, slice-splice_self, append-nil, ap, sym, ◌∙◌,
}
use game_lift.Buffer.{CircularBuffer, moved, compact}
use game_lift.Buffer.Inv.{IsValid, contents, b_contents}

-- What the regions satisfy once bytes have been taken from them.
abbrev pub BLoose : Option ℕ → ℕ → ℕ → ℕ → ℕ → Type 0
BLoose none b_size a_pointer a_size capacity = b_size ≡ 0
BLoose (some p) b_size a_pointer a_size capacity =
    (p + b_size ≤ capacity) × (0 < a_size → (p ≡ 0) × (b_size ≤ a_pointer))

pub record Loose (r : CircularBuffer) : Type 0 where
  pub storage : length r.buffer ≡ r.capacity
  pub small : r.capacity < 2 ^ 63
  pub a_fits : r.a_pointer + r.a_size ≤ r.capacity
  pub b_loose : BLoose r.b_pointer r.b_size r.a_pointer r.a_size r.capacity

length-moved : (buffer : List ℕ) (b : Option ℕ) (n : ℕ) → length (moved buffer b n) ≡ length buffer
unfolding moved
length-moved buffer none n = refl
length-moved buffer (some zero) n = refl
length-moved buffer (some (suc p)) n =
    ground (arith, length-splice buffer 0 (slice buffer (suc p) n))

slice-moved_at :
    (buffer : List ℕ) (p n : ℕ)
    → p + n ≤ length buffer
    → slice (moved buffer (some p) n) 0 n ≡ slice buffer p n
unfolding moved
slice-moved_at buffer zero n h = refl
slice-moved_at buffer (suc p) n h = ground (arith, copied)
  where
    bytes : List ℕ
    bytes = slice buffer (suc p) n

    whole : length bytes ≡ n
    whole = length-slice buffer (suc p) n h

    copied : slice (splice buffer 0 bytes) 0 n ≡ bytes
    copied =
        ap (λ k. slice (splice buffer 0 bytes) 0 k) (sym whole)
        ∙ slice-splice_self buffer 0 bytes (omega (arith, whole))

slice-moved :
    (buffer : List ℕ) (b : Option ℕ) (n a m c : ℕ)
    → BLoose b n a m c
    → c ≤ length buffer
    → 0 < n
    → slice (moved buffer b n) 0 n ≡ b_contents buffer b n
slice-moved buffer none n a m c v h k = absurd (omega arith)
slice-moved buffer (some p) n a m c v h k = slice-moved_at buffer p n (omega arith)

b_contents-zero : (buffer : List ℕ) (b : Option ℕ) → b_contents buffer b 0 ≡ []
b_contents-zero buffer none = refl
b_contents-zero buffer (some p) = refl

pub compact-IsValid : {r : CircularBuffer} → Loose r → IsValid (compact r)
unfolding compact
compact-IsValid {r} v = ground (arith, length-moved r.buffer r.b_pointer r.b_size)

pub contents-compact : {r : CircularBuffer} → Loose r → contents (compact r) ≡ contents r
unfolding compact
contents-compact {r} v = ground (
  arith,
  slice-moved r.buffer r.b_pointer r.b_size r.a_pointer r.a_size r.capacity v.b_loose,
  b_contents-zero r.buffer r.b_pointer,
  append-nil (slice (moved r.buffer r.b_pointer r.b_size) 0 r.b_size),
)

pub capacity-compact : (r : CircularBuffer) → (compact r).capacity ≡ r.capacity
unfolding compact
capacity-compact r = ground arith
