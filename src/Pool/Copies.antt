-- ===== src/Pool/Copies.antt =====
-- Where an address may be: with a caller, in a slot, or with a thread that is giving it back.
use game_lift.Prelude.{
  ℕ, zero, suc, ◌+◌, ◌<◌, ◌≡◌, refl, Option, none, some, List, [], ◌∷◌, ◌==◌, if◌then◌else◌, arith,
  length, map, total,
}
use game_lift.Pool.{Pc, pushing, ObjectPool, get_or_none, set}

abbrev pub is : ℕ → ℕ → ℕ
is a b = if a == b then 1 else 0

abbrev pub in_slot : ℕ → Option ℕ → ℕ
in_slot a none = 0
in_slot a (some b) = is a b

abbrev pub in_hand : ℕ → Pc → ℕ
in_hand a (pushing pos b) = is a b
in_hand a p = 0

-- In how many of these places an address is.
abbrev pub copies : ℕ → ObjectPool → ℕ
copies a s = total (is a) s.held + (total (in_slot a) s.pool + total (in_hand a) s.threads)

pub length-set : (vs : List (Option ℕ)) (i : ℕ) (v : Option ℕ) → length (set vs i v) ≡ length vs
length-set [] i v = refl
length-set (w ∷ ws) zero v = refl
length-set (w ∷ ws) (suc i) v = omega (arith, length-set ws i v)

-- An exchange puts one value in and takes one out.
pub total-set :
    (f : Option ℕ → ℕ) (vs : List (Option ℕ)) (i : ℕ) (v : Option ℕ)
    → i < length vs
    → total f (set vs i v) + f (get_or_none vs i) ≡ total f vs + f v
unfolding total
total-set f [] i v h = absurd (omega arith)
total-set f (w ∷ ws) zero v h = omega arith
total-set f (w ∷ ws) (suc i) v h = omega (arith, total-set f ws i v)

pub total-map-some :
    (a : ℕ) (addresses : List ℕ) → total (in_slot a) (map some addresses) ≡ total (is a) addresses
unfolding total
total-map-some a [] = refl
total-map-some a (b ∷ bs) = omega (arith, total-map-some a bs)

pub length-map-some : (addresses : List ℕ) → length (map some addresses) ≡ length addresses
length-map-some [] = refl
length-map-some (b ∷ bs) = omega (arith, length-map-some bs)
