-- ===== src/Prelude/Arrays.antt =====
-- Arrays as lists: reading with a default, writing, and sums after a write.
use Prim.Native.Nat.{ℕ, zero, suc, ◌+◌, ◌<◌}
use mathlib.Core.Path.{◌≡◌, refl}
use mathlib.Core.List.{List, [], ◌∷◌}
use native.Mathlib.Omega.{arith}
use game_lift.Prelude.Lists.{length}
use game_lift.Prelude.Tests.{◌==◌, if◌then◌else◌}
use game_lift.Prelude.Sums.{total}

module _ {ℓ} {A : Type ℓ} where
  unfoldable pub get_or : List A → ℕ → A → A
  get_or [] i d = d
  get_or (x ∷ xs) zero d = x
  get_or (x ∷ xs) (suc i) d = get_or xs i d

  -- A write out of bounds changes nothing.
  unfoldable pub set : List A → ℕ → A → List A
  set [] i v = []
  set (x ∷ xs) zero v = v ∷ xs
  set (x ∷ xs) (suc i) v = x ∷ set xs i v

  pub length-set : (xs : List A) (i : ℕ) (v : A) → length (set xs i v) ≡ length xs
  unfolding set
  length-set [] i v = refl
  length-set (x ∷ xs) zero v = refl
  length-set (x ∷ xs) (suc i) v = omega (arith, length-set xs i v)

  pub get_or-set :
      (xs : List A) (i j : ℕ) (v d : A)
      → i < length xs
      → get_or (set xs i v) j d ≡ (if i == j then v else get_or xs j d)
  unfolding set get_or
  get_or-set [] i j v d h = absurd (omega arith)
  get_or-set (x ∷ xs) zero zero v d h = refl
  get_or-set (x ∷ xs) zero (suc j) v d h = ground arith
  get_or-set (x ∷ xs) (suc i) zero v d h = ground arith
  get_or-set (x ∷ xs) (suc i) (suc j) v d h = ground (arith, get_or-set xs i j v d)

  pub total-set :
      (f : A → ℕ) (xs : List A) (i : ℕ) (v d : A)
      → i < length xs
      → total f (set xs i v) + f (get_or xs i d) ≡ total f xs + f v
  unfolding set get_or total
  total-set f [] i v d h = absurd (omega arith)
  total-set f (x ∷ xs) zero v d h = omega arith
  total-set f (x ∷ xs) (suc i) v d h = omega (arith, total-set f xs i v d (omega arith))
