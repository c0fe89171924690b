-- ===== src/Prelude/Sums.antt =====
-- Sums over the items of a list.
use Prim.Native.Nat.{ℕ, zero, suc, ◌+◌}
use mathlib.Core.Path.{◌≡◌}
use mathlib.Core.List.{List, [], ◌∷◌, ◌++◌}
use native.Mathlib.Omega.{arith}
use game_lift.Prelude.Lists.{replicate}

module _ {ℓ} {A : Type ℓ} where
  unfoldable pub total : (A → ℕ) → List A → ℕ
  total f [] = 0
  total f (p ∷ ps) = f p + total f ps

  pub total-append : (f : A → ℕ) (ps qs : List A) → total f (ps ++ qs) ≡ total f ps + total f qs
  unfolding total
  total-append f [] qs = omega arith
  total-append f (p ∷ ps) qs = omega (arith, total-append f ps qs)

  -- A list around one item.
  pub total-around :
      (f : A → ℕ) (ps : List A) (p : A) (qs : List A)
      → total f (ps ++ (p ∷ qs)) ≡ f p + (total f ps + total f qs)
  unfolding total
  total-around f ps p qs = omega (arith, total-append f ps (p ∷ qs))

  pub total-replicate : (f : A → ℕ) (n : ℕ) (x : A) → f x ≡ 0 → total f (replicate n x) ≡ 0
  unfolding total
  total-replicate f zero x h = omega arith
  total-replicate f (suc n) x h = omega (arith, h, total-replicate f n x h)
