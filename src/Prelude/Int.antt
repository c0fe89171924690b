-- ===== src/Prelude/Int.antt =====
-- Integers over the native numbers, as far as the coordinates of a player need them. `negsuc n`
-- is -(n + 1).
use Prim.Native.Nat.{ℕ, suc, ◌+◌, ◌-◌}
use mathlib.Core.Path.{◌≡◌, refl}
use mathlib.Core.Logic.{◌⊎◌, inl, inr}
use native.Mathlib.Omega.{arith}
use game_lift.Prelude.Tests.{leb, if◌then◌else◌}

pub data ℤ : Type 0 where
  pos : ℕ → ℤ
  negsuc : ℕ → ℤ

-- An integer is the first less the second.
abbrev pub above : ℤ → ℕ
above (pos n) = n
above (negsuc n) = 0

abbrev pub below : ℤ → ℕ
below (pos n) = 0
below (negsuc n) = suc n

unfoldable pub difference : ℕ → ℕ → ℤ
difference m n = if leb n m then pos (m - n) else negsuc (n - m - 1)

infixl 65 ◌+ℤ◌ ◌-ℤ◌
unfoldable pub ◌+ℤ◌ : ℤ → ℤ → ℤ
unfolding difference
x +ℤ y = difference (above x + above y) (below x + below y)

unfoldable pub ◌-ℤ◌ : ℤ → ℤ → ℤ
unfolding difference
x -ℤ y = difference (above x + below y) (below x + above y)

pub +ℤ_lem : (x : ℤ) (n : ℕ) → above (x +ℤ pos n) + below x ≡ below (x +ℤ pos n) + above x + n
unfolding ◌+ℤ◌
+ℤ_lem x n = ground arith

pub -ℤ_lem : (x : ℤ) (n : ℕ) → above (x -ℤ pos n) + below x + n ≡ below (x -ℤ pos n) + above x
unfolding ◌-ℤ◌
-ℤ_lem x n = ground arith

-- One of the two is 0.
pub least : (x : ℤ) → (◌≡◌ {A = ℕ} (above x) 0) ⊎ (◌≡◌ {A = ℕ} (below x) 0)
least (pos n) = inr refl
least (negsuc n) = inl refl
