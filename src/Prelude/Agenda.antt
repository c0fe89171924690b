-- ===== src/Prelude/Agenda.antt =====
-- Queues in the order of a time: `std::priority_queue` with the least time on top. Which of two items
-- with one time comes first is open in C++; here it is the one that was there.
use Prim.Native.Nat.{ℕ, ◌+◌, ◌≤◌, ◌<◌}
use mathlib.Core.Path.{◌≡◌, refl}
use mathlib.Core.Logic.{inl, inr}
use mathlib.Core.List.{List, [], ◌∷◌}
use native.Mathlib.Omega.{arith}
use game_lift.Prelude.Tests.{leb, if◌then◌else◌, Bool-cases}
use game_lift.Prelude.Sums.{total}

module _ {ℓ} {A : Type ℓ} (time : A → ℕ) where
  unfoldable pub push_by : A → List A → List A
  push_by x [] = x ∷ []
  push_by x (y ∷ ys) =
      let rest = push_by x ys in if leb (time y) (time x) then y ∷ rest else x ∷ y ∷ ys

  abbrev pub AllFrom : ℕ → List A → Type 0
  AllFrom t [] = Unit {0}
  AllFrom t (x ∷ xs) = (t ≤ time x) × AllFrom t xs

  abbrev pub IsSorted : List A → Type 0
  IsSorted [] = Unit {0}
  IsSorted (x ∷ xs) = AllFrom (time x) xs × IsSorted xs

  -- The items whose time has come, in the order of the queue.
  abbrev pub due : ℕ → List A → List A
  due now [] = []
  due now (x ∷ xs) = if leb (time x) now then x ∷ due now xs else due now xs

  pub AllFrom-trans : (a b : ℕ) (xs : List A) → a ≤ b → AllFrom b xs → AllFrom a xs
  AllFrom-trans a b [] h k = tt
  AllFrom-trans a b (x ∷ xs) h k = (omega (arith, k.0), AllFrom-trans a b xs h k.1)

  pub AllFrom-push_by :
      (t : ℕ) (x : A) (ys : List A) → t ≤ time x → AllFrom t ys → AllFrom t (push_by x ys)
  unfolding push_by
  AllFrom-push_by t x [] h k = (h, tt)
  AllFrom-push_by t x (y ∷ ys) h k = elim (Bool-cases (leb (time y) (time x))) [
    | inl le ↦ rw le (k.0, AllFrom-push_by t x ys h k.1)
    | inr gt ↦ rw gt (h, k)
  ]

  pub push_by-IsSorted : (x : A) (ys : List A) → IsSorted ys → IsSorted (push_by x ys)
  unfolding push_by
  push_by-IsSorted x [] s = (tt, tt)
  push_by-IsSorted x (y ∷ ys) s = elim (Bool-cases (leb (time y) (time x))) [
    | inl le ↦ rw le (AllFrom-push_by (time y) x ys (ground arith) s.0, push_by-IsSorted x ys s.1)
    | inr gt ↦
        rw gt ((ground (arith, gt), AllFrom-trans (time x) (time y) ys (ground (arith, gt)) s.0), s)
  ]

  pub due-push_by :
      (now : ℕ) (x : A) (ys : List A) → now < time x → due now (push_by x ys) ≡ due now ys
  unfolding push_by
  due-push_by now x [] h = ground arith
  due-push_by now x (y ∷ ys) h = ground (arith, due-push_by now x ys h)

  pub none_due : (now t : ℕ) (xs : List A) → now < t → AllFrom t xs → due now xs ≡ []
  none_due now t [] h k = refl
  none_due now t (x ∷ xs) h k = ground (arith, k.0, none_due now t xs h k.1)

  pub total-push_by : (f : A → ℕ) (x : A) (ys : List A) → total f (push_by x ys) ≡ total f ys + f x
  unfolding push_by total
  total-push_by f x [] = omega arith
  total-push_by f x (y ∷ ys) = elim (Bool-cases (leb (time y) (time x))) [
    | inl le ↦ rw le (omega (arith, total-push_by f x ys))
    | inr gt ↦ rw gt (omega arith)
  ]
