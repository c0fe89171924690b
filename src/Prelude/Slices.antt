-- ===== src/Prelude/Slices.antt =====
-- Ranges of a byte array: what `memcpy` and `memmove` read and write.
use Prim.Native.Nat.{ℕ, zero, suc, ◌+◌, ◌≤◌}
use mathlib.Core.Path.{◌≡◌, refl, ap, ◌∙◌}
use mathlib.Core.List.{List, [], ◌∷◌, ◌++◌}
use native.Mathlib.Omega.{arith}
use game_lift.Prelude.Lists.{length, take, drop, length-take, length-drop, take-take, drop-drop}

module _ {ℓ} {A : Type ℓ} where
  -- The `n` bytes from offset `p` on.
  abbrev pub slice : List A → ℕ → ℕ → List A
  slice xs p n = take n (drop p xs)

  -- The array after `ys` is written over its beginning; what does not fit is not written.
  abbrev pub overwrite : List A → List A → List A
  overwrite [] ys = []
  overwrite (x ∷ xs) [] = x ∷ xs
  overwrite (x ∷ xs) (y ∷ ys) = y ∷ overwrite xs ys

  -- The array after `ys` is written from offset `p` on.
  abbrev pub splice : List A → ℕ → List A → List A
  splice xs zero ys = overwrite xs ys
  splice [] (suc p) ys = []
  splice (x ∷ xs) (suc p) ys = x ∷ splice xs p ys

  length-overwrite : (xs ys : List A) → length (overwrite xs ys) ≡ length xs
  length-overwrite [] ys = refl
  length-overwrite (x ∷ xs) [] = refl
  length-overwrite (x ∷ xs) (y ∷ ys) = ap suc (length-overwrite xs ys)

  pub length-splice : (xs : List A) (p : ℕ) (ys : List A) → length (splice xs p ys) ≡ length xs
  length-splice xs zero ys = length-overwrite xs ys
  length-splice [] (suc p) ys = refl
  length-splice (x ∷ xs) (suc p) ys = ap suc (length-splice xs p ys)

  pub length-slice : (xs : List A) (p n : ℕ) → p + n ≤ length xs → length (slice xs p n) ≡ n
  length-slice xs p n h = omega (arith, length-take n (drop p xs), length-drop p xs)

  take-add : (m n k : ℕ) (xs : List A) → m + n ≡ k → take k xs ≡ take m xs ++ take n (drop m xs)
  take-add zero n k xs h = ap (λ i. take i xs) (omega arith)
  take-add (suc m) n zero xs h = absurd (omega arith)
  take-add (suc m) zero (suc k) [] h = refl
  take-add (suc m) (suc n) (suc k) [] h = refl
  take-add (suc m) n (suc k) (x ∷ xs) h = ap (◌∷◌ x) (take-add m n k xs (omega arith))

  -- Adjacent ranges join.
  pub slice-add :
      (xs : List A) (p m n k : ℕ) → m + n ≡ k → slice xs p k ≡ slice xs p m ++ slice xs (p + m) n
  slice-add xs p m n k h =
      take-add m n k (drop p xs) h
      ∙ ap (λ ys. slice xs p m ++ take n ys) (drop-drop m p (p + m) xs (omega arith))

  pub take-slice : (xs : List A) (p m n : ℕ) → m ≤ n → take m (slice xs p n) ≡ slice xs p m
  take-slice xs p m n h = take-take m n (drop p xs) h

  drop-take : (m k n : ℕ) (xs : List A) → m + k ≡ n → drop m (take n xs) ≡ take k (drop m xs)
  drop-take zero k n xs h = ap (λ i. take i xs) (omega arith)
  drop-take (suc m) k zero xs h = absurd (omega arith)
  drop-take (suc m) zero (suc n) [] h = refl
  drop-take (suc m) (suc k) (suc n) [] h = refl
  drop-take (suc m) k (suc n) (x ∷ xs) h = drop-take m k n xs (omega arith)

  pub drop-slice :
      (xs : List A) (p m k n : ℕ) → m + k ≡ n → drop m (slice xs p n) ≡ slice xs (p + m) k
  drop-slice xs p m k n h =
      drop-take m k n (drop p xs) h ∙ ap (take k) (drop-drop m p (p + m) xs (omega arith))

  take-overwrite :
      (xs ys : List A) → length ys ≤ length xs → take (length ys) (overwrite xs ys) ≡ ys
  take-overwrite [] [] h = refl
  take-overwrite [] (y ∷ ys) h = absurd (omega arith)
  take-overwrite (x ∷ xs) [] h = refl
  take-overwrite (x ∷ xs) (y ∷ ys) h = ap (◌∷◌ y) (take-overwrite xs ys (omega arith))

  -- The range that was written reads back.
  pub slice-splice_self :
      (xs : List A) (p : ℕ) (ys : List A)
      → p + length ys ≤ length xs
      → slice (splice xs p ys) p (length ys) ≡ ys
  slice-splice_self xs zero ys h = take-overwrite xs ys (omega arith)
  slice-splice_self [] (suc p) ys h = absurd (omega arith)
  slice-splice_self (x ∷ xs) (suc p) ys h = slice-splice_self xs p ys (omega arith)

  -- A range that ends before it is unchanged.
  pub slice-splice_before :
      (xs : List A) (p : ℕ) (ys : List A) (q n : ℕ)
      → q + n ≤ p
      → slice (splice xs p ys) q n ≡ slice xs q n
  slice-splice_before xs p ys zero zero h = refl
  slice-splice_before xs zero ys zero (suc n) h = absurd (omega arith)
  slice-splice_before [] (suc p) ys zero (suc n) h = refl
  slice-splice_before (x ∷ xs) (suc p) ys zero (suc n) h =
      ap (◌∷◌ x) (slice-splice_before xs p ys zero n (omega arith))
  slice-splice_before xs zero ys (suc q) n h = absurd (omega arith)
  slice-splice_before [] (suc p) ys (suc q) n h = refl
  slice-splice_before (x ∷ xs) (suc p) ys (suc q) n h =
      slice-splice_before xs p ys q n (omega arith)

  drop-overwrite : (xs ys : List A) (q : ℕ) → length ys ≤ q → drop q (overwrite xs ys) ≡ drop q xs
  drop-overwrite [] ys q h = refl
  drop-overwrite (x ∷ xs) [] q h = refl
  drop-overwrite (x ∷ xs) (y ∷ ys) zero h = absurd (omega arith)
  drop-overwrite (x ∷ xs) (y ∷ ys) (suc q) h = drop-overwrite xs ys q (omega arith)

  -- So is one that begins after it.
  pub slice-splice_after :
      (xs : List A) (p : ℕ) (ys : List A) (q n : ℕ)
      → p + length ys ≤ q
      → slice (splice xs p ys) q n ≡ slice xs q n
  slice-splice_after xs zero ys q n h = ap (take n) (drop-overwrite xs ys q (omega arith))
  slice-splice_after [] (suc p) ys q n h = refl
  slice-splice_after (x ∷ xs) (suc p) ys zero n h = absurd (omega arith)
  slice-splice_after (x ∷ xs) (suc p) ys (suc q) n h = slice-splice_after xs p ys q n (omega arith)
