-- ===== src/Prelude/Lists.antt =====
-- Lists measured and indexed by native numbers, under the library's names.
use Prim.Native.Nat.{ℕ, zero, suc, ◌+◌, ◌-◌, ◌≤◌, min}
use mathlib.Core.Path.{◌≡◌, refl, ap, ◌∙◌}
use mathlib.Core.List.{List, [], ◌∷◌, ◌++◌, append-nil}
use native.Mathlib.Omega.{arith}

module _ {ℓ} {A : Type ℓ} where
  abbrev pub length : List A → ℕ
  length [] = 0
  length (x ∷ xs) = suc (length xs)

  abbrev pub take : ℕ → List A → List A
  take zero xs = []
  take (suc n) [] = []
  take (suc n) (x ∷ xs) = x ∷ take n xs

  abbrev pub drop : ℕ → List A → List A
  drop zero xs = xs
  drop (suc n) [] = []
  drop (suc n) (x ∷ xs) = drop n xs

  abbrev pub replicate : ℕ → A → List A
  replicate zero a = []
  replicate (suc n) a = a ∷ replicate n a

  pub length-append : (xs ys : List A) → length (xs ++ ys) ≡ length xs + length ys
  length-append [] ys = omega arith
  length-append (x ∷ xs) ys = omega (arith, length-append xs ys)

  pub length-take : (n : ℕ) (xs : List A) → length (take n xs) ≡ min n (length xs)
  length-take zero xs = omega arith
  length-take (suc n) [] = omega arith
  length-take (suc n) (x ∷ xs) = omega (arith, length-take n xs)

  pub length-drop : (n : ℕ) (xs : List A) → length (drop n xs) ≡ length xs - n
  length-drop zero xs = omega arith
  length-drop (suc n) [] = omega arith
  length-drop (suc n) (x ∷ xs) = omega (arith, length-drop n xs)

  pub length-replicate : (n : ℕ) (a : A) → length (replicate n a) ≡ n
  length-replicate zero a = refl
  length-replicate (suc n) a = ap suc (length-replicate n a)

  pub take_of_length_le : (n : ℕ) (xs : List A) → length xs ≤ n → take n xs ≡ xs
  take_of_length_le zero [] h = refl
  take_of_length_le zero (x ∷ xs) h = absurd (omega arith)
  take_of_length_le (suc n) [] h = refl
  take_of_length_le (suc n) (x ∷ xs) h = ap (◌∷◌ x) (take_of_length_le n xs (omega arith))

  pub drop_of_length_le : (n : ℕ) (xs : List A) → length xs ≤ n → drop n xs ≡ []
  drop_of_length_le zero [] h = refl
  drop_of_length_le zero (x ∷ xs) h = absurd (omega arith)
  drop_of_length_le (suc n) [] h = refl
  drop_of_length_le (suc n) (x ∷ xs) h = drop_of_length_le n xs (omega arith)

  pub take-append-drop : (n : ℕ) (xs : List A) → take n xs ++ drop n xs ≡ xs
  take-append-drop zero xs = refl
  take-append-drop (suc n) [] = refl
  take-append-drop (suc n) (x ∷ xs) = ap (◌∷◌ x) (take-append-drop n xs)

  pub take-nil : (n : ℕ) → take n [] ≡ []
  take-nil zero = refl
  take-nil (suc n) = refl

  pub nil_of_length : (xs : List A) → length xs ≡ 0 → xs ≡ []
  nil_of_length [] h = refl
  nil_of_length (x ∷ xs) h = absurd (omega arith)

  pub take-take : (m n : ℕ) (xs : List A) → m ≤ n → take m (take n xs) ≡ take m xs
  take-take zero n xs h = refl
  take-take (suc m) zero xs h = absurd (omega arith)
  take-take (suc m) (suc n) [] h = refl
  take-take (suc m) (suc n) (x ∷ xs) h = ap (◌∷◌ x) (take-take m n xs (omega arith))

  pub drop-drop : (m n k : ℕ) (xs : List A) → m + n ≡ k → drop m (drop n xs) ≡ drop k xs
  drop-drop m zero k xs h = ap (λ i. drop i xs) (omega arith)
  drop-drop m (suc n) zero xs h = absurd (omega arith)
  drop-drop zero (suc n) (suc k) [] h = refl
  drop-drop (suc m) (suc n) (suc k) [] h = refl
  drop-drop m (suc n) (suc k) (x ∷ xs) h = drop-drop m n k xs (omega arith)

  -- Within the first list, `take` and `drop` do not see the second.
  pub take-append_left : (n : ℕ) (xs ys : List A) → n ≤ length xs → take n (xs ++ ys) ≡ take n xs
  take-append_left zero xs ys h = refl
  take-append_left (suc n) [] ys h = absurd (omega arith)
  take-append_left (suc n) (x ∷ xs) ys h = ap (◌∷◌ x) (take-append_left n xs ys (omega arith))

  pub drop-append_left :
      (n : ℕ) (xs ys : List A) → n ≤ length xs → drop n (xs ++ ys) ≡ drop n xs ++ ys
  drop-append_left zero xs ys h = refl
  drop-append_left (suc n) [] ys h = absurd (omega arith)
  drop-append_left (suc n) (x ∷ xs) ys h = drop-append_left n xs ys (omega arith)

  -- Past it, they go on in the second.
  pub take-append_right :
      (n k : ℕ) (xs ys : List A) → n ≡ length xs + k → take n (xs ++ ys) ≡ xs ++ take k ys
  take-append_right n k [] ys h = ap (λ i. take i ys) (omega arith)
  take-append_right zero k (x ∷ xs) ys h = absurd (omega arith)
  take-append_right (suc n) k (x ∷ xs) ys h = ap (◌∷◌ x) (take-append_right n k xs ys (omega arith))

  pub drop-append_right :
      (n k : ℕ) (xs ys : List A) → n ≡ length xs + k → drop n (xs ++ ys) ≡ drop k ys
  drop-append_right n k [] ys h = ap (λ i. drop i ys) (omega arith)
  drop-append_right zero k (x ∷ xs) ys h = absurd (omega arith)
  drop-append_right (suc n) k (x ∷ xs) ys h = drop-append_right n k xs ys (omega arith)

  pub take_whole : (n : ℕ) (xs ys : List A) → length xs ≡ n → take n (xs ++ ys) ≡ xs
  take_whole n xs ys h = take-append_right n 0 xs ys (omega arith) ∙ append-nil xs

  pub drop_whole : (n : ℕ) (xs ys : List A) → length xs ≡ n → drop n (xs ++ ys) ≡ ys
  drop_whole n xs ys h = drop-append_right n 0 xs ys (omega arith)
