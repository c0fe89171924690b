-- ===== src/Dummy/Ensures.antt =====
-- What a call ensures: of the session when it returns, and of the crash when it does not.
use game_lift.Prelude.{◌≡◌, refl, Bool, true, false, if◌then◌else◌}
use game_lift.Dummy.State.{Crash, Ending, returns, crashes, ◌>>=◌}

abbrev pub Ensures {ℓ} : {A : Type ℓ} → (Crash → Type 0) → (A → Type 0) → Ending A → Type 0
Ensures C P (returns a) = P a
Ensures C P (crashes e) = C e

module _ (C : Crash → Type 0) where
  pub Ensures->>= {ℓ κ} :
      {A : Type ℓ} {B : Type κ} (P : A → Type 0) (Q : B → Type 0) (m : Ending A) (f : A → Ending B)
      → Ensures C P m
      → ((a : A) → P a → Ensures C Q (f a))
      → Ensures C Q (m >>= f)
  Ensures->>= P Q (returns a) f h k = k a h
  Ensures->>= P Q (crashes e) f h k = h

  pub Ensures-imp {ℓ} :
      {A : Type ℓ} (P Q : A → Type 0) (m : Ending A)
      → ((a : A) → P a → Q a)
      → Ensures C P m
      → Ensures C Q m
  Ensures-imp P Q (returns a) k h = k a h
  Ensures-imp P Q (crashes e) k h = h

  pub Ensures-if {ℓ} :
      {A : Type ℓ} (P : A → Type 0) (b : Bool) (m k : Ending A)
      → (b ≡ true → Ensures C P m)
      → (b ≡ false → Ensures C P k)
      → Ensures C P (if b then m else k)
  Ensures-if P true m k h h' = h refl
  Ensures-if P false m k h h' = h' refl

-- A call that returns.
abbrev pub Returns {ℓ} : {A : Type ℓ} → (A → Type 0) → Ending A → Type 0
Returns = Ensures (λ _. ⊥)

pub Returns-value {ℓ} :
    {A : Type ℓ} (P : A → Type 0) (m : Ending A) → Returns P m → (a : A) × (m ≡ returns a) × P a
Returns-value P (returns a) h = (a, refl, h)
Returns-value P (crashes e) h = absurd h
