-- ===== src/Spinlock/Owner.antt =====
-- About the threads that are inside the spin lock, and its flag.
use game_lift.Prelude.{
  ℕ, ◌+◌, ◌≤◌, ◌≡◌, refl, ap, true, Bool-cases, inl, inr, List, ◌∷◌, ◌++◌, ◌==◌, if◌then◌else◌,
  arith, total, total-around, total-replicate,
}
use game_lift.Spinlock.{
  Pc, outside, entering, inside, FastSpinlock, new_lock, try_enter, advance, steps, Reach, start,
  later,
}

abbrev pub is_inside : Pc → ℕ
is_inside outside = 0
is_inside entering = 0
is_inside inside = 1

record Inv (s : FastSpinlock) : Type 0 where
  owners : total is_inside s.threads ≡ s.lock_flag
  flag : s.lock_flag ≤ 1

module _ {s : FastSpinlock} (v : Inv s) (before behind : List Pc) where
  moves :
      (p q : Pc) (lock_flag : ℕ)
      → s.threads ≡ before ++ (p ∷ behind)
      → lock_flag + is_inside p ≡ s.lock_flag + is_inside q
      → lock_flag ≤ 1
      → Inv (record { lock_flag = lock_flag; threads = before ++ (q ∷ behind) })
  moves p q lock_flag e owners flag = record {
    owners = omega (
      arith,
      v.owners,
      owners,
      ap (total is_inside) e,
      total-around is_inside before p behind,
      total-around is_inside before q behind,
    );
    flag = flag;
  }

  advance-Inv :
      (p : Pc)
      → s.threads ≡ before ++ (p ∷ behind)
      → Inv (record {
        lock_flag = (advance p s.lock_flag).1;
        threads = before ++ ((advance p s.lock_flag).0 ∷ behind);
      })
  unfolding advance try_enter
  advance-Inv outside e = moves outside entering s.lock_flag e refl v.flag
  advance-Inv entering e = elim (Bool-cases (s.lock_flag == 0)) [
    | inl free ↦
        let zero_flag : s.lock_flag ≡ 0 = ground (arith, free) in
        rw free (moves entering inside 1 e (omega (arith, zero_flag)) (omega arith))
    | inr taken ↦
        let one_flag : s.lock_flag ≡ 1 = ground (arith, taken, v.flag) in
        rw taken (moves entering entering 1 e (omega (arith, one_flag)) (omega arith))
  ]
  advance-Inv inside e =
      let one_flag : s.lock_flag ≡ 1 = omega (
        arith,
        v.flag,
        v.owners,
        ap (total is_inside) e,
        total-around is_inside before inside behind,
      ) in
      moves inside outside 0 e (omega (arith, one_flag)) (omega arith)

Reach-Inv : {n : ℕ} {s : FastSpinlock} → Reach n s → Inv s
unfolding new_lock
Reach-Inv {n} start = record {
  owners = total-replicate is_inside n outside refl;
  flag = omega arith;
}
Reach-Inv (later r (steps before p behind e)) = advance-Inv (Reach-Inv r) before behind p e

-- In every interleaving of any number of threads one thread at most is between `EnterLock` and
-- `LeaveLock`. If none is, then the next thread that tries to enter does.
pub one_owner :
    {n : ℕ} {s : FastSpinlock}
    → Reach n s
    → (total is_inside s.threads ≤ 1)
      × (total is_inside s.threads ≡ 0 → (advance entering s.lock_flag).0 ≡ inside)
unfolding advance try_enter
one_owner {s} r =
    let v = Reach-Inv r in
    (
      omega (arith, v.owners, v.flag),
      λ none_inside.
          let free : (s.lock_flag == 0) ≡ true =
            let zero_flag : s.lock_flag ≡ 0 = omega (arith, v.owners, none_inside) in
            ground (arith, zero_flag) in
          ap (λ b. if b then inside else entering) free,
    )
