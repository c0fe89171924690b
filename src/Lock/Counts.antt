-- ===== src/Lock/Counts.antt =====
-- Counting the threads that stand at some places.
use game_lift.Prelude.{ℕ, zero, suc, ◌≤◌, ◌≡◌, refl, List, [], ◌∷◌, arith, length, replicate, total}
use game_lift.Lock.{Pc, idle, write_undo, write_drain, writing, read_undo, reading}

pub total-idle : (f : Pc → ℕ) (n : ℕ) → f idle ≡ 0 → total f (replicate n idle) ≡ 0
unfolding total
total-idle f zero h = refl
total-idle f (suc n) h = omega (arith, total-idle f n h)

-- Who has added the write flag, who has added one, who has found the write flag free, and who is
-- in the two sections.
abbrev pub flags : Pc → ℕ
flags write_undo = 1
flags write_drain = 1
flags writing = 1
flags p = 0

abbrev pub ones : Pc → ℕ
ones read_undo = 1
ones reading = 1
ones p = 0

abbrev pub claims : Pc → ℕ
claims write_drain = 1
claims writing = 1
claims p = 0

abbrev pub writers : Pc → ℕ
writers writing = 1
writers p = 0

abbrev pub readers : Pc → ℕ
readers reading = 1
readers p = 0

pub total-le-total :
    (f g : Pc → ℕ) → ((p : Pc) → f p ≤ g p) → (ps : List Pc) → total f ps ≤ total g ps
unfolding total
total-le-total f g h [] = omega arith
total-le-total f g h (p ∷ ps) = omega (arith, h p, total-le-total f g h ps)

pub total-le-length : (f : Pc → ℕ) → ((p : Pc) → f p ≤ 1) → (ps : List Pc) → total f ps ≤ length ps
unfolding total
total-le-length f h [] = omega arith
total-le-length f h (p ∷ ps) = omega (arith, h p, total-le-length f h ps)
