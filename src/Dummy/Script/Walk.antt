-- ===== src/Dummy/Script/Walk.antt =====
-- About a dummy player's coordinates, by `SetNextPos`.
use game_lift.Prelude.{
  ℕ, ◌+◌, ◌*◌, ◌%◌, ◌≤◌, ◌≡◌, refl, sym, subst, Bool, true, false, Bool-cases, inl, inr, ◌==◌,
  if◌then◌else◌, arith,
}
use game_lift.Prelude.Int.{ℤ, pos, above, below, ◌+ℤ◌, ◌-ℤ◌, +ℤ_lem, -ℤ_lem, least}
use game_lift.Dummy.State.{PlayerSession, System}
use game_lift.Dummy.Player.{
  goes_right, goes_left, goes_up, goes_down, step_x, step_y, next_dir, set_next_pos,
}
use game_lift.Dummy.Script.{script, IsNear}

-- A coordinate between -`b` and `a`.
abbrev Between : ℕ → ℕ → ℤ → Type 0
Between a b x = (above x ≤ a) × (below x ≤ b)

Between-+ℤ : (a b d n : ℕ) (x : ℤ) → n ≤ d → Between a b x → Between (a + d) (b + d) (x +ℤ pos n)
Between-+ℤ a b d n x h k = elim (least (x +ℤ pos n)) [
  | inl negative ↦ omega (arith, negative, +ℤ_lem x n)
  | inr positive ↦ omega (arith, positive, +ℤ_lem x n)
]

Between--ℤ : (a b d n : ℕ) (x : ℤ) → n ≤ d → Between a b x → Between (a + d) (b + d) (x -ℤ pos n)
Between--ℤ a b d n x h k = elim (least (x -ℤ pos n)) [
  | inl negative ↦ omega (arith, negative, -ℤ_lem x n)
  | inr positive ↦ omega (arith, positive, -ℤ_lem x n)
]

-- One of the two ways, or none.
Between-way :
    (a b d n : ℕ) (x : ℤ) (there back : Bool)
    → n ≤ d
    → Between a b x
    → Between (a + d) (b + d) (if there then x +ℤ pos n else if back then x -ℤ pos n else x)
Between-way a b d n x true back h k = Between-+ℤ a b d n x h k
Between-way a b d n x false true h k = Between--ℤ a b d n x h k
Between-way a b d n x false false h k = omega arith

script-next_dir : (env : System) (s : PlayerSession) → script (next_dir env s) ≡ script s
unfolding next_dir
script-next_dir env s = elim (Bool-cases (s.move_step == 10)) [
  | inl turn ↦ rw turn refl
  | inr straight ↦ rw straight refl
]

-- Only the place changes.
pub script-set_next_pos :
    (env : System) (s : PlayerSession)
    → script (set_next_pos env s)
      ≡ record (script s) { pos_x = (set_next_pos env s).pos_x; pos_y = (set_next_pos env s).pos_y }
unfolding set_next_pos
script-set_next_pos env s = λ i. record {
  requests = (script-next_dir env s i).requests;
  timers = (script-next_dir env s i).timers;
  play_test_count = (script-next_dir env s i).play_test_count;
  player_session_id = (script-next_dir env s i).player_session_id;
  pos_x = (set_next_pos env s).pos_x;
  pos_y = (set_next_pos env s).pos_y;
}

pub IsNear-set_next_pos :
    (env : System) (k : ℕ) (s : PlayerSession)
    → IsNear k (script s)
    → IsNear (k + 1) (script (set_next_pos env s))
unfolding set_next_pos step_x step_y
IsNear-set_next_pos env k s h =
    let t = next_dir env s in
    let vec = env.rand t.rands % 10 + 3 in
    let dir = t.curr_dir in
    let x : Between (480 + 15 * k) (15 * k) t.pos_x =
      subst (λ v. Between (480 + 15 * k) (15 * k) v.pos_x) (sym (script-next_dir env s))
        (h.right, h.left) in
    let y : Between (320 + 12 * k) (12 * k) t.pos_y =
      subst (λ v. Between (320 + 12 * k) (12 * k) v.pos_y) (sym (script-next_dir env s))
        (h.up, h.down) in
    let x' =
      Between-way (480 + 15 * k) (15 * k) 15 (vec + 3) t.pos_x (goes_right dir) (goes_left dir)
        (omega arith) x in
    let y' =
      Between-way (320 + 12 * k) (12 * k) 12 vec t.pos_y (goes_up dir) (goes_down dir) (omega arith)
        y in
    record {
      right = omega (arith, x'.0);
      left = omega (arith, x'.1);
      up = omega (arith, y'.0);
      down = omega (arith, y'.1);
    }
