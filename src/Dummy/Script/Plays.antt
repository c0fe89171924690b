-- ===== src/Dummy/Script/Plays.antt =====
-- About whole runs of a dummy player's script, `PlayTest` by `PlayTest`.
use game_lift.Prelude.{
  ℕ, zero, suc, ◌+◌, ◌-◌, ◌^◌, ◌≤◌, ◌<◌, ◌≡◌, refl, sym, ap, subst, ◌∙◌, true, false, List, [], ◌∷◌,
  ◌++◌, append_assoc, ◌==◌, if◌then◌else◌, arith, length, length-append, replicate,
}
use game_lift.Packet.{max_session_len, ClientPacket, exit_request}
use game_lift.Dummy.State.{PlayerSession, System, returns, ◌>>=◌}
use game_lift.Dummy.Session.{add_ref}
use game_lift.Dummy.Player.{play_test}
use game_lift.Dummy.Events.{Event, plays, timer_job, happen, happen_all}
use game_lift.Dummy.Ensures.{Returns, Ensures->>=, Ensures-imp, Returns-value}
use game_lift.Dummy.Script.{Script, script, AllActions, IsNear}
use game_lift.Dummy.Script.Acts.{Acted, with_packet_asked, play_test-Acted, play_test-last}

-- What `r` further actions and the exit do.
pub record Done (r : ℕ) (v w : Script) : Type 0 where
  pub actions : List ClientPacket
  pub all_actions : AllActions v.player_session_id actions
  pub how_many : length actions ≡ r
  pub requests : w.requests ≡ v.requests ++ (actions ++ (exit_request v.player_session_id ∷ []))
  pub no_timer : w.timers ≡ 0
  pub near : (k : ℕ) → IsNear k v → IsNear (k + r) w

module _ (env : System) (fuel : ℕ) where
  at_rest :
      (m : ℕ) (s : PlayerSession)
      → s.timers ≡ 0
      → happen_all env fuel (replicate m plays) s ≡ returns s
  unfolding happen_all happen
  at_rest zero s h = refl
  at_rest (suc m) s h =
      let stopped : (s.timers == 0) ≡ true = ground (arith, h) in
      ap
        (λ b.
          (if b then returns s else timer_job env fuel s)
          >>= happen_all env fuel (replicate m plays))
        stopped
      ∙ at_rest m s h

  -- One job of the timer, by what `PlayTest` does.
  plays_next :
      (P Q : PlayerSession → Type 0) (es : List Event) (s : PlayerSession)
      → s.timers ≡ 1
      → Returns P (play_test env (add_ref (record s { timers = s.timers - 1 })))
      → ((t : PlayerSession)
          → P t
          → Returns Q (happen_all env fuel es (record t { ref_count = t.ref_count - 1 - 1 })))
      → Returns Q (happen_all env fuel (plays ∷ es) s)
  unfolding happen_all happen timer_job
  plays_next P Q es s one h k =
      let running : (s.timers == 0) ≡ false = ground (arith, one) in
      let played = play_test env (add_ref (record s { timers = s.timers - 1 })) in
      let finish = λ (t : PlayerSession). returns (record t { ref_count = t.ref_count - 1 - 1 }) in
      subst
        (λ b. Returns Q ((if b then returns s else (played >>= finish)) >>= happen_all env fuel es))
        (sym running)
        (Ensures->>= (λ _. ⊥) (λ t. Returns Q (happen_all env fuel es t)) Q (played >>= finish)
          (happen_all env fuel es)
          (Ensures->>= (λ _. ⊥) P (λ t. Returns Q (happen_all env fuel es t)) played finish h k)
          (λ t m. m))

  IsNear-record :
      (k : ℕ) (v : Script) (n c : ℕ)
      → IsNear k v
      → IsNear k (record v { timers = n; play_test_count = c })
  IsNear-record k v n c h = record { right = h.right; left = h.left; up = h.up; down = h.down }

  plays_lem :
      (r m : ℕ) (s : PlayerSession)
      → s.timers ≡ 1
      → s.play_test_count + suc r ≡ env.player_action_request
      → length s.player_session_id < max_session_len
      → Returns
          (λ t. Done r (script s) (script t))
          (happen_all env fuel (replicate (suc r) plays ++ replicate m plays) s)
  unfolding add_ref
  plays_lem zero m s one last short =
      let started : PlayerSession = add_ref (record s { timers = s.timers - 1 }) in
      let left =
        with_packet_asked (exit_request s.player_session_id)
          (record (script started) { play_test_count = s.play_test_count + 1 }) in
      plays_next (λ t. script t ≡ left) (λ t. Done 0 (script s) (script t)) (replicate m plays) s
        one (play_test-last env started short (omega (arith, last)))
        (λ t e.
          let u : PlayerSession = record t { ref_count = t.ref_count - 1 - 1 } in
          let stopped : u.timers ≡ 0 = omega (arith, ap (λ v. v.timers) e, one) in
          subst (Returns (λ w. Done 0 (script s) (script w))) (sym (at_rest m u stopped)) (record {
            actions = [];
            all_actions = tt;
            how_many = refl;
            requests = ap (λ v. v.requests) e;
            no_timer = stopped;
            near = λ k h.
                let h' = subst (IsNear k) (sym e) (
                  IsNear-record k (with_packet_asked (exit_request s.player_session_id) (script s))
                    (s.timers - 1) (s.play_test_count + 1)
                    (record { right = h.right; left = h.left; up = h.up; down = h.down })) in
                record {
                  right = omega (arith, h'.right);
                  left = omega (arith, h'.left);
                  up = omega (arith, h'.up);
                  down = omega (arith, h'.down);
                };
          }))
  plays_lem (suc r) m s one last short =
      let started : PlayerSession = add_ref (record s { timers = s.timers - 1 }) in
      plays_next (λ t. Acted (script started) (script t)) (λ t. Done (suc r) (script s) (script t))
        (replicate (suc r) plays ++ replicate m plays) s one
        (play_test-Acted env started short (λ e. omega (arith, e, last)))
        (λ t a.
          let u : PlayerSession = record t { ref_count = t.ref_count - 1 - 1 } in
          Ensures-imp (λ _. ⊥) (λ w. Done r (script u) (script w))
            (λ w. Done (suc r) (script s) (script w))
            (happen_all env fuel (replicate (suc r) plays ++ replicate m plays) u)
            (λ w d.
              let same : u.player_session_id ≡ s.player_session_id = a.same_id in
              record {
                actions = a.packet ∷ d.actions;
                all_actions =
                    (a.is_action, subst (λ id. AllActions id d.actions) same d.all_actions);
                how_many = omega (arith, d.how_many);
                requests =
                    d.requests
                    ∙ ap (λ id. u.requests ++ (d.actions ++ (exit_request id ∷ []))) same
                    ∙ ap (λ ps. ps ++ (d.actions ++ (exit_request s.player_session_id ∷ [])))
                        a.requests
                    ∙ append_assoc s.requests (a.packet ∷ [])
                        (d.actions ++ (exit_request s.player_session_id ∷ []));
                no_timer = d.no_timer;
                near = λ k h.
                    let h1 =
                      a.near k
                        (record { right = h.right; left = h.left; up = h.up; down = h.down }) in
                    let h2 =
                      d.near (k + 1)
                        (record { right = h1.right; left = h1.left; up = h1.up; down = h1.down }) in
                    record {
                      right = omega (arith, h2.right);
                      left = omega (arith, h2.left);
                      up = omega (arith, h2.up);
                      down = omega (arith, h2.down);
                    };
              })
            (plays_lem r m u (omega (arith, a.timers, one)) (omega (arith, a.count, last))
              (subst (λ id. length id < max_session_len) (sym a.same_id) short)))

  plays_on_lem :
      (m : ℕ) (s : PlayerSession)
      → s.timers ≡ 1
      → env.player_action_request ≤ s.play_test_count
      → length s.player_session_id < max_session_len
      → Returns
          (λ t.
            (length t.requests ≡ length s.requests + m)
            × (t.timers ≡ 1)
            × (t.play_test_count ≡ s.play_test_count + m))
          (happen_all env fuel (replicate m plays) s)
  unfolding add_ref happen_all
  plays_on_lem zero s one over short = (omega arith, one, omega arith)
  plays_on_lem (suc m) s one over short =
      let started : PlayerSession = add_ref (record s { timers = s.timers - 1 }) in
      plays_next (λ t. Acted (script started) (script t))
        (λ t.
          (length t.requests ≡ length s.requests + suc m)
          × (t.timers ≡ 1)
          × (t.play_test_count ≡ s.play_test_count + suc m))
        (replicate m plays) s one (play_test-Acted env started short (λ e. omega (arith, e, over)))
        (λ t a.
          let u : PlayerSession = record t { ref_count = t.ref_count - 1 - 1 } in
          Ensures-imp (λ _. ⊥)
            (λ w.
              (length w.requests ≡ length u.requests + m)
              × (w.timers ≡ 1)
              × (w.play_test_count ≡ u.play_test_count + m))
            (λ w.
              (length w.requests ≡ length s.requests + suc m)
              × (w.timers ≡ 1)
              × (w.play_test_count ≡ s.play_test_count + suc m))
            (happen_all env fuel (replicate m plays) u)
            (λ w d. (
              omega (arith, d.0, ap length a.requests, length-append s.requests (a.packet ∷ [])),
              d.1,
              omega (arith, d.2, a.count),
            ))
            (plays_on_lem m u (omega (arith, a.timers, one)) (omega (arith, a.count, over))
              (subst (λ id. length id < max_session_len) (sym a.same_id) short)))

-- A player has not acted yet, its identifier fits into a packet, and its login put one `PlayTest` into
-- the timer; `PLAYER_ACTION_REQUEST` is `r + 1`. Then, whatever the system answers and `rand` gives,
-- so many jobs of the timer run without a crash: `r` packets go to `PostSend`, each a chat under the
-- player's identifier or a move, then its exit, and no job is left in the timer; the time of a job
-- may come `m` times more, and nothing happens. From a place that is `k` moves from the start the
-- player comes to one that is `k + r` moves from it: 15 times that to the side of (480, 320) at most,
-- and 12 times that up or down.
pub plays_to_the_end :
    (env : System) (fuel r m : ℕ) (s : PlayerSession)
    → s.timers ≡ 1
    → s.play_test_count ≡ 0
    → r + 1 ≡ env.player_action_request
    → length s.player_session_id < max_session_len
    → (t : PlayerSession) × (happen_all env fuel (replicate (suc r) plays ++ replicate m plays) s
        ≡ returns t)
      × Done r (script s) (script t)
plays_to_the_end env fuel r m s one fresh requested short =
    Returns-value (λ t. Done r (script s) (script t))
      (happen_all env fuel (replicate (suc r) plays ++ replicate m plays) s)
      (plays_lem env fuel r m s one (omega (arith, fresh, requested)) short)

-- Once a player has acted `PLAYER_ACTION_REQUEST` times or more and a job is in the timer, as after a
-- second login result, or from the start if `PLAYER_ACTION_REQUEST` is 0, it does not stop as long as
-- its count, an `int`, stays below 2 ^ 31: after any number of jobs up to there it has sent as many
-- packets more and has counted as many actions more, and again there is one job in the timer.
pub plays_on :
    (env : System) (fuel m : ℕ) (s : PlayerSession)
    → s.timers ≡ 1
    → env.player_action_request ≤ s.play_test_count
    → s.play_test_count + m < 2 ^ 31
    → length s.player_session_id < max_session_len
    → (t : PlayerSession) × (happen_all env fuel (replicate m plays) s ≡ returns t)
      × (length t.requests ≡ length s.requests + m)
      × (t.timers ≡ 1)
      × (t.play_test_count ≡ s.play_test_count + m)
      × (t.play_test_count < 2 ^ 31)
plays_on env fuel m s one over small short =
    let (t, played, d) =
      Returns-value
        (λ t.
          (length t.requests ≡ length s.requests + m)
          × (t.timers ≡ 1)
          × (t.play_test_count ≡ s.play_test_count + m))
        (happen_all env fuel (replicate m plays) s) (plays_on_lem env fuel m s one over short) in
    (t, played, d.0, d.1, d.2, omega (arith, d.2, small))
