-- ===== src/Dummy/Script/Acts.antt =====
-- About the steps of a dummy player's script: what sends a packet, and a `PlayTest`.
use game_lift.Prelude.{
  ℕ, ◌+◌, ◌%◌, ◌^◌, ◌<◌, ◌≡◌, ◌≢◌, refl, sym, ap, subst, ◌∙◌, Bool, true, false, inl, inr, List, [],
  ◌∷◌, ◌++◌, ltb, lt→ltb, ◌==◌, if◌then◌else◌, arith, length,
}
use game_lift.Buffer.{write, get_contiguous_bytes}
use game_lift.Packet.{
  max_session_len, ClientPacket, chat_request, move_request, exit_request, encode_client,
}
use game_lift.Overlapped.{DisconnectReason, dr_io_request_error}
use game_lift.Dummy.State.{Context, io_send, io_disconnect, PlayerSession, System, returns, ◌>>=◌}
use game_lift.Dummy.Session.{add_ref, start_io, disconnect_request, flushed, flush_send, post_send}
use game_lift.Dummy.Player.{
  play_later, chat_text, set_next_pos, post_packet, post_named, end_test, move_body, play_chat,
  play_move, play_test,
}
use game_lift.Dummy.Ensures.{Returns, Ensures->>=, Ensures-if, Ensures-imp}
use game_lift.Dummy.Counted.{start_io-cases}
use game_lift.Dummy.Script.{Script, script, IsAction, IsNear}
use game_lift.Dummy.Script.Walk.{script-set_next_pos, IsNear-set_next_pos}

abbrev Same : Script → PlayerSession → Type 0
Same v t = script t ≡ v

abbrev SameAnswer : Script → Bool × PlayerSession → Type 0
SameAnswer v r = script r.1 ≡ v

module _ (env : System) (v : Script) where
  start_io-Same :
      (c : Context) (s : PlayerSession) → script s ≡ v → Returns (SameAnswer v) (start_io env c s)
  start_io-Same c s h = elim (start_io-cases env c s) [
    | inl took ↦ subst (Returns (SameAnswer v)) (sym took) h
    | inr refused ↦ subst (Returns (SameAnswer v)) (sym refused) h
  ]

  disconnect_request-Same :
      (dr : DisconnectReason) (s : PlayerSession)
      → script s ≡ v
      → Returns (Same v) (disconnect_request env dr s)
  unfolding disconnect_request
  disconnect_request-Same dr s h =
      let started = start_io env (io_disconnect dr) (record s { connected = false }) in
      Ensures-if (λ _. ⊥) (Same v) s.connected (started >>= λ r. returns r.1) (returns s)
        (λ _.
          Ensures->>= (λ _. ⊥) (SameAnswer v) (Same v) started (λ r. returns r.1)
            (start_io-Same (io_disconnect dr) (record s { connected = false }) h) (λ r k. k))
        (λ _. h)

  flush_send-Same : (s : PlayerSession) → script s ≡ v → Returns (SameAnswer v) (flush_send env s)
  unfolding flush_send
  flush_send-Same s h =
      let c = io_send (get_contiguous_bytes s.send_buffer % 2 ^ 32) in
      Ensures->>= (λ _. ⊥) (SameAnswer v) (SameAnswer v) (start_io env c s) (flushed env)
        (start_io-Same c s h) follows
    where
      follows : (r : Bool × PlayerSession) → SameAnswer v r → Returns (SameAnswer v) (flushed env r)
      follows (true, t) k = unfold flushed in k
      follows (false, t) k =
          unfold flushed in
          Ensures->>= (λ _. ⊥) (Same v) (SameAnswer v)
            (disconnect_request env dr_io_request_error t) (λ u. returns (false, u))
            (disconnect_request-Same dr_io_request_error t k) (λ u m. m)

  post_send-Same :
      (bytes : List ℕ) (s : PlayerSession)
      → script s ≡ v
      → Returns (SameAnswer v) (post_send env bytes s)
  unfolding post_send
  post_send-Same bytes s h =
      let t : PlayerSession = record s { send_buffer = (write s.send_buffer bytes).1 } in
      let flush_it = flush_send env t in
      let when_written = if ltb 0 s.send_requested_count then returns (true, t) else flush_it in
      let when_on = if (write s.send_buffer bytes).0 then when_written else returns (false, t) in
      Ensures-if (λ _. ⊥) (SameAnswer v) s.connected when_on (returns (false, s))
        (λ _.
          Ensures-if (λ _. ⊥) (SameAnswer v) (write s.send_buffer bytes).0 when_written
            (returns (false, t))
            (λ _.
              Ensures-if (λ _. ⊥) (SameAnswer v) (ltb 0 s.send_requested_count) (returns (true, t))
                flush_it (λ _. h) (λ _. flush_send-Same t h))
            (λ _. h))
        (λ _. h)

-- The script with a packet more.
abbrev pub with_packet_asked : ClientPacket → Script → Script
with_packet_asked p v = record v { requests = v.requests ++ (p ∷ []) }

post_packet-Asks :
    (env : System) (p : ClientPacket) (s : PlayerSession)
    → Returns (Same (with_packet_asked p (script s))) (post_packet env p s)
unfolding post_packet
post_packet-Asks env p s =
    let v = with_packet_asked p (script s) in
    let asked : PlayerSession = record s { requests = s.requests ++ (p ∷ []) } in
    Ensures->>= (λ _. ⊥) (SameAnswer v) (Same v) (post_send env (encode_client p) asked)
      (λ r. returns r.1) (post_send-Same env v (encode_client p) asked refl) (λ r k. k)

post_named-Asks :
    (env : System) (p : List ℕ → ClientPacket) (s : PlayerSession)
    → length s.player_session_id < max_session_len
    → Returns (Same (with_packet_asked (p s.player_session_id) (script s))) (post_named env p s)
unfolding post_named
post_named-Asks env p s short =
    rw (lt→ltb (length s.player_session_id) max_session_len short)
      (post_packet-Asks env (p s.player_session_id) s)

-- A `PlayTest` that is not the last.
pub record Acted (v w : Script) : Type 0 where
  pub packet : ClientPacket
  pub is_action : IsAction v.player_session_id packet
  pub requests : w.requests ≡ v.requests ++ (packet ∷ [])
  pub timers : w.timers ≡ v.timers + 1
  pub count : w.play_test_count ≡ v.play_test_count + 1
  pub same_id : w.player_session_id ≡ v.player_session_id
  pub near : (k : ℕ) → IsNear k v → IsNear (k + 1) w

module _ (env : System) (s : PlayerSession)
    (short : length s.player_session_id < max_session_len) where
  -- What is left to show once the packet is asked for, from a place that is near enough.
  acted :
      (p : ClientPacket) (v : Script) (t : PlayerSession)
      → IsAction s.player_session_id p
      → v.requests ≡ s.requests
      → v.timers ≡ s.timers
      → v.play_test_count ≡ s.play_test_count + 1
      → v.player_session_id ≡ s.player_session_id
      → ((k : ℕ) → IsNear k (script s) → IsNear (k + 1) v)
      → Same (with_packet_asked p v) t
      → Acted (script s) (script (play_later t))
  unfolding play_later add_ref
  acted p v t action requests timers count same_id near e = record {
    packet = p;
    is_action = action;
    requests = ap (λ u. u.requests) e ∙ ap (λ ps. ps ++ (p ∷ [])) requests;
    timers = omega (arith, ap (λ u. u.timers) e, timers);
    count = ap (λ u. u.play_test_count) e ∙ count;
    same_id = ap (λ u. u.player_session_id) e ∙ same_id;
    near = λ k h.
        let h' = subst (IsNear (k + 1)) (sym e) (record {
          right = (near k h).right;
          left = (near k h).left;
          up = (near k h).up;
          down = (near k h).down;
        }) in
        record { right = h'.right; left = h'.left; up = h'.up; down = h'.down };
  }

  pub play_test-Acted :
      env.player_action_request ≢ s.play_test_count + 1
      → Returns (λ t. Acted (script s) (script t)) (play_test env s)
  unfolding play_test play_chat play_move
  play_test-Acted more =
      let drawn : PlayerSession = record s {
        play_test_count = s.play_test_count + 1;
        rands = s.rands + 1;
      } in
      let moved = set_next_pos env drawn in
      let chats = env.rand s.rands % 10 == 0 in
      let acts = if chats then play_chat env drawn else play_move env drawn in
      let body = move_body env moved in
      let text = chat_text (env.unwritten drawn.rands) in
      let still = script-set_next_pos env drawn in
      let not_last : (env.player_action_request == s.play_test_count + 1) ≡ false =
        ground (arith, more) in
      rw not_last (
        Ensures->>= (λ _. ⊥) (λ t. Acted (script s) (script (play_later t)))
          (λ t. Acted (script s) (script t)) acts (λ t. returns (play_later t))
          (Ensures-if (λ _. ⊥) (λ t. Acted (script s) (script (play_later t))) chats
            (play_chat env drawn) (play_move env drawn)
            (λ _.
              Ensures-imp (λ _. ⊥)
                (Same (with_packet_asked (chat_request s.player_session_id text) (script drawn)))
                (λ t. Acted (script s) (script (play_later t))) (play_chat env drawn)
                (λ t e.
                  acted (chat_request s.player_session_id text) (script drawn) t refl refl refl refl
                    refl
                    (λ k h. record {
                      right = omega (arith, h.right);
                      left = omega (arith, h.left);
                      up = omega (arith, h.up);
                      down = omega (arith, h.down);
                    })
                    e)
                (post_named-Asks env (λ id. chat_request id text) drawn short))
            (λ _.
              Ensures-imp (λ _. ⊥) (Same (with_packet_asked (move_request body) (script moved)))
                (λ t. Acted (script s) (script (play_later t))) (play_move env drawn)
                (λ t e.
                  acted (move_request body) (script moved) t tt (ap (λ u. u.requests) still)
                    (ap (λ u. u.timers) still) (ap (λ u. u.play_test_count) still)
                    (ap (λ u. u.player_session_id) still)
                    (λ k h.
                      IsNear-set_next_pos env k drawn
                        (record { right = h.right; left = h.left; up = h.up; down = h.down }))
                    e)
                (post_packet-Asks env (move_request body) moved)))
          (λ t h. h))

  -- The last one.
  pub play_test-last :
      env.player_action_request ≡ s.play_test_count + 1
      → Returns
          (Same (
            with_packet_asked
              (exit_request s.player_session_id)
              (record (script s) { play_test_count = s.play_test_count + 1 })))
          (play_test env s)
  unfolding play_test end_test
  play_test-last last =
      let is_last : (env.player_action_request == s.play_test_count + 1) ≡ true =
        ground (arith, last) in
      rw is_last (
        post_named-Asks env exit_request (record s { play_test_count = s.play_test_count + 1 })
          short)
