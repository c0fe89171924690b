-- ===== src/Dummy/Counted/Players.antt =====
-- About the counts of a session, and the calls of PlayerSession.cpp and PacketHandler.cpp.
use game_lift.Prelude.{
  ℕ, zero, suc, ◌+◌, ◌%◌, ◌≤◌, ◌≡◌, refl, sym, ap, subst, Bool, true, false, Bool-cases, inl, inr,
  List, [], ◌∷◌, ◌++◌, ltb, ◌==◌, if◌then◌else◌, arith, length,
}
use game_lift.Prelude.Int.{pos}
use game_lift.Buffer.{Outcome, refused, taken, aborted, peek, read, get_stored_size}
use game_lift.Packet.{
  header_size, login_size, chat_size, move_size, pkt_sc_login, pkt_sc_chat, pkt_sc_move,
  max_session_len, size_of_short, invalid_type, decode_header, ClientPacket, login_request,
  chat_request, move_request, exit_request, encode_client,
}
use game_lift.Overlapped.{dr_active}
use game_lift.Dummy.State.{
  PlayerSession, System, text_overrun, socket_option, already_connected, Ending, returns, crashes,
  ◌>>=◌,
}
use game_lift.Dummy.Session.{add_ref, disconnect_request, pre_recv, post_send}
use game_lift.Dummy.Player.{
  play_later, chat_text, next_dir, set_next_pos, post_packet, post_named, start_test, end_test,
  move_body, play_chat, play_move, play_test, established, connect_completion, parsed, with_packet,
  handler, peeked, on_read,
}
use game_lift.Dummy.Ensures.{Ensures->>=, Ensures-if}
use game_lift.Dummy.Counted.{IsOther, Safe, linked, counts, Inv, IsCounted}
use game_lift.Dummy.Counted.Sessions.{disconnect_request-Safe, pre_recv-Safe, post_send-Safe}

counts-set_next_pos : (env : System) (s : PlayerSession) → counts (set_next_pos env s) ≡ counts s
unfolding set_next_pos next_dir
counts-set_next_pos env s = elim (Bool-cases (s.move_step == 10)) [
  | inl turn ↦ rw turn refl
  | inr straight ↦ rw straight refl
]

-- A call ends with what it had in its hands.
pub weaken :
    (x l n : ℕ) (s : PlayerSession) (m k : ℕ)
    → l ≤ m
    → n ≤ k
    → IsCounted x m k s
    → IsCounted x l n s
weaken x l n s m k fewer_links fewer_sends v = record {
  refs = v.refs;
  phase = omega (arith, v.phase, fewer_links);
  once = v.once;
  sent = omega (arith, v.sent, fewer_sends);
  unreleased = v.unreleased;
}

module _ (env : System) (x l n : ℕ) where
  abbrev Counted : PlayerSession → Type 0
  Counted s = IsCounted x l n s

  abbrev AnswerCounted : Bool × PlayerSession → Type 0
  AnswerCounted r = IsCounted x l n r.1

  play_later-Safe : (s : PlayerSession) → IsCounted x l n s → IsCounted x l n (play_later s)
  unfolding play_later add_ref
  play_later-Safe s v = record {
    refs = omega (arith, v.refs);
    phase = v.phase;
    once = v.once;
    sent = v.sent;
    unreleased = v.unreleased;
  }

  post_packet-Safe :
      (p : ClientPacket) (s : PlayerSession)
      → IsCounted x l n s
      → Safe (λ t. IsCounted x l n t) (post_packet env p s)
  unfolding post_packet
  post_packet-Safe p s v =
      let asked : PlayerSession = record s { requests = s.requests ++ (p ∷ []) } in
      Ensures->>= IsOther AnswerCounted Counted (post_send env (encode_client p) asked)
        (λ r. returns r.1) (post_send-Safe env x l n (encode_client p) asked v) (λ r h. h)

  post_named-Safe :
      (p : List ℕ → ClientPacket) (s : PlayerSession)
      → IsCounted x l n s
      → Safe (λ t. IsCounted x l n t) (post_named env p s)
  unfolding post_named
  post_named-Safe p s v =
      Ensures-if IsOther Counted (ltb (length s.player_session_id) max_session_len)
        (post_packet env (p s.player_session_id) s) (crashes text_overrun)
        (λ _. post_packet-Safe (p s.player_session_id) s v) (λ _. tt)

  pub play_test-Safe :
      (s : PlayerSession) → IsCounted x l n s → Safe (λ t. IsCounted x l n t) (play_test env s)
  unfolding play_test end_test play_chat play_move
  play_test-Safe s v =
      let counted : PlayerSession = record s { play_test_count = s.play_test_count + 1 } in
      let drawn : PlayerSession = record counted { rands = s.rands + 1 } in
      let moved = set_next_pos env drawn in
      let chats = env.rand s.rands % 10 == 0 in
      let acts = if chats then play_chat env drawn else play_move env drawn in
      Ensures-if IsOther Counted (env.player_action_request == s.play_test_count + 1)
        (end_test env counted) (acts >>= λ t. returns (play_later t))
        (λ _. post_named-Safe exit_request counted v)
        (λ _.
          Ensures->>= IsOther Counted Counted acts (λ t. returns (play_later t))
            (Ensures-if IsOther Counted chats (play_chat env drawn) (play_move env drawn)
              (λ _.
                post_named-Safe (λ id. chat_request id (chat_text (env.unwritten drawn.rands)))
                  drawn v)
              (λ _.
                post_packet-Safe (move_request (move_body env moved)) moved
                  (subst (Inv x l n) (sym (counts-set_next_pos env drawn)) v)))
            play_later-Safe)

  -- A connection has come back.
  pub connect_completion-Safe :
      (updated options : Bool) (s : PlayerSession)
      → IsCounted x (suc l) n s
      → Safe (λ t. IsCounted x l n t) (connect_completion env updated options s)
  unfolding connect_completion established start_test
  connect_completion-Safe updated options s v =
      let on : PlayerSession = record s { connected = true } in
      let off : s.connected ≡ false = apart s.connected (omega (arith, v.phase, v.once)) in
      let v_on : IsCounted x l n on = record {
        refs = v.refs;
        phase = omega (arith, v.phase, ap linked off);
        once = v.once;
        sent = v.sent;
        unreleased = v.unreleased;
      } in
      let runs = pre_recv env on >>= established env in
      let connects = if s.connected then crashes already_connected else runs in
      Ensures-if IsOther Counted updated (if options then connects else crashes socket_option)
        (returns s)
        (λ _.
          Ensures-if IsOther Counted options connects (crashes socket_option)
            (λ _.
              Ensures-if IsOther Counted s.connected (crashes already_connected) runs
                (λ already. cc (already, off))
                (λ _.
                  Ensures->>= IsOther AnswerCounted Counted (pre_recv env on) (established env)
                    (pre_recv-Safe env x l n on v_on) begins))
            (λ _. tt))
        (λ _. weaken x l n s (suc l) n (omega arith) (omega arith) v)
    where
      apart : (b : Bool) → linked b ≤ 0 → b ≡ false
      apart true h = absurd (omega arith)
      apart false h = refl

      begins :
          (r : Bool × PlayerSession)
          → IsCounted x l n r.1
          → Safe (λ t. IsCounted x l n t) (established env r)
      begins (true, t) h =
          post_named-Safe login_request
            (record t {
              pos_x = pos 480;
              pos_y = pos 320;
              curr_dir = env.rand t.rands % 8;
              rands = t.rands + 1;
            })
            h
      begins (false, t) h = record {
        refs = h.refs;
        phase = omega (arith, h.phase);
        once = h.once;
        sent = h.sent;
        unreleased = h.unreleased;
      }

  with_packet-Safe :
      (size : ℕ) (body : PlayerSession → PlayerSession) (s : PlayerSession)
      → ((t : PlayerSession) → IsCounted x l n t → IsCounted x l n (body t))
      → IsCounted x l n s
      → Safe (λ t. IsCounted x l n t) (with_packet env size body s)
  unfolding with_packet
  with_packet-Safe size body s keeps v =
      outcome (read s.recv_buffer size).0 (record s { recv_buffer = (read s.recv_buffer size).1 }) v
    where
      outcome :
          (out : Outcome) (t : PlayerSession)
          → IsCounted x l n t
          → Safe (λ u. IsCounted x l n u) (parsed env out t body)
      outcome refused t h = unfold parsed in h
      outcome (taken bytes) t h = unfold parsed in keeps t h
      outcome aborted t h = unfold parsed in tt

  handler-Safe :
      (type : ℕ) (s : PlayerSession)
      → IsCounted x l n s
      → Safe (λ t. IsCounted x l n t) (handler env type s)
  unfolding handler
  handler-Safe type s v =
      let login = with_packet env login_size play_later s in
      let chat = with_packet env chat_size (λ t. t) s in
      let move = with_packet env move_size (λ t. t) s in
      let other = disconnect_request env dr_active s in
      let move_or = if type == pkt_sc_move then move else other in
      let chat_or = if type == pkt_sc_chat then chat else move_or in
      Ensures-if IsOther Counted (type == pkt_sc_login) login chat_or
        (λ _. with_packet-Safe login_size play_later s play_later-Safe v)
        (λ _.
          Ensures-if IsOther Counted (type == pkt_sc_chat) chat move_or
            (λ _. with_packet-Safe chat_size (λ t. t) s (λ t h. h) v)
            (λ _.
              Ensures-if IsOther Counted (type == pkt_sc_move) move other
                (λ _. with_packet-Safe move_size (λ t. t) s (λ t h. h) v)
                (λ _. disconnect_request-Safe env x l n dr_active s v)))

  peeked-Safe :
      (out : Outcome) (again : PlayerSession → Ending PlayerSession) (s : PlayerSession)
      → ((t : PlayerSession) → IsCounted x l n t → Safe (λ u. IsCounted x l n u) (again t))
      → IsCounted x l n s
      → Safe (λ t. IsCounted x l n t) (peeked env out again s)
  unfolding peeked
  peeked-Safe refused again s go v = v
  peeked-Safe aborted again s go v = tt
  peeked-Safe (taken bytes) again s go v =
      let h = decode_header bytes in
      let handled = handler env h.type s >>= again in
      let rejected = disconnect_request env dr_active s in
      Ensures-if IsOther Counted (ltb (get_stored_size s.recv_buffer) (size_of_short h.size))
        (returns s) (if invalid_type h.type then rejected else handled) (λ _. v)
        (λ _.
          Ensures-if IsOther Counted (invalid_type h.type) rejected handled
            (λ _. disconnect_request-Safe env x l n dr_active s v)
            (λ _.
              Ensures->>= IsOther Counted Counted (handler env h.type s) again
                (handler-Safe h.type s v) go))

  pub on_read-Safe :
      (fuel : ℕ) (s : PlayerSession)
      → IsCounted x l n s
      → Safe (λ t. IsCounted x l n t) (on_read env fuel s)
  unfolding on_read
  on_read-Safe zero s v = tt
  on_read-Safe (suc fuel) s v =
      peeked-Safe (peek s.recv_buffer header_size) (on_read env fuel) s (on_read-Safe fuel) v
