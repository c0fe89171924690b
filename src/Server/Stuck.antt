-- ===== src/Server/Stuck.antt =====
-- Inputs at which a loop of the server does not end.
use game_lift.Prelude.{
  ℕ, zero, suc, ◌<◌, ◌≡◌, ◌≢◌, refl, sym, subst, ap, ◌∙◌, true, false, List, [], arith, length,
  length-append, take-nil, replicate, take,
}
use game_lift.Buffer.{CircularBuffer, refused, peek, get_stored_size}
use game_lift.Buffer.Inv.{IsValid, contents, length-contents_stored}
use game_lift.Buffer.Drain.{read_refused, peek-eq-read}
use game_lift.Buffer.Fill.{store, opened, room, store-Put, Put}
use game_lift.Packet.{
  decode_header, invalid_type, header_size, login_size, chat_size, move_size, exit_size,
  pkt_cs_login, pkt_cs_chat, pkt_cs_move, pkt_cs_exit,
}
use game_lift.Server.State.{World, Services, ok, fault, still_running, put_session}
use game_lift.Server.Session.{disconnect}
use game_lift.Server.Receive.{arrived, receive, receive_loop, on_receive}
use game_lift.Server.Frame.{disconnect-SameInput}
use game_lift.Server.Rounds.{
  AtFront, AtFront-same, unread, dispatch_round-handler, with_packet-refused,
}
use game_lift.Server.Handlers.{
  dispatch_round, dispatch_packet, handler, login_handler, exit_handler, chat_handler, move_handler,
  login_body, exit_body, chat_body, move_body,
}

-- A type in the range of the table for which no handler is registered.
pub record IsUnregistered (type : ℕ) : Type 0 where
  pub in_range : invalid_type type ≡ false
  pub no_login : type ≢ pkt_cs_login
  pub no_exit : type ≢ pkt_cs_exit
  pub no_chat : type ≢ pkt_cs_chat
  pub no_move : type ≢ pkt_cs_move

-- A registered type whose structure is longer than what is stored.
pub data IsStarved (type stored : ℕ) : Type 0 where
  login : type ≡ pkt_cs_login → stored < login_size → IsStarved type stored
  exit : type ≡ pkt_cs_exit → stored < exit_size → IsStarved type stored
  chat : type ≡ pkt_cs_chat → stored < chat_size → IsStarved type stored
  move : type ≡ pkt_cs_move → stored < move_size → IsStarved type stored

IsStarved-in_range : {type stored : ℕ} → IsStarved type stored → invalid_type type ≡ false
unfolding invalid_type
IsStarved-in_range (login e h) = ground (arith, e)
IsStarved-in_range (exit e h) = ground (arith, e)
IsStarved-in_range (chat e h) = ground (arith, e)
IsStarved-in_range (move e h) = ground (arith, e)

module _ (env : Services) where
  handler-unregistered :
      {type : ℕ} (w : World) (s : ℕ)
      → IsUnregistered type
      → handler env type w s ≡ ok (disconnect env w s)
  unfolding handler
  handler-unregistered w s u = ground (arith, u.no_login, u.no_exit, u.no_chat, u.no_move)

  -- A packet with a type in the range of the table for which there is no handler is never taken
  -- out of the buffer: once it is there, `DispatchPacket` disconnects and goes round for ever.
  pub dispatch_packet_unregistered :
      (fuel : ℕ) {w : World} {s : ℕ} {h : List ℕ}
      → AtFront w s h
      → IsUnregistered (decode_header h).type
      → dispatch_packet env fuel w s ≡ fault still_running
  unfolding dispatch_packet
  dispatch_packet_unregistered zero f u = refl
  dispatch_packet_unregistered (suc fuel) {w} {s} f u =
      rw (dispatch_round-handler env f u.in_range, handler-unregistered w s u, dispatch_packet)
        (dispatch_packet_unregistered fuel (AtFront-same ((disconnect-SameInput env w s).inbox s) f)
          u)

  handler-starved :
      {type : ℕ} (w : World) (s : ℕ)
      → IsStarved type (get_stored_size (w.sessions s).recv_buffer)
      → handler env type w s ≡ ok (unread w s)
  unfolding handler login_handler exit_handler chat_handler move_handler
  handler-starved w s (login e few) =
      rw e (with_packet-refused env w s login_size (login_body env s) few)
  handler-starved w s (exit e few) =
      rw e (with_packet-refused env w s exit_size (exit_body env s) few)
  handler-starved w s (chat e few) =
      rw e (with_packet-refused env w s chat_size (chat_body env) few)
  handler-starved w s (move e few) =
      rw e (with_packet-refused env w s move_size (move_body env) few)

  -- A packet whose header states no more bytes than have arrived, and whose structure is longer
  -- than that, is not taken out of the buffer either: `DispatchPacket` goes round for ever.
  pub dispatch_packet_starved :
      (fuel : ℕ) {w : World} {s : ℕ} {h : List ℕ}
      → AtFront w s h
      → IsStarved (decode_header h).type (get_stored_size (w.sessions s).recv_buffer)
      → dispatch_packet env fuel w s ≡ fault still_running
  unfolding dispatch_packet
  dispatch_packet_starved zero f u = refl
  dispatch_packet_starved (suc fuel) {w} {s} {h} f u =
      rw
        (
          dispatch_round-handler env f (IsStarved-in_range u),
          handler-starved w s u,
          dispatch_packet,
        )
        (dispatch_packet_starved fuel (AtFront-same same f)
          (subst (λ b. IsStarved (decode_header h).type (get_stored_size b)) (sym same) u))
    where
      same : ((unread w s).sessions s).recv_buffer ≡ (w.sessions s).recv_buffer
      same = ground arith

  dispatch_packet_waits :
      (fuel : ℕ) (w : World) (s : ℕ)
      → peek (w.sessions s).recv_buffer header_size ≡ refused
      → dispatch_packet env (suc fuel) w s ≡ ok w
  unfolding dispatch_packet dispatch_round
  dispatch_packet_waits fuel w s e = ground (arith, e)

  receive_loop_closed :
      (fuel n : ℕ) (w : World) (s : ℕ)
      → IsValid (w.sessions s).recv_buffer
      → get_stored_size (w.sessions s).recv_buffer < header_size
      → receive_loop env (suc fuel) (replicate n (arrived [])) w s ≡ fault still_running
  unfolding receive_loop receive
  receive_loop_closed fuel zero w s v h = refl
  receive_loop_closed fuel (suc n) w s v h =
      rw (dispatch_packet_waits fuel w' s (empty_peek here p.valid few))
        (receive_loop_closed fuel n w' s (subst IsValid (sym here) p.valid) (rw here few))
    where
      b : CircularBuffer
      b = (w.sessions s).recv_buffer

      w' : World
      w' = put_session w s (receive (w.sessions s) [])

      grown : CircularBuffer
      grown = store (opened b) (take (room b) [])

      p : Put b (take (room b) []) grown
      p = store-Put (take (room b) []) v (omega (arith, ap (length {A = ℕ}) (take-nil (room b))))

      here : (w'.sessions s).recv_buffer ≡ grown
      here = ground arith

      few : get_stored_size grown < header_size
      few = omega (
        arith,
        length-contents_stored v,
        length-contents_stored p.valid,
        ap length p.whole,
        length-append (contents b) (take (room b) []),
        ap (length {A = ℕ}) (take-nil (room b)),
      )

      empty_peek :
          {c : CircularBuffer}
          → c ≡ grown
          → IsValid grown
          → get_stored_size grown < header_size
          → peek c header_size ≡ refused
      empty_peek e q k =
          rw e (peek-eq-read header_size q ∙ ap (λ o. o.0) (read_refused grown header_size k))

  -- On a connected session with a valid receive buffer that holds less than a header, `OnReceive`
  -- does not return at a `read` that gives 0, however often that happens.
  pub on_receive_closed :
      (fuel n : ℕ) (w : World) (s : ℕ)
      → IsValid (w.sessions s).recv_buffer
      → (w.sessions s).connected ≡ true
      → get_stored_size (w.sessions s).recv_buffer < header_size
      → on_receive env (suc fuel) (replicate n (arrived [])) w s ≡ fault still_running
  unfolding on_receive
  on_receive_closed fuel n w s v on h = rw on (receive_loop_closed fuel n w s v h)
