-- ===== src/Server/Valid/Loops.antt =====
-- The handlers and the loops keep the buffers valid, and no assertion fails in them.
use game_lift.Prelude.{
  ℕ, zero, suc, ◌≡◌, ◌≢◌, refl, inl, inr, Bool, true, false, List, [], ◌∷◌, ltb, ◌==◌,
  if◌then◌else◌, arith, take, slice, length-take, Option-cases,
}
use game_lift.Buffer.{Outcome, refused, taken, aborted, peek, get_stored_size}
use game_lift.Buffer.Drain.{read-IsValid, peek-eq-read}
use game_lift.Buffer.Fill.{store-Put, store, opened, room, Put}
use game_lift.Packet.{
  pkt_cs_login, pkt_cs_exit, pkt_cs_chat, pkt_cs_move, chat_result, move_result, c_string,
  header_size, decode_header, size_of_short, invalid_type, login_size, exit_size, chat_size,
  move_size,
}
use game_lift.Server.State.{World, Services, Result, ok, fault, assertion, ◌>>=◌, put_session}
use game_lift.Server.Session.{disconnect, player_login, player_logout}
use game_lift.Server.Handlers.{
  Round, return, again, login_body, exit_body, chat_body, move_body, login_handler, exit_handler,
  handler, dispatch_round, dispatch_packet,
}
use game_lift.Server.Receive.{
  Arrival, arrived, would_block, failed, receive, receive_loop, on_receive,
}
use game_lift.Server.Valid.{
  AllValid, Safe, AllValid-put, >>=-Safe, disconnect-AllValid, player_login-AllValid,
  player_logout-AllValid, broadcast_message-Safe, with_packet-Safe, player_id-Safe,
}

if-Safe : (b : Bool) (x y : Result World) → Safe x → Safe y → Safe (if b then x else y)
if-Safe true x y h k = h
if-Safe false x y h k = k

abbrev SafeRound : Round → Type 0
SafeRound (return w) = AllValid w
SafeRound (again r) = Safe r

if-SafeRound : (b : Bool) (x y : Round) → SafeRound x → SafeRound y → SafeRound (if b then x else y)
if-SafeRound true x y h k = h
if-SafeRound false x y h k = k

module _ (env : Services) where
  login_handler-Safe : (w : World) (s : ℕ) → AllValid w → Safe (login_handler env w s)
  unfolding login_handler
  login_handler-Safe w s v =
      with_packet-Safe env w s login_size (login_body env s) v (λ w' bytes v'.
        player_id-Safe env bytes (λ id. ok (player_login env w' s id))
          (λ id. player_login-AllValid env s id v'))

  exit_handler-Safe : (w : World) (s : ℕ) → AllValid w → Safe (exit_handler env w s)
  unfolding exit_handler
  exit_handler-Safe w s v = with_packet-Safe env w s exit_size (exit_body env s) v (λ w' bytes v'.
      player_id-Safe env bytes (λ id. ok (player_logout env w' s id))
        (λ id. player_logout-AllValid env s id v'))

  chat_body-Safe : (w : World) (bytes : List ℕ) → AllValid w → Safe (chat_body env w bytes)
  unfolding chat_body
  chat_body-Safe w bytes v = player_id-Safe env bytes _ (λ id.
      elim (Option-cases (c_string (slice bytes 132 128))) [
        | inl e ↦ rw e tt
        | inr (chat, e) ↦ rw e (broadcast_message-Safe env (chat_result id chat) w v)
      ])

  handler-Safe : (type : ℕ) (w : World) (s : ℕ) → AllValid w → Safe (handler env type w s)
  unfolding handler
  handler-Safe type w s v = if-Safe (type == pkt_cs_login) _ _ (login_handler-Safe w s v) (
      if-Safe (type == pkt_cs_exit) _ _ (exit_handler-Safe w s v) (
        if-Safe (type == pkt_cs_chat) _ _
          (with_packet-Safe env w s chat_size (chat_body env) v chat_body-Safe)
          (if-Safe (type == pkt_cs_move) _ _
            (with_packet-Safe env w s move_size (move_body env) v
              (λ w' bytes v'. broadcast_message-Safe env (move_result (slice bytes 4 12)) w' v'))
            (disconnect-AllValid env s v))))

  dispatch_round-Safe : (w : World) (s : ℕ) → AllValid w → SafeRound (dispatch_round env w s)
  unfolding dispatch_round
  dispatch_round-Safe w s v =
      go (peek (w.sessions s).recv_buffer header_size)
        (rw (peek-eq-read header_size (v.receiving s)) (read-IsValid header_size (v.receiving s)).1)
    where
      go :
          (out : Outcome)
          → out ≢ aborted
          → SafeRound (elim out [
            | refused ↦ return w
            | aborted ↦ again (fault assertion)
            | taken bytes ↦
                let h = decode_header bytes in
                if ltb (get_stored_size (w.sessions s).recv_buffer) (size_of_short h.size)
                then return w
                else if invalid_type h.type
                then return (disconnect env w s)
                else again (handler env h.type w s)
          ])
      go refused ne = v
      go aborted ne = absurd (ne refl)
      go (taken bytes) ne =
          if-SafeRound
            (ltb (get_stored_size (w.sessions s).recv_buffer)
              (size_of_short (decode_header bytes).size))
            _ _ v
            (if-SafeRound (invalid_type (decode_header bytes).type) _ _
              (disconnect-AllValid env s v) (handler-Safe (decode_header bytes).type w s v))

  -- Whatever bytes have arrived, `DispatchPacket` keeps every buffer valid, and no assertion in
  -- `Peek` or `Read` fails.
  pub dispatch_packet-Safe :
      (fuel : ℕ) (w : World) (s : ℕ) → AllValid w → Safe (dispatch_packet env fuel w s)
  unfolding dispatch_packet
  dispatch_packet-Safe zero w s v = tt
  dispatch_packet-Safe (suc fuel) w s v =
      go (dispatch_round env w s) (dispatch_round-Safe w s v) (dispatch_packet-Safe fuel)
    where
      go :
          (r : Round)
          → SafeRound r
          → ((w' : World) (t : ℕ) → AllValid w' → Safe (dispatch_packet env fuel w' t))
          → Safe
              (elim r [ return w' ↦ ok w' | again r' ↦ r' >>= λ w'. dispatch_packet env fuel w' s ])
      go (return w') h k = h
      go (again r') h k = >>=-Safe r' (λ w'. dispatch_packet env fuel w' s) h (λ w' v'. k w' s v')

  receive_loop-Safe :
      (fuel : ℕ) (arrivals : List Arrival) (w : World) (s : ℕ)
      → AllValid w
      → Safe (receive_loop env fuel arrivals w s)
  unfolding receive_loop receive
  receive_loop-Safe fuel [] w s v = tt
  receive_loop-Safe fuel (would_block ∷ rest) w s v = v
  receive_loop-Safe fuel (failed ∷ rest) w s v = disconnect-AllValid env s v
  receive_loop-Safe fuel (arrived ys ∷ rest) w s v =
      let b = (w.sessions s).recv_buffer in
      let p : Put b (take (room b) ys) (store (opened b) (take (room b) ys)) =
        store-Put (take (room b) ys) (v.receiving s) (omega (arith, length-take (room b) ys)) in
      >>=-Safe (dispatch_packet env fuel (put_session w s (receive (w.sessions s) ys)) s)
        (λ w'. receive_loop env fuel rest w' s)
        (dispatch_packet-Safe fuel (put_session w s (receive (w.sessions s) ys)) s
          (AllValid-put s (receive (w.sessions s) ys) v (v.sending s) p.valid))
        (λ w' v'. receive_loop-Safe fuel rest w' s v')

  -- If every buffer is valid, then whatever a client sends, and however it is cut, `OnReceive` on a
  -- connected session keeps every buffer valid where it returns, and no assertion fails in it.
  pub on_receive-Safe :
      (fuel : ℕ) (arrivals : List Arrival) (w : World) (s : ℕ)
      → AllValid w
      → (w.sessions s).connected ≡ true
      → Safe (on_receive env fuel arrivals w s)
  unfolding on_receive
  on_receive-Safe fuel arrivals w s v on = rw on (receive_loop-Safe fuel arrivals w s v)
