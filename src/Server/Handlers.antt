-- ===== src/Server/Handlers.antt =====
-- PacketHandler.cpp: the loop over the packets that have arrived, and a handler for each type.
use game_lift.Prelude.{ℕ, zero, suc, ◌+◌, List, ltb, ◌==◌, if◌then◌else◌, slice}
use game_lift.Buffer.{refused, taken, aborted, peek, read, get_stored_size}
use game_lift.Packet.{
  pkt_cs_login, pkt_cs_chat, pkt_cs_move, pkt_cs_exit, header_size, login_size, chat_size,
  move_size, exit_size, max_session_len, max_chat_len, size_of_short, invalid_type, decode_header,
  c_string, chat_result, move_result,
}
use game_lift.Server.State.{
  World, Services, Result, ok, fault, unterminated, assertion, still_running, ◌>>=◌, or_fault,
  put_session,
}
use game_lift.Server.Session.{disconnect, player_login, player_logout}
use game_lift.Server.Broadcast.{broadcast_message}

-- What one round of the loop does: return, or go on with what a handler leaves.
pub data Round : Type 0 where
  return : World → Round
  again : Result World → Round

module _ (env : Services) where
  -- `ParsePacket` into a structure of `n` bytes, and what the handler does with them. A packet
  -- that is not there is reported in the log, and the handler returns.
  unfoldable pub with_packet : World → ℕ → ℕ → (World → List ℕ → Result World) → Result World
  with_packet w s n body =
      let (out, b) = read (w.sessions s).recv_buffer n in
      let w' = put_session w s (record (w.sessions s) { recv_buffer = b }) in
      elim out [ refused ↦ ok w' | taken bytes ↦ body w' bytes | aborted ↦ fault assertion ]

  unfoldable pub default_handler : World → ℕ → Result World
  default_handler w s = ok (disconnect env w s)

  -- `std::string(inPacket.mPlayerId)`
  unfoldable pub player_id : List ℕ → Result (List ℕ)
  player_id bytes = or_fault (c_string (slice bytes header_size max_session_len)) unterminated

  unfoldable pub login_body : ℕ → World → List ℕ → Result World
  unfolding player_id
  login_body s w bytes = player_id bytes >>= λ id. ok (player_login env w s id)

  unfoldable pub login_handler : World → ℕ → Result World
  unfolding with_packet login_body
  login_handler w s = with_packet w s login_size (login_body s)

  unfoldable pub exit_body : ℕ → World → List ℕ → Result World
  unfolding player_id
  exit_body s w bytes = player_id bytes >>= λ id. ok (player_logout env w s id)

  unfoldable pub exit_handler : World → ℕ → Result World
  unfolding with_packet exit_body
  exit_handler w s = with_packet w s exit_size (exit_body s)

  unfoldable pub chat_body : World → List ℕ → Result World
  unfolding player_id
  chat_body w bytes = do
    id ← player_id bytes
    chat ←
        or_fault (c_string (slice bytes (header_size + max_session_len) max_chat_len)) unterminated
    broadcast_message env (chat_result id chat) w

  unfoldable pub chat_handler : World → ℕ → Result World
  unfolding with_packet chat_body
  chat_handler w s = with_packet w s chat_size chat_body

  unfoldable pub move_body : World → List ℕ → Result World
  move_body w bytes = broadcast_message env (move_result (slice bytes header_size 12)) w

  unfoldable pub move_handler : World → ℕ → Result World
  unfolding with_packet move_body
  move_handler w s = with_packet w s move_size move_body

  -- `HandlerTable`, as the registrations leave it.
  unfoldable pub handler : ℕ → World → ℕ → Result World
  unfolding default_handler login_handler exit_handler chat_handler move_handler
  handler type w s =
      if type == pkt_cs_login
      then login_handler w s
      else if type == pkt_cs_exit
      then exit_handler w s
      else if type == pkt_cs_chat
      then chat_handler w s
      else if type == pkt_cs_move
      then move_handler w s
      else default_handler w s

  unfoldable pub dispatch_round : World → ℕ → Round
  unfolding handler
  dispatch_round w s = elim (peek (w.sessions s).recv_buffer header_size) [
    | refused ↦ return w
    | aborted ↦ again (fault assertion)
    | taken bytes ↦
        let h = decode_header bytes in
        if ltb (get_stored_size (w.sessions s).recv_buffer) (size_of_short h.size)
        then return w
        else if invalid_type h.type
        then return (disconnect env w s)
        else again (handler h.type w s)
  ]

  -- `DispatchPacket`, for at most so many rounds.
  unfoldable pub dispatch_packet : ℕ → World → ℕ → Result World
  dispatch_packet zero w s = fault still_running
  dispatch_packet (suc fuel) w s = elim (dispatch_round w s) [
    | return w' ↦ ok w'
    | again r ↦ r >>= λ w'. dispatch_packet fuel w' s
  ]
