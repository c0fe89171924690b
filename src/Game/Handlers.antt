-- ===== src/Game/Handlers.antt =====
-- PacketHandler.cpp of the Windows server: `OnRead`, and a handler for each type of packet.
use game_lift.Prelude.{ℕ, zero, suc, ◌+◌, List, ltb, ◌==◌, if◌then◌else◌, slice}
use game_lift.Buffer.{Outcome, refused, taken, aborted, CircularBuffer, peek, read, get_stored_size}
use game_lift.Packet.{
  pkt_cs_login, pkt_cs_chat, pkt_cs_move, pkt_cs_exit, header_size, login_size, chat_size,
  move_size, exit_size, max_session_len, max_chat_len, size_of_short, invalid_type, decode_header,
  c_string, chat_result, move_result,
}
use game_lift.Server.State.{unterminated, assertion, still_running, or_fault}
use game_lift.Overlapped.{dr_active}
use game_lift.Game.State.{World, Services, Ending, returns, fails, ◌>>=◌, from_result, put_player}
use game_lift.Game.Player.{disconnect, player_login, player_logout, broadcast_message}

-- One round of the loop of `OnRead`: it returns, or goes on with what a handler leaves.
pub data Round : Type 0 where
  stop : Ending World → Round
  again : Ending World → Round

-- `std::string` of a `char` array in a packet.
unfoldable pub text : List ℕ → ℕ → ℕ → Ending (List ℕ)
text bytes start n = from_result (or_fault (c_string (slice bytes start n)) unterminated)

-- What a handler does with a packet that `ParsePacket` has read, or not.
unfoldable pub parsed : Outcome → World → (List ℕ → Ending World) → Ending World
parsed refused w body = returns w
parsed (taken bytes) w body = body bytes
parsed aborted w body = fails assertion

abbrev pub put_recv : World → ℕ → CircularBuffer → World
put_recv w s b = put_player w s (record (w.players s) { recv_buffer = b })

-- `ParsePacket` into a structure of `n` bytes, and the rest of a handler.
unfoldable pub with_packet : World → ℕ → ℕ → (World → List ℕ → Ending World) → Ending World
unfolding parsed
with_packet w s n body =
    let (out, b) = read (w.players s).recv_buffer n in
    let w' = put_recv w s b in parsed out w' (body w')

module _ (env : Services) where
  unfoldable pub default_handler : World → ℕ → Ending World
  default_handler w s = disconnect env dr_active w s

  unfoldable pub login_body : ℕ → World → List ℕ → Ending World
  unfolding text
  login_body s w bytes = text bytes header_size max_session_len >>= λ id. player_login env w s id

  unfoldable pub login_handler : World → ℕ → Ending World
  unfolding with_packet login_body
  login_handler w s = with_packet w s login_size (login_body s)

  unfoldable pub exit_body : ℕ → World → List ℕ → Ending World
  unfolding text
  exit_body s w bytes = text bytes header_size max_session_len >>= λ id. player_logout env w s id

  unfoldable pub exit_handler : World → ℕ → Ending World
  unfolding with_packet exit_body
  exit_handler w s = with_packet w s exit_size (exit_body s)

  unfoldable pub chat_body : World → List ℕ → Ending World
  unfolding text
  chat_body w bytes = text bytes header_size max_session_len >>= λ id.
      text bytes (header_size + max_session_len) max_chat_len >>= λ chat.
      broadcast_message env (chat_result id chat) w

  unfoldable pub chat_handler : World → ℕ → Ending World
  unfolding with_packet chat_body
  chat_handler w s = with_packet w s chat_size chat_body

  unfoldable pub move_body : World → List ℕ → Ending World
  move_body w bytes = broadcast_message env (move_result (slice bytes header_size 12)) w

  unfoldable pub move_handler : World → ℕ → Ending World
  unfolding with_packet move_body
  move_handler w s = with_packet w s move_size move_body

  -- `HandlerTable`, as the registrations leave it.
  unfoldable pub handler : ℕ → World → ℕ → Ending World
  unfolding default_handler login_handler exit_handler chat_handler move_handler
  handler type w s =
      if type == pkt_cs_login
      then login_handler w s
      else if type == pkt_cs_exit
      then exit_handler w s
      else if type == pkt_cs_chat
      then chat_handler w s
      else if type == pkt_cs_move
      then move_handler w s
      else default_handler w s

  -- The loop's body, when `Peek` of a header has this outcome.
  unfoldable pub peeked : Outcome → World → ℕ → Round
  unfolding handler
  peeked refused w s = stop (returns w)
  peeked aborted w s = stop (fails assertion)
  peeked (taken bytes) w s =
      let h = decode_header bytes in
      if ltb (get_stored_size (w.players s).recv_buffer) (size_of_short h.size)
      then stop (returns w)
      else if invalid_type h.type
      then stop (disconnect env dr_active w s)
      else again (handler h.type w s)

  unfoldable pub read_round : World → ℕ → Round
  unfolding peeked
  read_round w s = peeked (peek (w.players s).recv_buffer header_size) w s

  -- `OnRead`, for at most so many rounds.
  unfoldable pub on_read : ℕ → World → ℕ → Ending World
  unfolding read_round
  on_read zero w s = fails still_running
  on_read (suc fuel) w s = elim (read_round w s) [
    | stop o ↦ o
    | again o ↦ o >>= λ w'. on_read fuel w' s
  ]
