-- ===== src/Dummy/Player.antt =====
-- PlayerSession.cpp and PacketHandler.cpp of DummyClients: what a player sends and receives.
use game_lift.Prelude.{
  ℕ, zero, suc, ◌+◌, ◌%◌, Bool, true, false, ◌||◌, Option, none, some, List, [], ◌∷◌, ◌++◌, ltb,
  ◌==◌, if◌then◌else◌, length,
}
use game_lift.Prelude.Int.{ℤ, pos, ◌+ℤ◌, ◌-ℤ◌}
use game_lift.Buffer.{Outcome, refused, taken, aborted, peek, read, get_stored_size}
use game_lift.Packet.{
  header_size, login_size, chat_size, move_size, pkt_sc_login, pkt_sc_chat, pkt_sc_move,
  max_session_len, size_of_short, invalid_type, decode_header, c_string, encode_int, ClientPacket,
  login_request, chat_request, move_request, exit_request, encode_client,
}
use game_lift.Overlapped.{dr_active}
use game_lift.Dummy.State.{
  io_connect, PlayerSession, System, already_connected, socket_option, buffer_assertion,
  text_overrun, still_running, Ending, returns, crashes, ◌>>=◌,
}
use game_lift.Dummy.Session.{add_ref, start_io, disconnect_request, pre_recv, post_send}

-- `DoAsyncAfter` of `PlayTest`: the timer's element holds a reference.
unfoldable pub play_later : PlayerSession → PlayerSession
unfolding add_ref
play_later s = record (add_ref s) { timers = s.timers + 1 }

-- The text that `strcpy_s` takes from `chat`, of which only the last byte is written.
abbrev pub or_empty : Option (List ℕ) → List ℕ
or_empty none = []
or_empty (some text) = text

unfoldable pub chat_text : List ℕ → List ℕ
chat_text unwritten = or_empty (c_string (unwritten ++ (0 ∷ [])))

-- The directions that go right, left, up and down.
abbrev pub goes_right : ℕ → Bool
goes_right dir = dir == 1 || (dir == 2 || dir == 3)

abbrev pub goes_left : ℕ → Bool
goes_left dir = dir == 5 || (dir == 6 || dir == 7)

abbrev pub goes_up : ℕ → Bool
goes_up dir = dir == 0 || (dir == 1 || dir == 7)

abbrev pub goes_down : ℕ → Bool
goes_down dir = dir == 3 || (dir == 4 || dir == 5)

-- The switch of `SetNextPos`, by coordinates.
unfoldable pub step_x : ℕ → ℕ → ℤ → ℤ
step_x dir vec x =
    if goes_right dir then x +ℤ pos (vec + 3) else if goes_left dir then x -ℤ pos (vec + 3) else x

unfoldable pub step_y : ℕ → ℕ → ℤ → ℤ
step_y dir vec y = if goes_up dir then y +ℤ pos vec else if goes_down dir then y -ℤ pos vec else y

module _ (env : System) where
  -- The direction is drawn anew after ten moves.
  unfoldable pub next_dir : PlayerSession → PlayerSession
  next_dir s =
      if s.move_step == 10
      then record s { move_step = 0; curr_dir = env.rand s.rands % 8; rands = s.rands + 1 }
      else record s { move_step = s.move_step + 1 }

  unfoldable pub set_next_pos : PlayerSession → PlayerSession
  unfolding next_dir step_x step_y
  set_next_pos s =
      let s' = next_dir s in
      let vec = env.rand s'.rands % 10 + 3 in
      record s' {
        rands = s'.rands + 1;
        pos_x = step_x s'.curr_dir vec s'.pos_x;
        pos_y = step_y s'.curr_dir vec s'.pos_y;
      }

  -- `PostSend` of a packet; nobody looks at the answer.
  unfoldable pub post_packet : ClientPacket → PlayerSession → Ending PlayerSession
  unfolding post_send
  post_packet p s =
      post_send env (encode_client p) (record s { requests = s.requests ++ (p ∷ []) }) >>= λ r.
      returns r.1

  -- The same for a packet with the player's identifier, which `sprintf_s` copies.
  unfoldable pub post_named : (List ℕ → ClientPacket) → PlayerSession → Ending PlayerSession
  unfolding post_packet
  post_named p s =
      if ltb (length s.player_session_id) max_session_len
      then post_packet (p s.player_session_id) s
      else crashes text_overrun

  unfoldable pub start_test : PlayerSession → Ending PlayerSession
  unfolding post_named
  start_test s = post_named login_request (record s {
    pos_x = pos 480;
    pos_y = pos 320;
    curr_dir = env.rand s.rands % 8;
    rands = s.rands + 1;
  })

  unfoldable pub end_test : PlayerSession → Ending PlayerSession
  unfolding post_named
  end_test s = post_named exit_request s

  -- The body of a `MoveRequest`.
  unfoldable pub move_body : PlayerSession → List ℕ
  move_body s = encode_int s.player_idx ++ (env.float_bytes s.pos_x ++ env.float_bytes s.pos_y)

  unfoldable pub play_chat : PlayerSession → Ending PlayerSession
  unfolding post_named chat_text
  play_chat s = post_named (λ id. chat_request id (chat_text (env.unwritten s.rands))) s

  unfoldable pub play_move : PlayerSession → Ending PlayerSession
  unfolding set_next_pos post_packet move_body
  play_move s = let s' = set_next_pos s in post_packet (move_request (move_body s')) s'

  unfoldable pub play_test : PlayerSession → Ending PlayerSession
  unfolding end_test play_chat play_move play_later
  play_test s =
      let s' = record s { play_test_count = s.play_test_count + 1 } in
      let drawn = record s' { rands = s'.rands + 1 } in
      if env.player_action_request == s'.play_test_count
      then end_test s'
      else ((if env.rand s'.rands % 10 == 0 then play_chat drawn else play_move drawn) >>= λ t.
          returns (play_later t))

  unfoldable pub connect_request : List ℕ → ℕ → PlayerSession → Ending (Bool × PlayerSession)
  unfolding start_io
  connect_request id idx s =
      if s.connected
      then crashes already_connected
      else (start_io env io_connect s >>= λ r.
          returns (true, record r.1 { player_session_id = id; player_idx = idx }))

  -- The end of `ConnectCompletion`, by what `PreRecv` answers.
  unfoldable pub established : Bool × PlayerSession → Ending PlayerSession
  unfolding start_test
  established (true, s) = start_test s
  established (false, s) = returns (record s { connected = false })

  -- `ConnectCompletion`, by whether the options of the socket can be set.
  unfoldable pub connect_completion : Bool → Bool → PlayerSession → Ending PlayerSession
  unfolding pre_recv established
  connect_completion updated options s =
      if updated
      then (if options
          then (if s.connected
              then crashes already_connected
              else (pre_recv env (record s { connected = true }) >>= established))
          else crashes socket_option)
      else returns s

  -- What a handler does with a packet that `ParsePacket` has read, or not.
  unfoldable pub parsed :
      Outcome → PlayerSession → (PlayerSession → PlayerSession) → Ending PlayerSession
  parsed refused s body = returns s
  parsed (taken bytes) s body = returns (body s)
  parsed aborted s body = crashes buffer_assertion

  unfoldable pub with_packet :
      ℕ → (PlayerSession → PlayerSession) → PlayerSession → Ending PlayerSession
  unfolding parsed
  with_packet n body s =
      let (out, b) = read s.recv_buffer n in parsed out (record s { recv_buffer = b }) body

  -- `HandlerTable`, as the registrations leave it.
  unfoldable pub handler : ℕ → PlayerSession → Ending PlayerSession
  unfolding with_packet play_later disconnect_request
  handler type s =
      if type == pkt_sc_login
      then with_packet login_size play_later s
      else if type == pkt_sc_chat
      then with_packet chat_size (λ t. t) s
      else if type == pkt_sc_move
      then with_packet move_size (λ t. t) s
      else disconnect_request env dr_active s

  -- One round of the loop of `OnRead`: it returns, or goes on with what a handler leaves.
  unfoldable pub peeked :
      Outcome → (PlayerSession → Ending PlayerSession) → PlayerSession → Ending PlayerSession
  unfolding handler disconnect_request
  peeked refused again s = returns s
  peeked aborted again s = crashes buffer_assertion
  peeked (taken bytes) again s =
      let h = decode_header bytes in
      if ltb (get_stored_size s.recv_buffer) (size_of_short h.size)
      then returns s
      else if invalid_type h.type
      then disconnect_request env dr_active s
      else (handler h.type s >>= again)

  -- `OnRead`, for at most so many rounds.
  unfoldable pub on_read : ℕ → PlayerSession → Ending PlayerSession
  unfolding peeked
  on_read zero s = crashes still_running
  on_read (suc fuel) s = peeked (peek s.recv_buffer header_size) (on_read fuel) s
