-- ===== src/Server/Tests.antt =====
-- The server's theorems at a server with two players, and with none.
use game_lift.Prelude.{
  ℕ, ◌+◌, ◌≤◌, ◌≡◌, refl, ap, ◌<◌, ◌^◌, ltb, List, inl, true, false, some, none, [], ◌∷◌, ◌++◌,
  arith, replicate,
}
use game_lift.Buffer.{CircularBuffer, init, get_free_space_size, get_stored_size, peek}
use game_lift.Buffer.Inv.{IsValid, contents, init-IsValid}
use game_lift.Buffer.Fill.{room, room-drained}
use game_lift.Packet.{move_request, encode_client, decode_header, size_of_short, invalid_type}
use game_lift.Server.State.{
  Call, accept_player, remove_player, activate_game, terminate_game, process_ending, ClientSession,
  GameLiftManager, World, Services, ok, fault, still_running, dead_iterator,
}
use game_lift.Server.Roster.{
  new_manager, accept_player_session, remove_player_session, on_start_game_session,
}
use game_lift.Server.Broadcast.{broadcast_message}
use game_lift.Server.Handlers.{dispatch_packet}
use game_lift.Server.Receive.{arrived, would_block, on_receive}
use game_lift.Server.Flush.{takes, send_flush, failed}
use game_lift.Server.Flush.Laws.{send_flush_done, IsFlush, send_flush-IsFlush}
use game_lift.Server.Rounds.{AtFront}
use game_lift.Server.Stream.{serve}
use game_lift.Server.Stream.Serve.{dispatch_packet-serve}
use game_lift.Server.Counts.{
  Act, accept, remove, start_game, act_all, came, gone, RemovesActive, act_all-counts,
}
use game_lift.Server.Delivery.{
  IsReady, Reaches, deliver_all, broadcast_message-Reaches, broadcast_message_overrun,
}
use game_lift.Server.Valid.{AllValid, Safe}
use game_lift.Server.Valid.Loops.{on_receive-Safe}
use game_lift.Server.Stuck.{
  IsUnregistered, IsStarved, login, dispatch_packet_unregistered, dispatch_packet_starved,
  on_receive_closed,
}

-- A service that agrees to everything.
abbrev env : Services
env = record { accepts = λ calls id. true; removes = λ calls id. true; lingers = λ sock. true }

-- How often the service was asked to accept and to remove a player.
abbrev arrivals : List Call → ℕ
arrivals [] = 0
arrivals (accept_player id ∷ cs) = arrivals cs + 1
arrivals (remove_player id ∷ cs) = arrivals cs
arrivals (activate_game ∷ cs) = arrivals cs
arrivals (terminate_game ∷ cs) = arrivals cs
arrivals (process_ending ∷ cs) = arrivals cs

abbrev removals : List Call → ℕ
removals [] = 0
removals (accept_player id ∷ cs) = removals cs
removals (remove_player id ∷ cs) = removals cs + 1
removals (activate_game ∷ cs) = removals cs
removals (terminate_game ∷ cs) = removals cs
removals (process_ending ∷ cs) = removals cs

-- A service that removes a player whenever it was asked to remove fewer than to accept.
abbrev fair : Services
fair = record env { removes = λ calls id. ltb (removals calls) (arrivals calls) }

-- Nothing to send, and `received` as it is.
abbrev player : CircularBuffer → ClientSession
player received = record {
  player_session_id = 65 ∷ [];
  connected = true;
  logon = false;
  socket = 5;
  send_buffer = init (replicate 300 0) 300;
  recv_buffer = received;
}

-- Two players, with the same contents of their objects.
abbrev world : CircularBuffer → World
world received = record {
  sessions = λ t. player received;
  clients = (5, 1) ∷ [];
  manager = record new_manager { activated = true; player_sessions = 1 ∷ 2 ∷ [] };
}

abbrev quiet : CircularBuffer
quiet = init (replicate 40 0) 40

-- The bytes of an array of 40, of which the first 18 have arrived: a packet, and half a header.
abbrev moved : CircularBuffer
moved = record {
  buffer = encode_client (move_request (replicate 12 7)) ++ (16 ∷ 0 ∷ replicate 22 0);
  capacity = 40;
  a_pointer = 0;
  a_size = 18;
  b_pointer = none;
  b_size = 0;
}

-- A header alone: four bytes long, and of the given type.
abbrev lone : ℕ → CircularBuffer
lone type = record {
  buffer = 4 ∷ 0 ∷ type ∷ 0 ∷ 0 ∷ 0 ∷ [];
  capacity = 6;
  a_pointer = 0;
  a_size = 4;
  b_pointer = none;
  b_size = 0;
}

quiet-IsValid : IsValid quiet
quiet-IsValid = init-IsValid (replicate 40 0) 40 refl (omega arith)

fresh-IsValid : IsValid (init (replicate 300 0) 300)
fresh-IsValid = init-IsValid (replicate 300 0) 300 refl (omega arith)

moved-IsValid : IsValid moved
unfolding encode_client
moved-IsValid = record {
  storage = refl;
  small = omega arith;
  a_fits = omega arith;
  drained = λ e. absurd (omega arith);
  b_fits = refl;
}

fresh-room : room (init (replicate 300 0) 300) ≡ 300
unfolding get_stored_size init
fresh-room = room-drained fresh-IsValid refl

dispatch_packet-serve_example :
    dispatch_packet env 2 (world moved) 1
    ≡ serve env 1 (world moved) (move_request (replicate 12 7) ∷ [])
unfolding encode_client
dispatch_packet-serve_example =
    dispatch_packet-serve env 2 (move_request (replicate 12 7) ∷ []) (16 ∷ 0 ∷ []) (world moved) 1
      moved-IsValid (refl, tt) refl (inl (omega arith)) (omega arith)

world-AllValid : AllValid (world moved)
world-AllValid = record { sending = λ t. fresh-IsValid; receiving = λ t. moved-IsValid }

on_receive-Safe_example :
    Safe (on_receive env 5 (arrived (0 ∷ 16 ∷ 0 ∷ []) ∷ would_block ∷ []) (world moved) 1)
on_receive-Safe_example =
    on_receive-Safe env 5 (arrived (0 ∷ 16 ∷ 0 ∷ []) ∷ would_block ∷ []) (world moved) 1
      world-AllValid refl

broadcast_message-Reaches_example :
    (broadcast_message env (7 ∷ 8 ∷ []) (world quiet)
      ≡ ok (deliver_all env (7 ∷ 8 ∷ []) (world quiet) (1 ∷ 2 ∷ [])))
    × Reaches env
        (7 ∷ 8 ∷ [])
        (world quiet)
        (1 ∷ 2 ∷ [])
        (deliver_all env (7 ∷ 8 ∷ []) (world quiet) (1 ∷ 2 ∷ []))
broadcast_message-Reaches_example =
    let ready : IsReady (7 ∷ 8 ∷ []) (player quiet) = record {
      on = refl;
      valid = fresh-IsValid;
      fits = omega (arith, fresh-room);
    } in
    broadcast_message-Reaches env (7 ∷ 8 ∷ []) (world quiet) (refl, (refl, tt)) (ready, (ready, tt))

-- No room for a packet.
abbrev crowded : World
crowded = record (world quiet) { sessions = λ t. record (player quiet) { send_buffer = moved } }

moved-room : room moved ≡ 22
unfolding get_free_space_size encode_client
moved-room = refl

broadcast_message_overrun_example :
    broadcast_message env (replicate 30 1) crowded ≡ fault dead_iterator
broadcast_message_overrun_example =
    broadcast_message_overrun env (replicate 30 1) crowded 1 (2 ∷ []) refl refl refl refl refl refl
      moved-IsValid (omega (arith, moved-room))

send_flush-IsFlush_example : IsFlush moved (send_flush (takes 7 ∷ failed ∷ []) (crowded.sessions 1))
send_flush-IsFlush_example =
    send_flush-IsFlush (takes 7 ∷ failed ∷ []) (crowded.sessions 1) moved-IsValid

send_flush_done_example :
    let f = send_flush (replicate 18 (takes 3)) (crowded.sessions 1) in
    (f.answer ≡ some true) × (contents f.buffer ≡ []) × (f.wire ≡ contents moved)
unfolding get_stored_size
send_flush_done_example =
    send_flush_done (replicate 18 (takes 3)) (crowded.sessions 1) moved-IsValid refl (ground arith)
      (omega arith)

-- Acts at the manager: two players come, and one goes, and once more.
abbrev history : List Act
history = accept 1 [] ∷ start_game ∷ accept 2 [] ∷ remove 1 [] ∷ remove 1 [] ∷ []

came-fair : (cs : List Call) → came fair cs ≡ arrivals cs
unfolding came
came-fair [] = refl
came-fair (accept_player id ∷ cs) = ap (λ n. n + 1) (came-fair cs)
came-fair (remove_player id ∷ cs) = came-fair cs
came-fair (activate_game ∷ cs) = came-fair cs
came-fair (terminate_game ∷ cs) = came-fair cs
came-fair (process_ending ∷ cs) = came-fair cs

gone-fair : (cs : List Call) → gone fair cs ≤ removals cs
unfolding gone
gone-fair [] = omega arith
gone-fair (accept_player id ∷ cs) = gone-fair cs
gone-fair (remove_player id ∷ cs) = ground (arith, gone-fair cs)
gone-fair (activate_game ∷ cs) = gone-fair cs
gone-fair (terminate_game ∷ cs) = gone-fair cs
gone-fair (process_ending ∷ cs) = gone-fair cs

fair-RemovesActive : RemovesActive fair
fair-RemovesActive = record {
  removes_active = λ cs id e.
      let fewer : removals cs < arrivals cs = ground (arith, e) in
      omega (arith, fewer, came-fair cs, gone-fair cs);
}

act_all-counts_example :
    let m = act_all fair new_manager history in
    (m.accepted_count ≡ came fair m.calls)
    × (m.removed_count ≡ gone fair m.calls)
    × (m.removed_count ≤ m.accepted_count)
    × (m.accepted_count < 2 ^ 31)
act_all-counts_example = act_all-counts fair fair-RemovesActive history (omega arith)

-- The service has removed a player of it, and the manager has counted that.
history-counts :
    let m = act_all fair new_manager history in (m.accepted_count ≡ 2) × (m.removed_count ≡ 2)
unfolding act_all new_manager accept_player_session remove_player_session on_start_game_session
history-counts = (refl, refl)

-- Eight players have come and gone.
abbrev over : GameLiftManager
over = record new_manager { accepted_count = 8; removed_count = 8 }

lone-AtFront_unknown : AtFront (world (lone 2)) 1 (4 ∷ 0 ∷ 2 ∷ 0 ∷ [])
unfolding peek decode_header get_stored_size size_of_short
lone-AtFront_unknown = record { peeked = refl; complete = omega arith }

lone-AtFront_login : AtFront (world (lone 1)) 1 (4 ∷ 0 ∷ 1 ∷ 0 ∷ [])
unfolding peek decode_header get_stored_size size_of_short
lone-AtFront_login = record { peeked = refl; complete = omega arith }

two-IsUnregistered : IsUnregistered (decode_header (4 ∷ 0 ∷ 2 ∷ 0 ∷ [])).type
unfolding decode_header invalid_type
two-IsUnregistered = record {
  in_range = refl;
  no_login = omega arith;
  no_exit = omega arith;
  no_chat = omega arith;
  no_move = omega arith;
}

four-IsStarved : IsStarved (decode_header (4 ∷ 0 ∷ 1 ∷ 0 ∷ [])).type (get_stored_size (lone 1))
unfolding decode_header get_stored_size
four-IsStarved = login refl (omega arith)

dispatch_packet_unregistered_example :
    dispatch_packet env 100 (world (lone 2)) 1 ≡ fault still_running
dispatch_packet_unregistered_example =
    dispatch_packet_unregistered env 100 lone-AtFront_unknown two-IsUnregistered

dispatch_packet_starved_example : dispatch_packet env 100 (world (lone 1)) 1 ≡ fault still_running
dispatch_packet_starved_example = dispatch_packet_starved env 100 lone-AtFront_login four-IsStarved

on_receive_closed_example :
    on_receive env 2 (replicate 9 (arrived [])) (world quiet) 1 ≡ fault still_running
unfolding get_stored_size init
on_receive_closed_example =
    on_receive_closed env 1 9 (world quiet) 1 quiet-IsValid refl (omega arith)
