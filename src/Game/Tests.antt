-- ===== src/Game/Tests.antt =====
-- The theorems of the game layer at a game with two players.
use game_lift.Prelude.{
  ℕ, ◌+◌, ◌≤◌, List, length, ◌≡◌, refl, true, false, none, some, [], ◌∷◌, arith, replicate,
}
use game_lift.Buffer.{CircularBuffer, init, get_stored_size, peek, commit}
use game_lift.Buffer.Inv.{IsValid, contents, init-IsValid}
use game_lift.Buffer.Fill.{room, room-drained, Put}
use game_lift.Packet.{decode_header, size_of_short, invalid_type}
use game_lift.Server.State.{still_running, member}
use game_lift.Server.Stuck.{IsUnregistered}
use game_lift.Overlapped.{Session, dr_active}
use game_lift.Game.State.{World, PlayerSession, Services, returns, hangs, fails}
use game_lift.Game.Manager.{new_manager}
use game_lift.Game.Player.{broadcast_message, player_login, player_logout, disconnect}
use game_lift.Game.Handlers.{on_read}
use game_lift.Game.Agreement.{
  accept, remove, terminate, run, started_there, Agreement, run-Agreement,
}
use game_lift.Game.Delivery.{IsReady, Got, broadcast_message-Got, broadcast_message_hangs}
use game_lift.Game.Receive.{RecvContext, post_recv, received, post_recv-Put}
use game_lift.Game.Locking.{Frees, calls-Frees}
use game_lift.Game.Stuck.{AtFront, on_read_unregistered}

-- Services that agree to everything.
abbrev env : Services
env = record { accepts = λ calls id. true; removes = λ calls id. true; takes = λ s c. true }

abbrev connection : CircularBuffer → Session
connection b = record {
  connected = true;
  send_buffer = b;
  send_pending_count = 0;
  disconnects = [];
  in_flight = [];
  wire = [];
  posted = [];
}

-- Two players whose objects have the same contents.
abbrev world : CircularBuffer → World
world b = record {
  players =
      λ t. record { session = connection b; recv_buffer = init [] 0; player_session_id = 65 ∷ [] };
  manager = record new_manager { activated = true; game_session = some (1 ∷ 2 ∷ []) };
}

abbrev empty_buffer : CircularBuffer
empty_buffer = init (replicate 300 0) 300

empty_buffer-IsValid : IsValid empty_buffer
empty_buffer-IsValid = init-IsValid (replicate 300 0) 300 refl (omega arith)

empty_buffer-room : room empty_buffer ≡ 300
unfolding get_stored_size init
empty_buffer-room = room-drained empty_buffer-IsValid refl

run-Agreement_example :
    Agreement env
      (run env (accept 1 (65 ∷ []) ∷ remove 1 (65 ∷ []) ∷ terminate ∷ accept 2 [] ∷ []))
      started_there
      (accept 1 (65 ∷ []) ∷ remove 1 (65 ∷ []) ∷ terminate ∷ accept 2 [] ∷ [])
run-Agreement_example =
    run-Agreement env (accept 1 (65 ∷ []) ∷ remove 1 (65 ∷ []) ∷ terminate ∷ accept 2 [] ∷ [])

broadcast_message-Got_example :
    let w = world empty_buffer in
    (w' : World) × (broadcast_message env (7 ∷ 8 ∷ []) w ≡ returns w')
    × (w'.manager ≡ w.manager)
    × ((t : ℕ) → member t (1 ∷ 2 ∷ []) ≡ true → Got env (7 ∷ 8 ∷ []) (w.players t) (w'.players t))
    × ((t : ℕ) → member t (1 ∷ 2 ∷ []) ≡ false → w'.players t ≡ w.players t)
unfolding new_manager
broadcast_message-Got_example =
    let ready : (s : ℕ) → IsReady env (7 ∷ 8 ∷ []) s (connection empty_buffer) = λ s. record {
      on = refl;
      valid = empty_buffer-IsValid;
      fits = omega (arith, empty_buffer-room);
      takes = refl;
    } in
    broadcast_message-Got env (7 ∷ 8 ∷ []) (world empty_buffer) refl (1 ∷ 2 ∷ []) refl
      (refl, (refl, tt)) (ready 1, (ready 2, tt))

broadcast_message_hangs_example :
    broadcast_message env (replicate 301 7) (world empty_buffer) ≡ hangs
unfolding new_manager
broadcast_message_hangs_example =
    broadcast_message_hangs env (replicate 301 7) (world empty_buffer) refl [] 1 (2 ∷ []) refl tt
      refl tt
      (record {
        on = refl;
        player = refl;
        valid = empty_buffer-IsValid;
        over = omega (arith, empty_buffer-room);
      })

-- A header of a type that has no handler, from a session that has not logged in.
abbrev unknown : CircularBuffer
unknown = record {
  buffer = 4 ∷ 0 ∷ 2 ∷ 0 ∷ 0 ∷ 0 ∷ [];
  capacity = 6;
  a_pointer = 0;
  a_size = 4;
  b_pointer = none;
  b_size = 0;
}

abbrev stranger : World
stranger = record (world empty_buffer) {
  players = λ t. record {
    session = connection empty_buffer;
    recv_buffer = unknown;
    player_session_id = [];
  };
}

unknown-AtFront : AtFront unknown (4 ∷ 0 ∷ 2 ∷ 0 ∷ [])
unfolding peek decode_header get_stored_size size_of_short
unknown-AtFront = record { peeked = refl; complete = omega arith }

two-IsUnregistered : IsUnregistered (decode_header (4 ∷ 0 ∷ 2 ∷ 0 ∷ [])).type
unfolding decode_header invalid_type
two-IsUnregistered = record {
  in_range = refl;
  no_login = omega arith;
  no_exit = omega arith;
  no_chat = omega arith;
  no_move = omega arith;
}

on_read_unregistered_example : on_read env 100 stranger 1 ≡ fails still_running
on_read_unregistered_example =
    on_read_unregistered env 100 stranger 1 unknown-AtFront two-IsUnregistered refl

-- A session that receives into an empty buffer.
abbrev receiver : PlayerSession
receiver = record {
  session = connection empty_buffer;
  recv_buffer = empty_buffer;
  player_session_id = [];
}

post_recv-Put_example :
    (context : RecvContext) × (b : CircularBuffer) × (post_recv true receiver
      ≡ (true, some context, b))
    × (context.buf + context.len ≤ receiver.recv_buffer.capacity)
    × (contents b ≡ contents receiver.recv_buffer)
    × ((bytes : List ℕ)
        → length bytes ≤ context.len
        → Put receiver.recv_buffer bytes (commit (received context bytes b) (length bytes)))
post_recv-Put_example =
    post_recv-Put receiver refl empty_buffer-IsValid (omega (arith, empty_buffer-room))

calls-Frees_example :
    let w = world empty_buffer in
    Frees (λ w'. w'.manager.locked) (player_login env w 3 (66 ∷ []))
    × Frees (λ w'. w'.manager.locked) (player_logout env w 3 (66 ∷ []))
    × Frees (λ w'. w'.manager.locked) (disconnect env dr_active w 3)
unfolding new_manager
calls-Frees_example = calls-Frees env (world empty_buffer) 3 (66 ∷ []) dr_active refl
