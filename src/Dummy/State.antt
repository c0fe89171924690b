-- ===== src/Dummy/State.antt =====
-- The objects of DummyClients: a player's session with the sends and receives that the system has,
-- what a call can end in, and what the system answers.
use game_lift.Prelude.{ℕ, Bool, false, List, []}
use game_lift.Prelude.Int.{ℤ, pos}
use game_lift.Buffer.{CircularBuffer, init}
use game_lift.Packet.{ClientPacket}
use game_lift.Overlapped.{DisconnectReason}

-- `OverlappedIOContext` by its `mIoType`, with the length of its `mWsaBuf`, where a receive may
-- write, and `mDisconnectReason`.
pub data Context : Type 0 where
  io_send : ℕ → Context
  io_recv : ℕ → ℕ → Context
  io_recv_zero : Context
  io_disconnect : DisconnectReason → Context
  io_connect : Context

-- `class PlayerSession` with what it has of `Session` and `AsyncExecutable`. `ref_count` is
-- `mRefCount`; a coordinate is an integer, which a `float` holds exactly up to 2 ^ 24.
-- `play_test_count` is an `int`, whose overflow has no meaning: it stands for the code below 2 ^ 31.
pub record PlayerSession : Type 0 where
  pub connected : Bool
  pub ref_count : ℕ
  pub recv_buffer : CircularBuffer
  pub send_buffer : CircularBuffer
  pub send_requested_count : ℕ
  pub player_session_id : List ℕ
  pub player_idx : ℕ
  pub pos_x : ℤ
  pub pos_y : ℤ
  pub curr_dir : ℕ
  pub move_step : ℕ
  pub play_test_count : ℕ
  -- Not of the code: the contexts that the system has; how many calls it was asked to complete
  -- later, and how many values `rand` gave; the packets that were given to `PostSend`.
  pub in_flight : List Context
  pub calls : ℕ
  pub rands : ℕ
  pub requests : List ClientPacket
  -- The `PlayTest` jobs in a timer; the `AddRef` of `ConnectPlayerSessions` for which no
  -- `DisconnectCompletion` came yet; and the calls of `OnRelease`.
  pub timers : ℕ
  pub held : ℕ
  pub released : ℕ

-- `CLIENT_BUFSIZE`
abbrev pub client_bufsize : ℕ
client_bufsize = 65536

-- The constructors, on what `new char[CLIENT_BUFSIZE]` returns; `mPlayerIdx` -1 as a 32-bit pattern.
unfoldable pub new_player : List ℕ → List ℕ → PlayerSession
new_player recv_storage send_storage = record {
  connected = false;
  ref_count = 0;
  recv_buffer = init recv_storage client_bufsize;
  send_buffer = init send_storage client_bufsize;
  send_requested_count = 0;
  player_session_id = [];
  player_idx = 4294967295;
  pos_x = pos 0;
  pos_y = pos 0;
  curr_dir = 0;
  move_step = 0;
  play_test_count = 0;
  in_flight = [];
  calls = 0;
  rands = 0;
  requests = [];
  timers = 0;
  held = 0;
  released = 0;
}

-- What is not code of the repository: whether the system takes the n-th call to be completed later,
-- the n-th value of `rand`, what stands in an array that was not written before the n-th value of
-- `rand` is drawn, the bytes of a `float`; and `PLAYER_ACTION_REQUEST`, which a file configures.
pub record System : Type 0 where
  pub accepts : ℕ → Bool
  pub rand : ℕ → ℕ
  pub unwritten : ℕ → List ℕ
  pub float_bytes : ℤ → List ℕ
  pub player_action_request : ℕ

-- Why a call does not return.
pub data Crash : Type 0 where
  -- `CRASH_ASSERT` of `ReleaseRef`, of `SendCompletion`, of `ConnectRequest` and `ConnectCompletion`
  no_reference nothing_sent already_connected : Crash
  -- `CRASH_ASSERT` where a socket's option cannot be set, and `assert` in the circular buffer
  socket_option buffer_assertion : Crash
  -- `sprintf_s` ends the program, since a text does not fit
  text_overrun : Crash
  -- an iterator is read through at the end of its list
  past_the_end : Crash
  -- the rounds that the model allows are used up
  still_running : Crash

pub data Ending {ℓ} (A : Type ℓ) : Type ℓ where
  returns : A → Ending A
  crashes : Crash → Ending A

infixl 5 ◌>>=◌
abbrev pub ◌>>=◌ {ℓ κ} : {A : Type ℓ} {B : Type κ} → Ending A → (A → Ending B) → Ending B
returns a >>= f = f a
crashes e >>= f = crashes e
