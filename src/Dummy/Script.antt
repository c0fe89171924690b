-- ===== src/Dummy/Script.antt =====
-- The script of a dummy player: it chats and moves as often as it is configured to, and leaves.
pub mod Walk
pub mod Acts
pub mod Plays
use game_lift.Prelude.{ℕ, ◌+◌, ◌≤◌, ◌≡◌, List, [], ◌∷◌, ◌++◌, ◌*◌}
use game_lift.Prelude.Int.{ℤ, above, below}
use game_lift.Packet.{ClientPacket, login_request, chat_request, move_request, exit_request}
use game_lift.Dummy.State.{PlayerSession}

-- What the script is about.
pub record Script : Type 0 where
  pub requests : List ClientPacket
  pub timers : ℕ
  pub play_test_count : ℕ
  pub player_session_id : List ℕ
  pub pos_x : ℤ
  pub pos_y : ℤ

abbrev pub script : PlayerSession → Script
script s = record {
  requests = s.requests;
  timers = s.timers;
  play_test_count = s.play_test_count;
  player_session_id = s.player_session_id;
  pos_x = s.pos_x;
  pos_y = s.pos_y;
}

-- A chat under the player's identifier, or a move.
abbrev pub IsAction : List ℕ → ClientPacket → Type 0
IsAction id (login_request i) = ⊥
IsAction id (chat_request i chat) = i ≡ id
IsAction id (move_request body) = Unit {0}
IsAction id (exit_request i) = ⊥

abbrev pub AllActions : List ℕ → List ClientPacket → Type 0
AllActions id [] = Unit {0}
AllActions id (p ∷ ps) = IsAction id p × AllActions id ps

-- Where a player is after at most `k` moves from the place where it starts.
pub record IsNear (k : ℕ) (s : Script) : Type 0 where
  pub right : above s.pos_x ≤ 480 + 15 * k
  pub left : below s.pos_x ≤ 15 * k
  pub up : above s.pos_y ≤ 320 + 12 * k
  pub down : below s.pos_y ≤ 12 * k
