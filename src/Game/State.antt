-- ===== src/Game/State.antt =====
-- The objects of the Windows server: the manager with its lock and its game session, the sessions of
-- the players; and what a call can end in.
use game_lift.Prelude.{ℕ, Bool, Option, List, ◌==◌, [], if◌then◌else◌}
use game_lift.Buffer.{CircularBuffer, init}
use game_lift.Server.State.{Call, Fault, Result, ok, fault}
use game_lift.Overlapped
use game_lift.Overlapped.{Session}

-- `class GameLiftManager`. `locked` says that a thread holds `mLock` for writing; `game_session` is
-- `mGameSession`: null, or the set of players of the `GameSession`.
pub record GameLiftManager : Type 0 where
  pub locked : Bool
  pub activated : Bool
  pub accepted_count : ℕ
  pub removed_count : ℕ
  pub game_session : Option (List ℕ)
  -- the calls of the SDK made so far, the last one first
  pub calls : List Call

-- `class PlayerSession`, and what it has of `class Session`.
pub record PlayerSession : Type 0 where
  pub session : Session
  pub recv_buffer : CircularBuffer
  pub player_session_id : List ℕ

-- A session object is named by a number.
pub record World : Type 0 where
  pub players : ℕ → PlayerSession
  pub manager : GameLiftManager

-- What is not code of the repository: the outcomes of the SDK's calls, given the calls before, and
-- whether `WSASend` takes a send of a session.
pub record Services : Type 0 where
  pub accepts : List Call → List ℕ → Bool
  pub removes : List Call → List ℕ → Bool
  pub takes : ℕ → Session → Bool

-- What a call ends in.
pub data Ending {ℓ} (A : Type ℓ) : Type ℓ where
  returns : A → Ending A
  -- `TerminateProcess` with this exit code
  ends : ℕ → GameLiftManager → Ending A
  -- the thread waits for a lock that it holds itself
  hangs : Ending A
  fails : Fault → Ending A

infixl 5 ◌>>=◌
abbrev pub ◌>>=◌ {ℓ κ} : {A : Type ℓ} {B : Type κ} → Ending A → (A → Ending B) → Ending B
returns a >>= f = f a
ends code m >>= f = ends code m
hangs >>= f = hangs
fails e >>= f = fails e

abbrev pub from_result {ℓ} : {A : Type ℓ} → Result A → Ending A
from_result (ok a) = returns a
from_result (fault e) = fails e

-- `CLIENT_BUFSIZE`
abbrev pub client_bufsize : ℕ
client_bufsize = 65536

-- The constructor, on what `new char[CLIENT_BUFSIZE]` returns for the two buffers.
unfoldable pub new_player : List ℕ → List ℕ → PlayerSession
new_player send_storage recv_storage = record {
  session = Overlapped.new_session send_storage client_bufsize;
  recv_buffer = init recv_storage client_bufsize;
  player_session_id = [];
}

abbrev pub update {ℓ} : {A : Type ℓ} → (ℕ → A) → ℕ → A → ℕ → A
update f s a t = if s == t then a else f t

abbrev pub put_player : World → ℕ → PlayerSession → World
put_player w s p = record w { players = update w.players s p }
