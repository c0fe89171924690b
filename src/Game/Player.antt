-- ===== src/Game/Player.antt =====
-- PlayerSession.cpp, and how it hears of the end of its connection: `Disconnect` of Session.cpp calls
-- the virtual `OnDisconnect`. `BroadcastMessage` of GameSession.cpp and GameLiftManager.cpp.
use game_lift.Prelude.{
  ℕ, Bool, true, false, ◌&&◌, not, Option, none, some, List, [], ◌∷◌, ltb, length, if◌then◌else◌,
}
use game_lift.Packet.{login_result}
use game_lift.Server.State.{Result, ok, fault, null_session}
use game_lift.Overlapped
use game_lift.Overlapped.{DisconnectReason, dr_sendbuffer_error, dr_unauth, dr_logout, Session}
use game_lift.Game.State.{PlayerSession, World, Services, Ending, returns, fails, ◌>>=◌, put_player}
use game_lift.Game.Manager.{enter, leave, accept_player_session, remove_player_session}

-- `IsValid()`
abbrev pub has_player : PlayerSession → Bool
has_player p = ltb 0 (length p.player_session_id)

-- The session part of an object.
abbrev pub put_session : World → ℕ → Session → World
put_session w s c = put_player w s (record (w.players s) { session = c })

abbrev pub put_id : World → ℕ → List ℕ → World
put_id w s id = put_player w s (record (w.players s) { player_session_id = id })

module _ (env : Services) where
  unfoldable pub on_disconnect : World → ℕ → Ending World
  on_disconnect w s =
      if has_player (w.players s)
      then (remove_player_session env w.manager s (w.players s).player_session_id >>= λ m.
          returns (put_id (record w { manager = m }) s []))
      else returns w

  unfoldable pub disconnect : DisconnectReason → World → ℕ → Ending World
  unfolding on_disconnect
  disconnect dr w s =
      if (w.players s).session.connected
      then on_disconnect (put_session w s (Overlapped.disconnect dr (w.players s).session)) s
      else returns w

  -- What `PostSend` of the session returns. If it closed the session, in `FlushSend`, then
  -- `OnDisconnect` has run there, which is the last thing that `FlushSend` does.
  unfoldable pub posted : World → ℕ → Result (Bool × Session) → Ending (Bool × World)
  unfolding on_disconnect
  posted w s (fault e) = fails e
  posted w s (ok (sent, c)) =
      if (w.players s).session.connected && not c.connected
      then (on_disconnect (put_session w s c) s >>= λ w'. returns (sent, w'))
      else returns (sent, put_session w s c)

  unfoldable pub post_send : World → ℕ → List ℕ → Ending (Bool × World)
  unfolding posted
  post_send w s bytes =
      let c = (w.players s).session in posted w s (Overlapped.post_send (env.takes s c) bytes c)

  -- What `PlayerLogin` does after `AcceptPlayerSession`.
  unfoldable pub finish_login : Bool → World → ℕ → List ℕ → Ending World
  unfolding post_send disconnect
  finish_login true w s id = post_send (put_id w s id) s (login_result id) >>= λ r. returns r.1
  finish_login false w s id = disconnect dr_unauth w s

  unfoldable pub player_login : World → ℕ → List ℕ → Ending World
  unfolding finish_login
  player_login w s id = accept_player_session env w.manager s id >>= λ r.
      finish_login r.0 (record w { manager = r.1 }) s id

  unfoldable pub player_logout : World → ℕ → List ℕ → Ending World
  unfolding disconnect
  player_logout w s id = remove_player_session env w.manager s id >>= λ m.
      disconnect dr_logout (put_id (record w { manager = m }) s []) s

  module _ (pkt : List ℕ) where
    -- One turn of the loop of `GameSession::BroadcastMessage`.
    unfoldable pub broadcast_to : World → ℕ → Ending World
    unfolding post_send disconnect
    broadcast_to w s = post_send w s pkt >>= λ r.
        (if r.0 then returns r.1 else disconnect dr_sendbuffer_error r.1 s)

    -- The set does not change in the loop: `PlayerLeave` needs the lock, which is held.
    unfoldable pub broadcast_from : World → List ℕ → Ending World
    unfolding broadcast_to
    broadcast_from w [] = returns w
    broadcast_from w (s ∷ rest) = broadcast_to w s >>= λ w'. broadcast_from w' rest

    unfoldable pub broadcast_session : Option (List ℕ) → World → Ending World
    unfolding broadcast_from
    broadcast_session none w = fails null_session
    broadcast_session (some players) w = broadcast_from w players

    -- `GameLiftManager::BroadcastMessage`
    unfoldable pub broadcast_message : World → Ending World
    unfolding enter broadcast_session
    broadcast_message w = enter w.manager >>= λ held.
        broadcast_session held.game_session (record w { manager = held }) >>= λ w'.
        returns (record w' { manager = leave w'.manager })
