-- ===== src/Server/Lifecycle.antt =====
-- A session's way through `Disconnect`, `PlayerLogin` and `PlayerLogout`.
use game_lift.Prelude.{ℕ, ◌≡◌, false, List, arith}
use game_lift.Server.State.{World, Services}
use game_lift.Server.Roster.{accept_player_session, remove_player_session}
use game_lift.Server.Session.{disconnect, player_login, player_logout}

module _ (env : Services) where
  -- In every state, a second `Disconnect` of a session changes nothing.
  pub disconnect_idem :
      (w : World) (s : ℕ) → disconnect env (disconnect env w s) s ≡ disconnect env w s
  unfolding disconnect
  disconnect_idem w s = ground arith

  -- `PlayerLogout` removes the player at the manager once: neither the `Disconnect` in it nor a
  -- later one removes a player again.
  pub player_logout_once :
      (w : World) (s : ℕ) (id : List ℕ)
      → ((player_logout env w s id).manager ≡ remove_player_session env w.manager s id)
        × ((disconnect env (player_logout env w s id) s).manager
            ≡ remove_player_session env w.manager s id)
  unfolding player_logout
  player_logout_once w s id = (ground arith, ground arith)

  -- `PlayerLogin` that the service refuses: the session is disconnected, and the players stay.
  pub player_login_refused :
      (w : World) (s : ℕ) (id : List ℕ)
      → env.accepts w.manager.calls id ≡ false
      → player_login env w s id
        ≡ disconnect env (record w { manager = (accept_player_session env w.manager s id).1 }) s
  unfolding player_login accept_player_session
  player_login_refused w s id e = ground arith
