-- ===== src/Dummy/Manager.antt =====
-- GameLiftManager.cpp of DummyClients: all game sessions of the process. The n-th game session has
-- the n-th service; `Sleep` and the log are left out.
pub mod Launches
pub mod Ends
use game_lift.Prelude.{ℕ, zero, suc, ◌+◌, ◌*◌, Option, none, some, List, [], ◌∷◌, ◌++◌}
use game_lift.Packet.{max_player_per_game}
use game_lift.Dummy.State.{System, Ending, returns, crashes, ◌>>=◌}
use game_lift.Dummy.Games.{
  GameSession, Service, prepare_player_sessions, create_game_session, start_game_session_placement,
  disconnect_player_sessions, launched,
}

-- The constructor, as `PrepareGameSessions` calls it; the client of `main` has some region.
unfoldable pub new_game_session : List ℕ → ℕ → GameSession
new_game_session region i = record {
  ready_session_list = [];
  start_player_id = i * max_player_per_game;
  max_player_count = max_player_per_game;
  place = none;
  region = region;
  player_session_list = [];
}

-- The first game session, and the rest of the loop: a crash ends the loop.
unfoldable pub launched_then :
    Option (Ending GameSession)
    → Option (Ending (List GameSession))
    → Option (Ending (List GameSession))
launched_then none rest = none
launched_then (some (crashes e)) rest = some (crashes e)
launched_then (some (returns gs)) none = none
launched_then (some (returns gs)) (some rest) = some (rest >>= λ gss. returns (gs ∷ gss))

module _ (svc : ℕ → Service) where
  unfoldable pub prepare_sessions : List ℕ → ℕ → ℕ → List GameSession → List GameSession
  prepare_sessions region zero i gss = gss
  prepare_sessions region (suc left) i gss =
      prepare_sessions region left (i + 1)
        (gss ++ ((prepare_player_sessions (svc i) (new_game_session region i)).1 ∷ []))

  -- `PrepareGameSessions`, once.
  unfoldable pub prepare_game_sessions : List ℕ → ℕ → List GameSession
  unfolding prepare_sessions
  prepare_game_sessions region gs_count = prepare_sessions region gs_count 0 []

  -- `LaunchGameSessions` from the `i`-th on; `none` while a service is still asked, after so many
  -- questions.
  unfoldable pub launch_game_sessions :
      System → ℕ → ℕ → ℕ → List GameSession → Option (Ending (List GameSession))
  unfolding launched launched_then create_game_session
  launch_game_sessions env fuel rounds i [] = some (returns [])
  launch_game_sessions env fuel rounds i (gs ∷ gss) =
      launched_then (launched env fuel (svc i) (create_game_session (svc i) rounds gs))
        (launch_game_sessions env fuel rounds (i + 1) gss)

  -- `LaunchGameSessionPlacement` from the `i`-th on, with the configured region.
  unfoldable pub launch_game_session_placement :
      System → ℕ → ℕ → List ℕ → ℕ → List GameSession → Option (Ending (List GameSession))
  unfolding launched launched_then start_game_session_placement
  launch_game_session_placement env fuel rounds region i [] = some (returns [])
  launch_game_session_placement env fuel rounds region i (gs ∷ gss) =
      launched_then
        (launched env fuel (svc i) (start_game_session_placement (svc i) rounds region gs))
        (launch_game_session_placement env fuel rounds region (i + 1) gss)

unfoldable pub terminate_game_sessions : System → ℕ → List GameSession → Ending (List GameSession)
unfolding disconnect_player_sessions
terminate_game_sessions env fuel [] = returns []
terminate_game_sessions env fuel (gs ∷ gss) = disconnect_player_sessions env fuel gs >>= λ gs'.
    terminate_game_sessions env fuel gss >>= λ gss'. returns (gs' ∷ gss')
