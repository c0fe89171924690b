-- ===== src/Server/Roster.antt =====
-- GameLiftManager.cpp: the players of the game session, and when it ends.
use game_lift.Prelude.{ℕ, ◌+◌, Bool, true, false, ◌&&◌, List, [], ◌∷◌, leb, if◌then◌else◌}
use game_lift.Packet.{max_player_per_game}
use game_lift.Server.State.{
  accept_player, remove_player, activate_game, terminate_game, process_ending, GameLiftManager,
  Services, insert, erase,
}

-- The constructor.
unfoldable pub new_manager : GameLiftManager
new_manager = record {
  activated = false;
  accepted_count = 0;
  removed_count = 0;
  player_sessions = [];
  calls = [];
}

-- The end of `InitializeGameLift`, after `InitSDK` and `ProcessReady` with these outcomes.
unfoldable pub initialize_game_lift : Bool → Bool → GameLiftManager → Bool × GameLiftManager
initialize_game_lift init_ok ready_ok m =
    if init_ok
    then (if ready_ok
        then (true, record m { activated = true; accepted_count = 0; removed_count = 0 })
        else (false, m))
    else (false, m)

unfoldable pub on_start_game_session : GameLiftManager → GameLiftManager
on_start_game_session m = record m { calls = activate_game ∷ m.calls }

unfoldable pub on_process_terminate : GameLiftManager → GameLiftManager
on_process_terminate m = record m {
  activated = false;
  calls = process_ending ∷ terminate_game ∷ m.calls;
}

unfoldable pub on_health_check : GameLiftManager → Bool
on_health_check m = m.activated

unfoldable pub check_terminate_game_session : GameLiftManager → GameLiftManager
check_terminate_game_session m =
    if leb max_player_per_game m.accepted_count && leb max_player_per_game m.removed_count
    then record m { activated = false; calls = process_ending ∷ terminate_game ∷ m.calls }
    else m

module _ (env : Services) where
  unfoldable pub accept_player_session : GameLiftManager → ℕ → List ℕ → Bool × GameLiftManager
  accept_player_session m s id =
      if env.accepts m.calls id
      then (
        true,
        record m {
          accepted_count = m.accepted_count + 1;
          player_sessions = insert s m.player_sessions;
          calls = accept_player id ∷ m.calls;
        },
      )
      else (false, record m { calls = accept_player id ∷ m.calls })

  -- The part of `RemovePlayerSession` before `CheckTerminateGameSession`.
  pub removed : GameLiftManager → ℕ → List ℕ → GameLiftManager
  removed m s id =
      if env.removes m.calls id
      then record m {
        player_sessions = erase s m.player_sessions;
        removed_count = m.removed_count + 1;
        calls = remove_player id ∷ m.calls;
      }
      else record m { calls = remove_player id ∷ m.calls }

  unfoldable pub remove_player_session : GameLiftManager → ℕ → List ℕ → GameLiftManager
  unfolding removed check_terminate_game_session
  remove_player_session m s id = check_terminate_game_session (removed m s id)
