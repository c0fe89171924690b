-- ===== src/Game/Manager.antt =====
-- GameLiftManager.cpp and the set of players of GameSession.cpp. `FastSpinlockGuard` takes the lock
-- for writing, and a thread that holds it waits for itself.
use game_lift.Prelude.{
  ℕ, ◌+◌, Bool, true, false, ◌&&◌, Option, none, some, List, [], ◌∷◌, leb, if◌then◌else◌,
}
use game_lift.Packet.{max_player_per_game}
use game_lift.Server.State.{
  accept_player, remove_player, activate_game, terminate_game, process_ending, null_session, insert,
  erase,
}
use game_lift.Game.State.{GameLiftManager, Services, Ending, returns, ends, hangs, fails, ◌>>=◌}

-- The constructor.
unfoldable pub new_manager : GameLiftManager
new_manager = record {
  locked = false;
  activated = false;
  accepted_count = 0;
  removed_count = 0;
  game_session = none;
  calls = [];
}

-- `InitializeGameLift`, when `InitSDK` and `ProcessReady` have these outcomes.
unfoldable pub initialize_game_lift : Bool → Bool → GameLiftManager → Bool × GameLiftManager
initialize_game_lift init_ok ready_ok m =
    if init_ok
    then (if ready_ok
        then (true, record m { activated = true; accepted_count = 0; removed_count = 0 })
        else (false, m))
    else (false, m)

-- `FastSpinlockGuard lock(mLock)`, and the end of its scope.
unfoldable pub enter : GameLiftManager → Ending GameLiftManager
enter m = if m.locked then hangs else returns (record m { locked = true })

abbrev pub leave : GameLiftManager → GameLiftManager
leave m = record m { locked = false }

-- `GameSession::PlayerEnter` and `GameSession::PlayerLeave`.
abbrev pub player_enter : ℕ → List ℕ → List ℕ
player_enter s players = insert s players

abbrev pub player_leave : ℕ → List ℕ → List ℕ
player_leave s players = erase s players

-- `TerminateGameSession`: the process is no more.
unfoldable pub terminate_game_session : ℕ → GameLiftManager → Ending GameLiftManager
terminate_game_session exit_code m = ends exit_code (record m {
  game_session = none;
  calls = process_ending ∷ terminate_game ∷ m.calls;
  activated = false;
})

unfoldable pub check_terminate_game_session : GameLiftManager → Ending GameLiftManager
unfolding terminate_game_session
check_terminate_game_session m =
    if (leb max_player_per_game m.accepted_count && leb max_player_per_game m.removed_count)
      && m.activated
    then terminate_game_session 37 m
    else returns m

unfoldable pub on_start_game_session : GameLiftManager → Ending GameLiftManager
unfolding enter
on_start_game_session m = enter m >>= λ held.
    returns (leave (record held { calls = activate_game ∷ held.calls; game_session = some [] }))

-- The exit code is `0xDEAD`.
unfoldable pub on_process_terminate : GameLiftManager → Ending GameLiftManager
unfolding enter terminate_game_session
on_process_terminate m = enter m >>= λ held.
    (if held.activated then terminate_game_session 57005 held else returns held) >>= λ m'.
    returns (leave m')

unfoldable pub on_health_check : GameLiftManager → Bool
on_health_check m = m.activated

-- `++mAcceptedCount; mGameSession->PlayerEnter(psess)`, through a pointer that may be null.
unfoldable pub entered : ℕ → Option (List ℕ) → GameLiftManager → Ending GameLiftManager
entered s none m = fails null_session
entered s (some players) m = returns (record m {
  accepted_count = m.accepted_count + 1;
  game_session = some (player_enter s players);
})

-- `mGameSession->PlayerLeave(psess); ++mRemovedCount`
unfoldable pub left : ℕ → Option (List ℕ) → GameLiftManager → Ending GameLiftManager
left s none m = fails null_session
left s (some players) m =
    returns (record m {
      game_session = some (player_leave s players);
      removed_count = m.removed_count + 1;
    })

module _ (env : Services) where
  -- What `AcceptPlayerSession` does once it has the lock.
  unfoldable pub accept_locked : GameLiftManager → ℕ → List ℕ → Ending (Bool × GameLiftManager)
  unfolding entered
  accept_locked m s id =
      let asked = record m { calls = accept_player id ∷ m.calls } in
      if env.accepts m.calls id
      then (entered s m.game_session asked >>= λ m'. returns (true, leave m'))
      else returns (false, leave asked)

  unfoldable pub accept_player_session :
      GameLiftManager → ℕ → List ℕ → Ending (Bool × GameLiftManager)
  unfolding enter accept_locked
  accept_player_session m s id = enter m >>= λ held. accept_locked held s id

  unfoldable pub remove_locked : GameLiftManager → ℕ → List ℕ → Ending GameLiftManager
  unfolding left check_terminate_game_session
  remove_locked m s id =
      let asked = record m { calls = remove_player id ∷ m.calls } in
      (if env.removes m.calls id then left s m.game_session asked else returns asked) >>= λ m'.
      check_terminate_game_session m' >>= λ m''. returns (leave m'')

  unfoldable pub remove_player_session : GameLiftManager → ℕ → List ℕ → Ending GameLiftManager
  unfolding enter remove_locked
  remove_player_session m s id = enter m >>= λ held. remove_locked held s id
