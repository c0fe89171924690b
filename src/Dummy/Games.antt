-- ===== src/Dummy/Games.antt =====
-- GameSession.cpp and GameLiftManager.cpp of DummyClients: a game session is asked for at the
-- GameLift service, and its players connect to it. What the service and the system answer is a
-- parameter; the waits between questions are left out.
pub mod Prepares
pub mod Connects
pub mod Polls
use game_lift.Prelude.{
  ℕ, zero, suc, ◌+◌, ◌-◌, Bool, true, false, Option, none, some, List, [], ◌∷◌, ◌++◌, if◌then◌else◌,
}
use game_lift.Dummy.State.{
  PlayerSession, System, past_the_end, Ending, returns, crashes, ◌>>=◌, new_player,
}
use game_lift.Dummy.Session.{disconnect_request}
use game_lift.Dummy.Events.{happen, closes, connect_player}

-- Where a game session runs, and its identifier.
pub record Place : Type 0 where
  pub port : ℕ
  pub ip_address : List ℕ
  pub game_session_id : List ℕ
  pub region : List ℕ

-- `GameSessionStatus` and `GameSessionPlacementState`
pub data GameSessionStatus : Type 0 where
  activating active terminated terminating error : GameSessionStatus

pub data PlacementState : Type 0 where
  pending fulfilled cancelled timed_out failed : PlacementState

-- `class GameSession`, with the players themselves for the pointers to them; `mLock` is left out,
-- since a call is one step. `place` is `mPort`, `mIpAddress` and `mGameSessionId`, and `region` that
-- of the manager's client.
pub record GameSession : Type 0 where
  pub ready_session_list : List PlayerSession
  pub start_player_id : ℕ
  pub max_player_count : ℕ
  pub place : Option Place
  pub region : List ℕ
  pub player_session_list : List (List ℕ)

-- What the service answers, `none` for a failure: to `CreateGameSession`, to the n-th
-- `DescribeGameSessions`, to `CreatePlayerSessions`, to `StartGameSessionPlacement` and to the n-th
-- `DescribeGameSessionPlacement`; whether the n-th `PrepareSession` succeeds; the storage of the n-th
-- player's buffers; `TEST_PLAYER_SESSION_EXCEPT`, where no more players are configured than a game
-- has; whether the alias is TEST_LOCAL; and what it answers to `SearchGameSessions`.
pub record Service : Type 0 where
  pub creates : Option Place
  pub describes : ℕ → Option GameSessionStatus
  pub creates_players : Option (List (List ℕ))
  pub starts_placement : Option (PlacementState × Place)
  pub describes_placement : ℕ → Option (PlacementState × Place)
  pub prepares : ℕ → Bool
  pub storage : ℕ → List ℕ × List ℕ
  pub test_player_session_except : ℕ
  pub is_test_local : Bool
  pub searches : Option (List Place)

abbrev pub is_active : GameSessionStatus → Bool
is_active activating = false
is_active active = true
is_active terminated = false
is_active terminating = false
is_active error = false

abbrev pub is_fulfilled : PlacementState → Bool
is_fulfilled pending = false
is_fulfilled fulfilled = true
is_fulfilled cancelled = false
is_fulfilled timed_out = false
is_fulfilled failed = false

abbrev pub answering : GameSession → Option Bool → Option (Bool × GameSession)
answering gs none = none
answering gs (some done) = some (done, gs)

-- `mGameSessionId`, `mIpAddress` and `mPort` are set, and the client changes its region.
abbrev pub placed : GameSession → Place → GameSession
placed gs p = record gs { place = some p; region = p.region }

module _ (svc : Service) where
  -- `PreparePlayerSessions` from the `i`-th player on, with so many to go: a player that cannot be
  -- prepared is not put into the list, and ends the loop.
  unfoldable pub prepare_from : ℕ → ℕ → List PlayerSession → Bool × List PlayerSession
  prepare_from zero i ready = (true, ready)
  prepare_from (suc left) i ready =
      let client = new_player (svc.storage i).0 (svc.storage i).1 in
      let rest = prepare_from left (i + 1) (ready ++ (client ∷ [])) in
      if svc.prepares i then rest else (false, ready)

  unfoldable pub prepare_player_sessions : GameSession → Bool × GameSession
  unfolding prepare_from
  prepare_player_sessions gs =
      let (done, ready) =
        prepare_from (gs.max_player_count - svc.test_player_session_except) 0
          gs.ready_session_list in
      (done, record gs { ready_session_list = ready })

  -- The loop of `CreateGameSession` until the session is active, for so many rounds; `none` while it
  -- still runs.
  unfoldable pub wait_active : ℕ → ℕ → Option Bool
  wait_active zero n = none
  wait_active (suc fuel) n =
      let rest = wait_active fuel (n + 1) in
      elim (svc.describes n) [
        | none ↦ some false
        | some status ↦ if is_active status then some true else rest
      ]

  unfoldable pub create_game_session : ℕ → GameSession → Option (Bool × GameSession)
  unfolding wait_active
  create_game_session fuel gs = elim svc.creates [
    | none ↦ some (false, gs)
    | some p ↦ answering (record gs { place = some p }) (wait_active fuel 0)
  ]

  unfoldable pub check_game_session_placement : ℕ → ℕ → GameSession → Option (Bool × GameSession)
  check_game_session_placement zero n gs = none
  check_game_session_placement (suc fuel) n gs =
      let rest = check_game_session_placement fuel (n + 1) gs in
      elim (svc.describes_placement n) [
        | none ↦ some (false, gs)
        | some (state, p) ↦ if is_fulfilled state then some (true, placed gs p) else rest
      ]

  -- What `StartGameSessionPlacement` does with the state of the new placement.
  unfoldable pub placement_started :
      ℕ → GameSession → PlacementState → Place → Option (Bool × GameSession)
  unfolding check_game_session_placement
  placement_started fuel gs pending p = check_game_session_placement fuel 0 gs
  placement_started fuel gs fulfilled p = some (true, placed gs p)
  placement_started fuel gs cancelled p = some (false, gs)
  placement_started fuel gs timed_out p = some (false, gs)
  placement_started fuel gs failed p = some (false, gs)

  -- The client's region is set to the configured one first.
  unfoldable pub start_game_session_placement :
      ℕ → List ℕ → GameSession → Option (Bool × GameSession)
  unfolding placement_started
  start_game_session_placement fuel region gs =
      let gs' = record gs { region = region } in
      elim svc.starts_placement [
        | none ↦ some (false, gs')
        | some (state, p) ↦ placement_started fuel gs' state p
      ]

  unfoldable pub find_available_game_session : GameSession → Bool × GameSession
  find_available_game_session gs = if svc.is_test_local then (false, gs) else elim svc.searches [
    | none ↦ (false, gs)
    | some [] ↦ (false, gs)
    | some (p ∷ others) ↦ (true, record gs { place = some p })
  ]

  unfoldable pub create_player_sessions : GameSession → Bool × GameSession
  create_player_sessions gs = elim svc.creates_players [
    | none ↦ (false, gs)
    | some list ↦ (true, record gs { player_session_list = list })
  ]

-- What follows a `ConnectRequest`.
abbrev pub connected_next :
    (List PlayerSession → Ending (Bool × List PlayerSession))
    → List PlayerSession
    → List PlayerSession
    → Bool × PlayerSession
    → Ending (Bool × List PlayerSession)
connected_next go done rest (true, s) = go (done ++ (s ∷ []))
connected_next go done rest (false, s) = returns (false, done ++ (s ∷ rest))

module _ (env : System) (fuel : ℕ) where
  -- The loop of `ConnectPlayerSessions`: the iterator goes along the ready sessions, the loop over
  -- the identifiers that the service gave. `done` is what it has passed.
  unfoldable pub connect_from :
      List (List ℕ)
      → ℕ
      → List PlayerSession
      → List PlayerSession
      → Ending (Bool × List PlayerSession)
  unfolding connect_player
  connect_from [] idx done ready = returns (true, done ++ ready)
  connect_from (id ∷ ids) idx done [] = crashes past_the_end
  connect_from (id ∷ ids) idx done (s ∷ ready) =
      connect_player env fuel id idx s
      >>= connected_next (λ done'. connect_from ids (idx + 1) done' ready) done ready

  unfoldable pub connect_player_sessions : GameSession → Ending (Bool × GameSession)
  unfolding connect_from
  connect_player_sessions gs =
      connect_from gs.player_session_list gs.start_player_id [] gs.ready_session_list >>= λ r.
      returns (r.0, record gs { ready_session_list = r.1 })

  -- `DisconnectPlayerSessions`
  unfoldable pub disconnect_from : List PlayerSession → Ending (List PlayerSession)
  unfolding happen
  disconnect_from [] = returns []
  disconnect_from (s ∷ ss) =
      happen env fuel closes s >>= λ s'. disconnect_from ss >>= λ ss'. returns (s' ∷ ss')

  unfoldable pub disconnect_player_sessions : GameSession → Ending GameSession
  unfolding disconnect_from
  disconnect_player_sessions gs = disconnect_from gs.ready_session_list >>= λ ss.
      returns (record gs { ready_session_list = ss })

-- `LaunchGameSessions` for one game session that the service has made: the answers are looked at, but
-- not that of `ConnectPlayerSessions`.
unfoldable pub launch_players : System → ℕ → Service → GameSession → Ending GameSession
unfolding create_player_sessions connect_player_sessions
launch_players env fuel svc gs =
    let (created, gs') = create_player_sessions svc gs in
    if created then (connect_player_sessions env fuel gs' >>= λ r. returns r.1) else returns gs'

-- `PrepareGameSessions` and `LaunchGameSessions`, for one game session; `none` while the service is
-- still asked whether the session is active. The answer of `PreparePlayerSessions` is not looked at.
unfoldable pub launched :
    System → ℕ → Service → Option (Bool × GameSession) → Option (Ending GameSession)
unfolding launch_players
launched env fuel svc none = none
launched env fuel svc (some (true, gs)) = some (launch_players env fuel svc gs)
launched env fuel svc (some (false, gs)) = some (returns gs)

unfoldable pub launch_game_session :
    System → ℕ → Service → ℕ → GameSession → Option (Ending GameSession)
unfolding prepare_player_sessions create_game_session launched
launch_game_session env fuel svc rounds gs =
    launched env fuel svc (create_game_session svc rounds (prepare_player_sessions svc gs).1)
