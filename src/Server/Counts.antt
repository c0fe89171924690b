-- ===== src/Server/Counts.antt =====
-- The manager's counts, and when the game session is ended.
use game_lift.Prelude.{
  ℕ, ◌+◌, ◌≤◌, ◌<◌, ◌≡◌, refl, true, false, List, [], ◌∷◌, if◌then◌else◌, arith, ◌⊎◌, length, ◌^◌,
}
use game_lift.Packet.{max_player_per_game}
use game_lift.Server.State.{
  Call, accept_player, remove_player, activate_game, terminate_game, process_ending,
  GameLiftManager, Services,
}
use game_lift.Server.Roster.{
  new_manager, accept_player_session, remove_player_session, on_start_game_session,
  on_process_terminate,
}

pub data Act : Type 0 where
  accept remove : ℕ → List ℕ → Act
  start_game terminate : Act

module _ (env : Services) where
  -- How many players the service has accepted, and how many it has removed, in a history of calls.
  unfoldable pub came : List Call → ℕ
  came [] = 0
  came (accept_player id ∷ cs) = if env.accepts cs id then came cs + 1 else came cs
  came (c ∷ cs) = came cs

  unfoldable pub gone : List Call → ℕ
  gone [] = 0
  gone (remove_player id ∷ cs) = if env.removes cs id then gone cs + 1 else gone cs
  gone (c ∷ cs) = gone cs

  -- The service removes a player session only while one is active.
  pub record RemovesActive : Type 0 where
    pub removes_active :
        (cs : List Call) (id : List ℕ) → env.removes cs id ≡ true → gone cs < came cs

  -- The counts are those of the service.
  pub record IsCounted (m : GameLiftManager) : Type 0 where
    pub accepted : m.accepted_count ≡ came m.calls
    pub removals : m.removed_count ≡ gone m.calls

  pub new_manager-IsCounted : IsCounted new_manager
  unfolding new_manager came gone
  new_manager-IsCounted = record { accepted = refl; removals = refl }

  -- Accepting and removing players, and ending the game session, keep the counts right.
  pub accept_player_session-IsCounted :
      (m : GameLiftManager) (s : ℕ) (id : List ℕ)
      → IsCounted m
      → IsCounted (accept_player_session env m s id).1
  unfolding accept_player_session came gone
  accept_player_session-IsCounted m s id c = record {
    accepted = ground arith;
    removals = ground arith;
  }

  pub remove_player_session-IsCounted :
      (m : GameLiftManager) (s : ℕ) (id : List ℕ)
      → IsCounted m
      → IsCounted (remove_player_session env m s id)
  unfolding remove_player_session came gone
  remove_player_session-IsCounted m s id c = record {
    accepted = ground arith;
    removals = ground arith;
  }

  gone-le-came : RemovesActive → (cs : List Call) → gone cs ≤ came cs
  unfolding came gone
  gone-le-came h [] = omega arith
  gone-le-came h (accept_player id ∷ cs) = ground (arith, gone-le-came h cs)
  gone-le-came h (remove_player id ∷ cs) = ground (arith, gone-le-came h cs, h.removes_active cs id)
  gone-le-came h (activate_game ∷ cs) = gone-le-came h cs
  gone-le-came h (terminate_game ∷ cs) = gone-le-came h cs
  gone-le-came h (process_ending ∷ cs) = gone-le-came h cs

  -- What happens at the manager once it is ready.
  unfoldable pub act : GameLiftManager → Act → GameLiftManager
  act m (accept s id) = (accept_player_session env m s id).1
  act m (remove s id) = remove_player_session env m s id
  act m start_game = on_start_game_session m
  act m terminate = on_process_terminate m

  unfoldable pub act_all : GameLiftManager → List Act → GameLiftManager
  unfolding act
  act_all m [] = m
  act_all m (a ∷ more) = act_all (act m a) more

  act-IsCounted : (m : GameLiftManager) (a : Act) → IsCounted m → IsCounted (act m a)
  unfolding act on_start_game_session on_process_terminate came gone
  act-IsCounted m (accept s id) c = accept_player_session-IsCounted m s id c
  act-IsCounted m (remove s id) c = remove_player_session-IsCounted m s id c
  act-IsCounted m start_game c = record { accepted = c.accepted; removals = c.removals }
  act-IsCounted m terminate c = record { accepted = c.accepted; removals = c.removals }

  act-few : (m : GameLiftManager) (a : Act) → (act m a).accepted_count ≤ m.accepted_count + 1
  unfolding act accept_player_session remove_player_session on_start_game_session
      on_process_terminate
  act-few m (accept s id) = ground arith
  act-few m (remove s id) = ground arith
  act-few m start_game = omega arith
  act-few m terminate = omega arith

  act_all-IsCounted :
      (acts : List Act) (m : GameLiftManager) → IsCounted m → IsCounted (act_all m acts)
  unfolding act_all
  act_all-IsCounted [] m c = c
  act_all-IsCounted (a ∷ more) m c = act_all-IsCounted more (act m a) (act-IsCounted m a c)

  act_all-few :
      (acts : List Act) (m : GameLiftManager)
      → (act_all m acts).accepted_count ≤ m.accepted_count + length acts
  unfolding act_all
  act_all-few [] m = omega arith
  act_all-few (a ∷ more) m =
      let one : (act m a).accepted_count ≤ m.accepted_count + 1 = act-few m a in
      omega (arith, one, act_all-few more (act m a))

  -- If the service removes players only while it has some, then after any history of the manager of
  -- fewer than 2 ^ 31 events its two counts are what the service accepted and removed, it has removed
  -- no more than it accepted, and both counts are within the range of an `int`.
  pub act_all-counts :
      RemovesActive
      → (acts : List Act) → length acts < 2 ^ 31
      → let m = act_all new_manager acts in
        (m.accepted_count ≡ came m.calls)
        × (m.removed_count ≡ gone m.calls)
        × (m.removed_count ≤ m.accepted_count)
        × (m.accepted_count < 2 ^ 31)
  unfolding new_manager
  act_all-counts h acts few =
      let c = act_all-IsCounted acts new_manager new_manager-IsCounted in
      (
        c.accepted,
        c.removals,
        omega (arith, gone-le-came h (act_all new_manager acts).calls, c.accepted, c.removals),
        omega (arith, few, act_all-few acts new_manager),
      )

  -- `RemovePlayerSession` ends the game session exactly when eight players have been accepted and
  -- eight removed, this one included; else the service hears of the removal alone.
  pub remove_player_session_ends :
      (m : GameLiftManager) (s : ℕ) (id : List ℕ)
      → let m' = remove_player_session env m s id in
        ((max_player_per_game ≤ m'.accepted_count)
          × (max_player_per_game ≤ m'.removed_count)
          × (m'.calls ≡ process_ending ∷ terminate_game ∷ remove_player id ∷ m.calls)
          × (m'.activated ≡ false))
        ⊎ (((m'.accepted_count < max_player_per_game) ⊎ (m'.removed_count < max_player_per_game))
            × (m'.calls ≡ remove_player id ∷ m.calls)
            × (m'.activated ≡ m.activated))
  unfolding remove_player_session
  remove_player_session_ends m s id = ground arith

  -- Once eight players were accepted and removed, every further `RemovePlayerSession` ends the game
  -- session again, also if the service knows no such player: nothing asks whether it is active.
  pub remove_player_session_ends_again :
      (m : GameLiftManager) (s : ℕ) (id : List ℕ)
      → max_player_per_game ≤ m.accepted_count
      → max_player_per_game ≤ m.removed_count
      → (remove_player_session env m s id).calls
        ≡ process_ending ∷ terminate_game ∷ remove_player id ∷ m.calls
  unfolding remove_player_session
  remove_player_session_ends_again m s id h k = ground arith
