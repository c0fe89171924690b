-- ===== src/Game/Agreement.antt =====
-- The manager of the Windows server against the manager of the Linux server.
use game_lift.Prelude.{
  ℕ, ◌≡◌, refl, ap, true, false, some, none, List, [], ◌∷◌, ◌++◌, arith, inl, inr, ◌⊎◌,
}
use game_lift.Server.Roster
use game_lift.Server.State
use game_lift.Game.State.{GameLiftManager, Services, Ending, returns, ends, hangs, fails, ◌>>=◌}
use game_lift.Game.Manager.{
  new_manager, initialize_game_lift, on_start_game_session, on_process_terminate,
  accept_player_session, remove_player_session,
}

-- What happens at a manager once its game session has started.
pub data Event : Type 0 where
  accept remove : ℕ → List ℕ → Event
  terminate : Event

-- The Windows manager that has what a Linux manager has, when nobody holds the lock.
unfoldable pub mirror : State.GameLiftManager → GameLiftManager
mirror l = record {
  locked = false;
  activated = l.activated;
  accepted_count = l.accepted_count;
  removed_count = l.removed_count;
  game_session = some l.player_sessions;
  calls = l.calls;
}

-- How a run ends beside the Linux manager at `l`, which has `left` events still before it.
abbrev pub Follows : Ending GameLiftManager → State.GameLiftManager → List Event → Type 0
Follows (returns m) l left = (m ≡ mirror l) × (l.activated ≡ true) × (left ≡ [])
Follows (ends code m) l left = (m.calls ≡ l.calls) × (m.activated ≡ false) × (l.activated ≡ false)
Follows hangs l left = ⊥
Follows (fails e) l left = ⊥

-- The Linux manager from its constructor, when the service is ready and starts a game session.
unfoldable pub started_there : State.GameLiftManager
unfolding Roster.initialize_game_lift Roster.on_start_game_session Roster.new_manager
started_there =
    Roster.on_start_game_session (Roster.initialize_game_lift true true Roster.new_manager).1

module _ (env : Services) where
  -- The same services, for the other server.
  abbrev pub there : State.Services
  there = record { accepts = env.accepts; removes = env.removes; lingers = λ k. true }

  abbrev pub event : Event → GameLiftManager → Ending GameLiftManager
  event (accept s id) m = accept_player_session env m s id >>= λ r. returns r.1
  event (remove s id) m = remove_player_session env m s id
  event terminate m = on_process_terminate m

  abbrev pub event_there : Event → State.GameLiftManager → State.GameLiftManager
  event_there (accept s id) l = (Roster.accept_player_session there l s id).1
  event_there (remove s id) l = Roster.remove_player_session there l s id
  event_there terminate l = Roster.on_process_terminate l

  abbrev pub events : List Event → GameLiftManager → Ending GameLiftManager
  events [] m = returns m
  events (e ∷ more) m = event e m >>= events more

  abbrev pub events_there : List Event → State.GameLiftManager → State.GameLiftManager
  events_there [] l = l
  events_there (e ∷ more) l = events_there more (event_there e l)

  accept-mirror :
      (s : ℕ) (id : List ℕ) (l : State.GameLiftManager)
      → (event (accept s id) (mirror l) ≡ returns (mirror (event_there (accept s id) l)))
        × ((event_there (accept s id) l).activated ≡ l.activated)
  unfolding mirror accept_player_session Roster.accept_player_session
  accept-mirror s id l = (ground arith, ground arith)

  -- The game session is over for both, or for neither.
  remove-mirror :
      (s : ℕ) (id : List ℕ) (l : State.GameLiftManager)
      → l.activated ≡ true
      → let l' = event_there (remove s id) l in
        ((event (remove s id) (mirror l) ≡ returns (mirror l')) × (l'.activated ≡ true))
        ⊎ ((event (remove s id) (mirror l)
              ≡ ends 37 (record (mirror l') { locked = true; game_session = none }))
            × (l'.activated ≡ false))
  unfolding mirror remove_player_session Roster.remove_player_session
  remove-mirror s id l on = ground arith

  event-Follows :
      (e : Event) (l : State.GameLiftManager)
      → l.activated ≡ true
      → Follows (event e (mirror l)) (event_there e l) []
  unfolding mirror on_process_terminate Roster.on_process_terminate
  event-Follows (accept s id) l on =
      let (same, still) = accept-mirror s id l in rw (same, still) (refl, on, refl)
  event-Follows (remove s id) l on = elim (remove-mirror s id l on) [
    | inl (same, still) ↦ rw same (refl, still, refl)
    | inr (same, off) ↦ rw same (refl, off, off)
  ]
  event-Follows terminate l on = simp on (refl, refl, refl)

  -- The Linux server after the first events, and those that are left.
  abbrev pub Agreement : Ending GameLiftManager → State.GameLiftManager → List Event → Type 0
  Agreement o l es =
      (first left : List Event) × (es ≡ first ++ left) × Follows o (events_there first l) left

  continued :
      (e : Event) (more : List Event) (l : State.GameLiftManager) (o : Ending GameLiftManager)
      → Follows o (event_there e l) []
      → ((event_there e l).activated ≡ true
          → Agreement (events more (mirror (event_there e l))) (event_there e l) more)
      → Agreement (o >>= events more) l (e ∷ more)
  continued e more l (returns m) f later =
      let (first, left, split, rest) = later f.1 in
      rw f.0 (e ∷ first, left, ap (λ es. e ∷ es) split, rest)
  continued e more l (ends code m) f later = (e ∷ [], more, refl, f)
  continued e more l hangs f later = absurd f
  continued e more l (fails x) f later = absurd f

  events-Agreement :
      (es : List Event) (l : State.GameLiftManager)
      → l.activated ≡ true
      → Agreement (events es (mirror l)) l es
  events-Agreement [] l on = ([], [], refl, (refl, on, refl))
  events-Agreement (e ∷ more) l on =
      continued e more l (event e (mirror l)) (event-Follows e l on)
        (events-Agreement more (event_there e l))

  -- The Windows server, from its constructor, when the service is ready and starts a game session.
  unfoldable pub run : List Event → Ending GameLiftManager
  unfolding initialize_game_lift on_start_game_session new_manager
  run es = on_start_game_session (initialize_game_lift true true new_manager).1 >>= events es

  -- Both managers are made, initialised, and start a game session, with services that answer alike;
  -- then players are accepted and removed and the service may terminate the process, in any order.
  -- The Windows manager neither waits for itself nor reads a null pointer, and it does what the Linux
  -- manager does up to the end of the game session: it returns from every event, with the same
  -- players, counts and calls of the SDK, or its process ends at the event at which the Linux manager
  -- ends the game session too, after the same calls. (The Linux process goes on after that.)
  pub run-Agreement : (es : List Event) → Agreement (run es) started_there es
  unfolding run started_there mirror
  run-Agreement es = events-Agreement es started_there refl
