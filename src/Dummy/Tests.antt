-- ===== src/Dummy/Tests.antt =====
-- A player that acts three times, and a game session of two players.
use game_lift.Prelude.{
  ℕ, suc, ◌^◌, ◌<◌, ◌+◌, ◌≤◌, ◌≡◌, refl, true, false, none, some, List, [], ◌∷◌, ◌++◌, ◌==◌, arith,
  length, replicate,
}
use game_lift.Buffer.{write, init, get_contiguous_bytes, remove}
use game_lift.Packet.{encode_client}
use game_lift.Dummy.Player.{connect_completion}
use game_lift.Dummy.Session.{disconnect_completion, send_completion, post_recv}
use game_lift.Dummy.State.{
  PlayerSession, System, Ending, returns, crashes, past_the_end, ◌>>=◌, new_player,
}
use game_lift.Dummy.Events.{Completion, Event, completes, plays, closes, happen_all, connect_player}
use game_lift.Dummy.Counted.{Safe}
use game_lift.Dummy.Counted.Runs.{IsFresh, happen_all-Counted}
use game_lift.Dummy.Script.{script}
use game_lift.Dummy.Script.Plays.{Done, plays_to_the_end, plays_on}
use game_lift.Dummy.Manager.{new_game_session, prepare_game_sessions, launch_game_sessions}
use game_lift.Dummy.Manager.Launches.{
  Serves, Launched, Ascending, all_numbers, launch_game_sessions_lem,
}
use game_lift.Dummy.Games.{
  find_available_game_session, Place, PlacementState, pending, failed, is_fulfilled, placed, active,
  GameSession, Service, prepare_player_sessions, launch_game_session, start_game_session_placement,
}
use game_lift.Dummy.Manager.{terminate_game_sessions}
use game_lift.Dummy.Manager.Ends.{Terminated, terminate_game_sessions_lem}
use game_lift.Dummy.Games.Connects.{Joined, launch_game_session_lem}
use game_lift.Dummy.Games.Polls.{start_placement_lem}

abbrev willing : System
willing = record {
  accepts = λ n. true;
  rand = λ n. n;
  unwritten = λ n. [];
  float_bytes = λ x. 0 ∷ 0 ∷ 0 ∷ 0 ∷ [];
  player_action_request = 3;
}

abbrev fresh : PlayerSession
fresh = new_player [] []

fresh-IsFresh : IsFresh fresh
unfolding new_player
fresh-IsFresh = record {
  no_reference_yet = refl;
  off = refl;
  none_in_flight = refl;
  no_timers = refl;
  not_held = refl;
  none_sent = refl;
  not_released = refl;
}

abbrev completed_well : Completion
completed_well = record {
  succeeded = true;
  count = 200;
  bytes = [];
  updated = true;
  options = true;
}

-- The connection is made and closed.
abbrev connects_and_closes : List Event
connects_and_closes =
    completes 0 completed_well
    ∷ closes
    ∷ completes 0 completed_well
    ∷ completes 0 completed_well
    ∷ completes 0 completed_well
    ∷ []

happen_all-Counted_example :
    Safe
      (λ t.
        (t.ref_count ≡ length t.in_flight + t.timers + t.held) × (t.held ≤ 1) × (t.released ≡ 0))
      (connect_player willing 9 (65 ∷ []) 0 fresh >>= λ r.
        happen_all willing 9 connects_and_closes r.1)
happen_all-Counted_example =
    happen_all-Counted willing 9 (65 ∷ []) 0 connects_and_closes fresh fresh-IsFresh

-- A player that has logged in.
abbrev logged_in : PlayerSession
logged_in = record fresh { timers = 1; ref_count = 1; player_session_id = 65 ∷ [] }

plays_to_the_end_example :
    (t : PlayerSession) × (happen_all willing 9 (replicate 3 plays ++ replicate 2 plays) logged_in
      ≡ returns t)
    × Done 2 (script logged_in) (script t)
plays_to_the_end_example =
    plays_to_the_end willing 9 2 2 logged_in refl (unfold new_player in refl) refl (omega arith)

-- It has acted three times, and a second login result has put a job into the timer.
abbrev logged_in_twice : PlayerSession
logged_in_twice = record logged_in { play_test_count = 3 }

plays_on_example :
    (t : PlayerSession) × (happen_all willing 9 (replicate 50 plays) logged_in_twice ≡ returns t)
    × (length t.requests ≡ length logged_in_twice.requests + 50)
    × (t.timers ≡ 1)
    × (t.play_test_count ≡ 53)
    × (t.play_test_count < 2 ^ 31)
plays_on_example =
    plays_on willing 9 50 logged_in_twice refl (omega arith) (omega arith) (omega arith)

abbrev somewhere : Place
somewhere = record { port = 7777; ip_address = 49 ∷ []; game_session_id = 71 ∷ []; region = [] }

-- The service makes everything at once; the second player cannot be prepared.
abbrev service : Service
service = record {
  creates = some somewhere;
  describes = λ n. some active;
  creates_players = some ((65 ∷ []) ∷ (66 ∷ []) ∷ []);
  starts_placement = some (pending, somewhere);
  describes_placement = λ n. some (failed, somewhere);
  prepares = λ n. n == 0;
  storage = λ n. ([], []);
  test_player_session_except = 6;
  is_test_local = false;
  searches = some (somewhere ∷ []);
}

abbrev session : GameSession
session = record {
  ready_session_list = [];
  start_player_id = 8;
  max_player_count = 8;
  place = none;
  region = [];
  player_session_list = [];
}

launch_game_session_lem_example :
    ((prepare_player_sessions service session).0 ≡ true
      → (gs' : GameSession) × (launch_game_session willing 9 service 3 session ≡ some (returns gs'))
        × Joined
            ((65 ∷ []) ∷ (66 ∷ []) ∷ [])
            8
            (prepare_player_sessions service session).1.ready_session_list
            gs'.ready_session_list)
    × ((prepare_player_sessions service session).0 ≡ false
        → launch_game_session willing 9 service 3 session ≡ some (crashes past_the_end))
launch_game_session_lem_example =
    launch_game_session_lem willing 9 2 service session somewhere ((65 ∷ []) ∷ (66 ∷ []) ∷ []) refl
      refl refl refl refl

-- A placement that has failed.
start_placement_lem_example :
    ((q : PlacementState × Place)
      → service.describes_placement 40 ≡ some q
      → is_fulfilled q.0 ≡ true
      → (fuel : ℕ)
      → start_game_session_placement service (40 + suc fuel) [] session
        ≡ some (true, placed session q.1))
    × (service.describes_placement 40 ≡ none
        → (fuel : ℕ)
        → start_game_session_placement service (40 + suc fuel) [] session
          ≡ some (false, record session { region = [] }))
    × ((fuel : ℕ) → fuel ≤ 40 → start_game_session_placement service fuel [] session ≡ none)
start_placement_lem_example =
    start_placement_lem service [] session somewhere 40 refl (λ n lt. refl)

-- Two game sessions of two players each, all of which can be prepared.
abbrev identifiers : ℕ → List (List ℕ)
identifiers n = (65 ∷ n ∷ []) ∷ (66 ∷ n ∷ []) ∷ []

abbrev services : ℕ → Service
services n = record service { creates_players = some (identifiers n); prepares = λ i. true }

services-Serves : (n : ℕ) → Serves (services n) (identifiers n) (new_game_session [] n)
unfolding prepare_player_sessions new_game_session
services-Serves n = record {
  somewhere = somewhere;
  made = refl;
  goes_active = refl;
  joins = refl;
  as_many = refl;
  all_prepared = refl;
}

launch_game_sessions_lem_example :
    (gss : List GameSession) × (launch_game_sessions services willing 9 3 0
        (prepare_game_sessions services [] 2)
      ≡ some (returns gss))
    × Launched services identifiers [] 2 0 gss
    × Ascending 0 (all_numbers gss)
launch_game_sessions_lem_example =
    launch_game_sessions_lem willing 9 2 2 services identifiers [] (λ n lt. services-Serves n)

-- A game session with a player that is connected and one that is not.
abbrev half_joined : GameSession
half_joined = record session {
  ready_session_list = record fresh { connected = true; ref_count = 1 } ∷ fresh ∷ [];
}

terminate_game_sessions_lem_example :
    (hs : List GameSession) × (terminate_game_sessions willing 9 (half_joined ∷ []) ≡ returns hs)
    × Terminated (half_joined ∷ []) hs
terminate_game_sessions_lem_example = terminate_game_sessions_lem willing 9 (half_joined ∷ [])

finds_first : (find_available_game_session service session).1.place ≡ some somewhere
unfolding find_available_game_session
finds_first = refl

-- In the end nothing refers to the session, and `OnRelease` was not called.
abbrev counts_at_the_end : Ending PlayerSession → List ℕ
counts_at_the_end (returns t) =
    t.ref_count ∷ t.held ∷ t.released ∷ length t.in_flight ∷ length t.requests ∷ []
counts_at_the_end (crashes e) = []

closes_unreleased :
    counts_at_the_end (
      connect_player willing 9 (65 ∷ []) 0 fresh >>= λ r.
      happen_all willing 9 connects_and_closes r.1)
    ≡ 0 ∷ 0 ∷ 0 ∷ 0 ∷ 1 ∷ []
unfolding happen_all connect_player new_player connect_completion write init encode_client
    disconnect_completion get_contiguous_bytes send_completion remove post_recv
closes_unreleased = refl
