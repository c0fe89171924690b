-- ===== src/Dummy/Games/Connects.antt =====
-- About the launch of a game session, up to the requests of its players to connect.
use game_lift.Prelude.{
  ℕ, suc, ◌+◌, ◌-◌, ◌≤◌, ◌<◌, ◌≡◌, refl, sym, ap, subst, ◌∙◌, Bool, true, false, inl, inr, some,
  List, [], ◌∷◌, ◌++◌, append_assoc, if◌then◌else◌, arith, length,
}
use game_lift.Dummy.State.{
  io_connect, PlayerSession, System, past_the_end, already_connected, Ending, returns, crashes,
  ◌>>=◌,
}
use game_lift.Dummy.Session.{add_ref, start_io}
use game_lift.Dummy.Player.{connect_request}
use game_lift.Dummy.Events.{connect_player}
use game_lift.Dummy.Counted.{taken_io, refused_io, start_io-cases}
use game_lift.Dummy.Counted.Runs.{IsFresh}
use game_lift.Dummy.Games.{
  Place, active, GameSession, Service, prepare_from, prepare_player_sessions, wait_active,
  create_game_session, create_player_sessions, connected_next, connect_from,
  connect_player_sessions, launch_players, launched, launch_game_session,
}
use game_lift.Dummy.Games.Prepares.{AllFresh, prepare_from-Prepared}

-- A player that was asked to connect: only the call, if the system has taken it, and
-- `ConnectPlayerSessions` refer to it.
pub record IsAsked (id : List ℕ) (idx : ℕ) (s : PlayerSession) : Type 0 where
  pub same_id : s.player_session_id ≡ id
  pub same_idx : s.player_idx ≡ idx
  pub held : s.held ≡ 1
  pub refs : s.ref_count ≡ length s.in_flight + 1

-- The players `ss` are the players `ready`, of which the first were asked to connect, one for each
-- identifier and with ascending numbers.
abbrev pub Joined : List (List ℕ) → ℕ → List PlayerSession → List PlayerSession → Type 0
Joined [] idx ready ss = ss ≡ ready
Joined (id ∷ ids) idx [] ss = ⊥
Joined (id ∷ ids) idx (s ∷ ready) [] = ⊥
Joined (id ∷ ids) idx (s ∷ ready) (s' ∷ ss) = IsAsked id idx s' × Joined ids (idx + 1) ready ss

module _ (env : System) (fuel : ℕ) where
  connect_player_lem :
      (id : List ℕ) (idx : ℕ) (s : PlayerSession)
      → IsFresh s
      → (s' : PlayerSession) × (connect_player env fuel id idx s ≡ returns (true, s'))
        × IsAsked id idx s'
  unfolding connect_player connect_request add_ref
  connect_player_lem id idx s fresh =
      let asked : PlayerSession = record s { ref_count = s.ref_count + 1; held = s.held + 1 } in
      let named = λ (t : PlayerSession).
        let u : PlayerSession = record t { player_session_id = id; player_idx = idx } in u in
      let finish = λ (r : Bool × PlayerSession).
        let m : Ending (Bool × PlayerSession) = returns (true, named r.1) in m in
      let start : connect_player env fuel id idx s ≡ (start_io env io_connect asked >>= finish) =
        ap
          (λ b. if b then crashes already_connected else (start_io env io_connect asked >>= finish))
          fresh.off in
      let none_there = ap length fresh.none_in_flight in
      elim (start_io-cases env io_connect asked) [
        | inl took ↦ (
          named (taken_io io_connect asked),
          start ∙ ap (λ m. m >>= finish) took,
          record {
            same_id = refl;
            same_idx = refl;
            held = omega (arith, fresh.not_held);
            refs = omega (arith, fresh.no_reference_yet, none_there);
          },
        )
        | inr refused ↦ (
          named (refused_io asked),
          start ∙ ap (λ m. m >>= finish) refused,
          record {
            same_id = refl;
            same_idx = refl;
            held = omega (arith, fresh.not_held);
            refs = omega (arith, fresh.no_reference_yet, none_there);
          },
        )
      ]

  connect_from-next :
      (id : List ℕ) (ids : List (List ℕ)) (idx : ℕ) (done : List PlayerSession)
      (s s' : PlayerSession) (ready : List PlayerSession)
      → connect_player env fuel id idx s ≡ returns (true, s')
      → connect_from env fuel (id ∷ ids) idx done (s ∷ ready)
        ≡ connect_from env fuel ids (idx + 1) (done ++ (s' ∷ [])) ready
  unfolding connect_from
  connect_from-next id ids idx done s s' ready e =
      ap
        (λ m.
          m
          >>= connected_next (λ done'. connect_from env fuel ids (idx + 1) done' ready) done ready)
        e

  connect_from_lem :
      (ids : List (List ℕ)) (idx : ℕ) (done ready : List PlayerSession)
      → AllFresh ready
      → length ids ≤ length ready
      → (ss : List PlayerSession) × (connect_from env fuel ids idx done ready
          ≡ returns (true, done ++ ss))
        × Joined ids idx ready ss
  unfolding connect_from
  connect_from_lem [] idx done ready fresh h = (ready, refl, refl)
  connect_from_lem (id ∷ ids) idx done [] fresh h = absurd (omega arith)
  connect_from_lem (id ∷ ids) idx done (s ∷ ready) fresh h =
      let (s', asked, is_asked) = connect_player_lem id idx s fresh.0 in
      let (ss, rest, joined) =
        connect_from_lem ids (idx + 1) (done ++ (s' ∷ [])) ready fresh.1 (omega (arith, h)) in
      (
        s' ∷ ss,
        connect_from-next id ids idx done s s' ready asked
            ∙ rest
            ∙ ap (λ xs. returns (true, xs)) (append_assoc done (s' ∷ []) ss),
        (is_asked, joined),
      )

  connect_from_past :
      (ids : List (List ℕ)) (idx : ℕ) (done ready : List PlayerSession)
      → AllFresh ready
      → length ready < length ids
      → connect_from env fuel ids idx done ready ≡ crashes past_the_end
  unfolding connect_from
  connect_from_past [] idx done ready fresh h = absurd (omega arith)
  connect_from_past (id ∷ ids) idx done [] fresh h = refl
  connect_from_past (id ∷ ids) idx done (s ∷ ready) fresh h =
      let (s', asked, is_asked) = connect_player_lem id idx s fresh.0 in
      connect_from-next id ids idx done s s' ready asked
      ∙ connect_from_past ids (idx + 1) (done ++ (s' ∷ [])) ready fresh.1 (omega (arith, h))

create_game_session-active :
    (svc : Service) (rounds : ℕ) (gs : GameSession) (p : Place)
    → svc.creates ≡ some p
    → svc.describes 0 ≡ some active
    → create_game_session svc (suc rounds) gs ≡ some (true, record gs { place = some p })
unfolding create_game_session wait_active
create_game_session-active svc rounds gs p created is_active = ground arith

create_player_sessions-made :
    (svc : Service) (gs : GameSession) (ids : List (List ℕ))
    → svc.creates_players ≡ some ids
    → create_player_sessions svc gs ≡ (true, record gs { player_session_list = ids })
unfolding create_player_sessions
create_player_sessions-made svc gs ids players = ground arith

-- A new game session prepares its players and is launched: the service makes it, says at once that it
-- is active, and gives as many identifiers as there are players to prepare. If all players could be
-- prepared, then each is asked to connect once, in the order of the list, with its identifier and
-- with ascending numbers from the session's first on, and is referred to by the call that the system
-- has taken and by the session. If one could not be prepared, which nobody looks at, then the program
-- reads past the end of the list.
pub launch_game_session_lem :
    (env : System) (fuel rounds : ℕ) (svc : Service) (gs : GameSession) (p : Place)
    (ids : List (List ℕ))
    → gs.ready_session_list ≡ []
    → svc.creates ≡ some p
    → svc.describes 0 ≡ some active
    → svc.creates_players ≡ some ids
    → length ids ≡ gs.max_player_count - svc.test_player_session_except
    → ((prepare_player_sessions svc gs).0 ≡ true
        → (gs' : GameSession) × (launch_game_session env fuel svc (suc rounds) gs
            ≡ some (returns gs'))
          × Joined ids gs.start_player_id
              (prepare_player_sessions svc gs).1.ready_session_list
              gs'.ready_session_list)
      × ((prepare_player_sessions svc gs).0 ≡ false
          → launch_game_session env fuel svc (suc rounds) gs ≡ some (crashes past_the_end))
unfolding launch_game_session launched launch_players connect_player_sessions
    prepare_player_sessions
launch_game_session_lem env fuel rounds svc gs p ids new created is_active players asked =
    let n = gs.max_player_count - svc.test_player_session_except in
    let r = prepare_from svc n 0 gs.ready_session_list in
    let made = prepare_from-Prepared svc n 0 gs.ready_session_list (subst AllFresh (sym new) tt) in
    let none_yet : length gs.ready_session_list ≡ 0 = ap length new in
    let ready : GameSession = record gs { ready_session_list = r.1 } in
    let there : GameSession = record ready { place = some p } in
    let runs : launch_game_session env fuel svc (suc rounds) gs
        ≡ some (
            connect_player_sessions env fuel (record there { player_session_list = ids }) >>= λ a.
            returns a.1) =
      ap (launched env fuel svc) (create_game_session-active svc rounds ready p created is_active)
      ∙ ap
          (λ (c : Bool × GameSession). some (
            if c.0
            then (connect_player_sessions env fuel c.1 >>= λ a. returns a.1)
            else returns c.1))
          (create_player_sessions-made svc there ids players) in
    let finish = λ (a : Bool × List PlayerSession).
      let m : Ending (Bool × GameSession) =
        returns (a.0, record there { player_session_list = ids; ready_session_list = a.1 }) in
      m in
    (
      λ all.
          let (ss, connected, joined) =
            connect_from_lem env fuel ids gs.start_player_id [] r.1 made.all_fresh
              (omega (arith, made.enough all, asked, none_yet)) in
          (
            record there { player_session_list = ids; ready_session_list = ss },
            runs ∙ ap (λ m. some (m >>= finish >>= λ a. returns a.1)) connected,
            joined,
          ),
      λ too_few.
          runs
          ∙ ap (λ m. some (m >>= finish >>= λ a. returns a.1))
              (connect_from_past env fuel ids gs.start_player_id [] r.1 made.all_fresh
                (omega (arith, made.too_few too_few, asked, none_yet))),
    )
