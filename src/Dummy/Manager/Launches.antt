-- ===== src/Dummy/Manager/Launches.antt =====
-- About `LaunchGameSessions` of DummyClients: the players of all game sessions, and their numbers.
use game_lift.Prelude.{
  ℕ, zero, suc, ◌+◌, ◌-◌, ◌*◌, ◌≤◌, ◌<◌, ◌≡◌, refl, sym, ap, subst, ◌∙◌, true, some, List, [], ◌∷◌,
  ◌++◌, append_assoc, append-nil, ap₂, arith, length,
}
use game_lift.Packet.{max_player_per_game}
use game_lift.Dummy.State.{PlayerSession, System, returns}
use game_lift.Dummy.Games.{
  Place, active, GameSession, Service, prepare_player_sessions, launch_game_session,
}
use game_lift.Dummy.Games.Prepares.{prepare_from-Prepared}
use game_lift.Dummy.Games.Connects.{Joined, launch_game_session_lem}
use game_lift.Dummy.Manager.{
  new_game_session, launched_then, prepare_sessions, prepare_game_sessions, launch_game_sessions,
}

-- A service that makes a game session, says at once that it is active, and gives so many identifiers
-- as there are players to prepare; and all of them can be prepared.
pub record Serves (svc : Service) (ids : List (List ℕ)) (gs : GameSession) : Type 0 where
  pub somewhere : Place
  pub made : svc.creates ≡ some somewhere
  pub goes_active : svc.describes 0 ≡ some active
  pub joins : svc.creates_players ≡ some ids
  pub as_many : length ids ≡ gs.max_player_count - svc.test_player_session_except
  pub all_prepared : (prepare_player_sessions svc gs).0 ≡ true

-- Numbers that ascend, from `least` on.
abbrev pub Ascending : ℕ → List ℕ → Type 0
Ascending least [] = Unit {0}
Ascending least (x ∷ xs) = (least ≤ x) × Ascending (x + 1) xs

-- The numbers of players, and those of all game sessions.
abbrev pub numbers : List PlayerSession → List ℕ
numbers [] = []
numbers (s ∷ ss) = s.player_idx ∷ numbers ss

abbrev pub all_numbers : List GameSession → List ℕ
all_numbers [] = []
all_numbers (gs ∷ gss) = numbers gs.ready_session_list ++ all_numbers gss

Ascending-later : (a b : ℕ) (xs : List ℕ) → a ≤ b → Ascending b xs → Ascending a xs
Ascending-later a b [] h k = tt
Ascending-later a b (x ∷ xs) h k = (omega (arith, h, k.0), k.1)

Joined-Ascending :
    (ids : List (List ℕ)) (idx : ℕ) (ready ss : List PlayerSession) (rest : List ℕ)
    → Joined ids idx ready ss
    → length ready ≡ length ids
    → Ascending (idx + length ids) rest
    → Ascending idx (numbers ss ++ rest)
Joined-Ascending [] idx [] ss rest j h k =
    subst (λ xs. Ascending idx (numbers xs ++ rest)) (sym j)
      (Ascending-later idx (idx + 0) rest (omega arith) k)
Joined-Ascending [] idx (s ∷ ready) ss rest j h k = absurd (omega arith)
Joined-Ascending (id ∷ ids) idx [] ss rest j h k = absurd (omega arith)
Joined-Ascending (id ∷ ids) idx (s ∷ ready) [] rest j h k = absurd j
Joined-Ascending (id ∷ ids) idx (s ∷ ready) (s' ∷ ss) rest j h k =
    let later : Ascending (idx + 1) (numbers ss ++ rest) =
      Joined-Ascending ids (idx + 1) ready ss rest j.1 (omega (arith, h))
        (Ascending-later (idx + 1 + length ids) (idx + suc (length ids)) rest (omega arith) k) in
    (
      omega (arith, j.0.same_idx),
      subst (λ n. Ascending (n + 1) (numbers ss ++ rest)) (sym j.0.same_idx) later,
    )

module _ (svc : ℕ → Service) (ids : ℕ → List (List ℕ)) (region : List ℕ) where
  -- The `i`-th game session with its players, which are not connected.
  abbrev prepared : ℕ → GameSession
  prepared i = (prepare_player_sessions (svc i) (new_game_session region i)).1

  abbrev all_prepared_from : ℕ → ℕ → List GameSession
  all_prepared_from zero i = []
  all_prepared_from (suc left) i = prepared i ∷ all_prepared_from left (i + 1)

  -- The game sessions `gss` are so many, from the `i`-th on, and the players of each have joined it.
  abbrev pub Launched : ℕ → ℕ → List GameSession → Type 0
  Launched zero i gss = gss ≡ []
  Launched (suc left) i [] = ⊥
  Launched (suc left) i (gs ∷ gss) =
      Joined (ids i) (i * max_player_per_game) (prepared i).ready_session_list gs.ready_session_list
      × Launched left (i + 1) gss

  prepare_sessions-append :
      (left i : ℕ) (gss : List GameSession)
      → prepare_sessions svc region left i gss ≡ gss ++ all_prepared_from left i
  unfolding prepare_sessions
  prepare_sessions-append zero i gss = sym (append-nil gss)
  prepare_sessions-append (suc left) i gss =
      prepare_sessions-append left (i + 1) (gss ++ (prepared i ∷ []))
      ∙ append_assoc gss (prepared i ∷ []) (all_prepared_from left (i + 1))

  prepared-length :
      (i : ℕ)
      → Serves (svc i) (ids i) (new_game_session region i)
      → length (prepared i).ready_session_list ≡ length (ids i)
  unfolding prepare_player_sessions new_game_session
  prepared-length i serves =
      let made =
        prepare_from-Prepared (svc i) (max_player_per_game - (svc i).test_player_session_except) 0
          [] tt in
      omega (arith, made.enough serves.all_prepared, serves.as_many)

  Launched-Ascending :
      (left i : ℕ) (gss : List GameSession)
      → ((n : ℕ) → n < i + left → Serves (svc n) (ids n) (new_game_session region n))
      → Launched left i gss
      → Ascending (i * max_player_per_game) (all_numbers gss)
  unfolding new_game_session
  Launched-Ascending zero i gss serves l =
      subst (λ xs. Ascending (i * max_player_per_game) (all_numbers xs)) (sym l) tt
  Launched-Ascending (suc left) i [] serves l = absurd l
  Launched-Ascending (suc left) i (gs ∷ gss) serves l =
      Joined-Ascending (ids i) (i * max_player_per_game) (prepared i).ready_session_list
        gs.ready_session_list (all_numbers gss) l.0 (prepared-length i (serves i (omega arith)))
        (Ascending-later (i * max_player_per_game + length (ids i)) ((i + 1) * max_player_per_game)
          (all_numbers gss) (omega (arith, (serves i (omega arith)).as_many))
          (Launched-Ascending left (i + 1) gss (λ n h. serves n (omega (arith, h))) l.1))

  module _ (env : System) (fuel rounds : ℕ) where
    launch_lem :
        (left i : ℕ)
        → ((n : ℕ) → n < i + left → Serves (svc n) (ids n) (new_game_session region n))
        → (gss : List GameSession) × (launch_game_sessions svc env fuel
              (suc rounds)
              i
              (all_prepared_from left i)
            ≡ some (returns gss))
          × Launched left i gss
    unfolding launch_game_sessions launched_then launch_game_session new_game_session
    launch_lem zero i serves = ([], refl, refl)
    launch_lem (suc left) i serves =
        let v = serves i (omega arith) in
        let (gs, launches, joined) =
          (launch_game_session_lem env fuel rounds (svc i) (new_game_session region i) v.somewhere
              (ids i) refl v.made v.goes_active v.joins v.as_many).0
            v.all_prepared in
        let (gss, rest, later) = launch_lem left (i + 1) (λ n h. serves n (omega (arith, h))) in
        (gs ∷ gss, ap₂ launched_then launches rest, (joined, later))

-- The game sessions of the process are prepared and launched. If the services make the game
-- sessions at once, and give as many identifiers as there are players to prepare, and all of them can be
-- prepared, then `LaunchGameSessions` returns, the players of each game session were asked to connect
-- with its identifiers, one each, and the numbers of all players of all game sessions ascend: no two
-- are the same.
pub launch_game_sessions_lem :
    (env : System) (fuel rounds gs_count : ℕ) (svc : ℕ → Service) (ids : ℕ → List (List ℕ))
    (region : List ℕ)
    → ((n : ℕ) → n < gs_count → Serves (svc n) (ids n) (new_game_session region n))
    → (gss : List GameSession) × (launch_game_sessions svc env fuel
          (suc rounds)
          0
          (prepare_game_sessions svc region gs_count)
        ≡ some (returns gss))
      × Launched svc ids region gs_count 0 gss
      × Ascending 0 (all_numbers gss)
unfolding prepare_game_sessions
launch_game_sessions_lem env fuel rounds gs_count svc ids region serves =
    let (gss, launches, l) =
      launch_lem svc ids region env fuel rounds gs_count 0 (λ n h. serves n (omega (arith, h))) in
    (
      gss,
      ap (launch_game_sessions svc env fuel (suc rounds) 0)
            (prepare_sessions-append svc ids region gs_count 0 [])
          ∙ launches,
      l,
      Launched-Ascending svc ids region gs_count 0 gss (λ n h. serves n (omega (arith, h))) l,
    )
