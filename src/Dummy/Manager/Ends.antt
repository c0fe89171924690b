-- ===== src/Dummy/Manager/Ends.antt =====
-- About `TerminateGameSessions` of DummyClients.
use game_lift.Prelude.{
  ℕ, ◌+◌, ◌≡◌, refl, ap, ap₂, ◌∙◌, Bool, false, Bool-cases, inl, inr, ◌⊎◌, List, [], ◌∷◌,
  if◌then◌else◌, arith, length,
}
use game_lift.Overlapped.{dr_active}
use game_lift.Dummy.State.{io_disconnect, PlayerSession, System, Ending, returns, ◌>>=◌}
use game_lift.Dummy.Session.{start_io, disconnect_request}
use game_lift.Dummy.Events.{happen, closes}
use game_lift.Dummy.Counted.{taken_io, refused_io, start_io-cases}
use game_lift.Dummy.Games.{GameSession, disconnect_from, disconnect_player_sessions}
use game_lift.Dummy.Manager.{terminate_game_sessions}

-- A player before and after its game session is ended.
pub record Closed (s t : PlayerSession) : Type 0 where
  pub off : t.connected ≡ false
  pub calls_left :
      (t.in_flight ≡ s.in_flight) ⊎ (t.in_flight ≡ io_disconnect dr_active ∷ s.in_flight)
  pub refs : t.ref_count + length s.in_flight ≡ s.ref_count + length t.in_flight
  pub alone : s.connected ≡ false → t ≡ s

-- The same for the players of a game session, and for those of all.
abbrev pub AllClosed : List PlayerSession → List PlayerSession → Type 0
AllClosed [] ts = ts ≡ []
AllClosed (s ∷ ss) [] = ⊥
AllClosed (s ∷ ss) (t ∷ ts) = Closed s t × AllClosed ss ts

abbrev pub Terminated : List GameSession → List GameSession → Type 0
Terminated [] hs = hs ≡ []
Terminated (g ∷ gs) [] = ⊥
Terminated (g ∷ gs) (h ∷ hs) =
    AllClosed g.ready_session_list h.ready_session_list × Terminated gs hs

module _ (env : System) (fuel : ℕ) where
  closes_lem :
      (s : PlayerSession)
      → (t : PlayerSession) × (happen env fuel closes s ≡ returns t) × Closed s t
  unfolding happen disconnect_request
  closes_lem s = elim (Bool-cases s.connected) [
    | inl on ↦
        let off : PlayerSession = record s { connected = false } in
        let asks : happen env fuel closes s ≡ disconnect_request env dr_active s =
          ap (λ b. if b then disconnect_request env dr_active s else returns s) on in
        let finish =
          λ (r : Bool × PlayerSession). let m : Ending PlayerSession = returns r.1 in m in
        let request : disconnect_request env dr_active s
            ≡ (start_io env (io_disconnect dr_active) off >>= finish) =
          ap (λ b. if b then (start_io env (io_disconnect dr_active) off >>= finish) else returns s)
            on in
        elim (start_io-cases env (io_disconnect dr_active) off) [
          | inl took ↦ (
            taken_io (io_disconnect dr_active) off,
            asks ∙ request ∙ ap (λ m. m >>= finish) took,
            record {
              off = refl;
              calls_left = inr refl;
              refs = omega arith;
              alone = λ h. cc (h, on);
            },
          )
          | inr refused ↦ (
            refused_io off,
            asks ∙ request ∙ ap (λ m. m >>= finish) refused,
            record {
              off = refl;
              calls_left = inl refl;
              refs = omega arith;
              alone = λ h. cc (h, on);
            },
          )
        ]
    | inr off ↦ (
      s,
      ap (λ b. if b then disconnect_request env dr_active s else returns s) off,
      record { off = off; calls_left = inl refl; refs = refl; alone = λ h. refl },
    )
  ]

  disconnect_from_lem :
      (ss : List PlayerSession)
      → (ts : List PlayerSession) × (disconnect_from env fuel ss ≡ returns ts) × AllClosed ss ts
  unfolding disconnect_from
  disconnect_from_lem [] = ([], refl, refl)
  disconnect_from_lem (s ∷ ss) =
      let (t, first, closed) = closes_lem s in
      let (ts, rest, all) = disconnect_from_lem ss in
      (t ∷ ts, ap₂ (λ m n. m >>= λ s'. n >>= λ ss'. returns (s' ∷ ss')) first rest, (closed, all))

-- `TerminateGameSessions` returns, whatever the state of the players: afterwards none is connected. A
-- player that was not connected stays as it was. Of another the system has at most one call more, a
-- disconnect, and a player has as many references more as the system has calls of it more.
pub terminate_game_sessions_lem :
    (env : System) (fuel : ℕ) (gs : List GameSession)
    → (hs : List GameSession) × (terminate_game_sessions env fuel gs ≡ returns hs)
      × Terminated gs hs
unfolding terminate_game_sessions disconnect_player_sessions
terminate_game_sessions_lem env fuel [] = ([], refl, refl)
terminate_game_sessions_lem env fuel (g ∷ gs) =
    let (ts, first, closed) = disconnect_from_lem env fuel g.ready_session_list in
    let (hs, rest, all) = terminate_game_sessions_lem env fuel gs in
    (
      record g { ready_session_list = ts } ∷ hs,
      ap₂
          (λ m n. m >>= (λ ss. returns (record g { ready_session_list = ss })) >>= λ g'.
            n >>= λ gs'. returns (g' ∷ gs'))
          first rest,
      (closed, all),
    )
