-- ===== src/Server/Delivery.antt =====
-- Whom `BroadcastMessage` reaches, and when it goes wrong.
use game_lift.Prelude.{
  ℕ, ◌≤◌, ◌<◌, ◌≡◌, ◌≢◌, refl, subst, sym, ap, ◌∙◌, true, false, List, [], ◌∷◌, ◌++◌, arith, length,
}
use native.Mathlib.Decide.{ℕ_discrete}
use game_lift.Buffer.{write}
use game_lift.Buffer.Inv.{IsValid, contents}
use game_lift.Buffer.Fill.{room, Put, write_fits, write_over}
use game_lift.Server.State.{
  ClientSession, World, Services, ok, fault, dead_iterator, put_session, member, erase,
}
use game_lift.Server.Roster.{remove_player_session}
use game_lift.Server.Session.{has_player, disconnect, send_or_disconnect}
use game_lift.Server.Broadcast.{broadcast_to, broadcast_from, broadcast_message}

-- A connected session whose send buffer offers room for the packet.
pub record IsReady (pkt : List ℕ) (c : ClientSession) : Type 0 where
  pub on : c.connected ≡ true
  pub valid : IsValid c.send_buffer
  pub fits : length pkt ≤ room c.send_buffer

abbrev pub AllReady : List ℕ → World → List ℕ → Type 0
AllReady pkt w [] = Unit {0}
AllReady pkt w (s ∷ ss) = IsReady pkt (w.sessions s) × AllReady pkt w ss

-- No session twice: what a `std::set` guarantees.
abbrev pub AllDistinct : List ℕ → Type 0
AllDistinct [] = Unit {0}
AllDistinct (s ∷ ss) = (member s ss ≡ false) × AllDistinct ss

AllReady-update :
    (pkt : List ℕ) (w : World) (s : ℕ) (c : ClientSession) (ss : List ℕ)
    → member s ss ≡ false
    → AllReady pkt w ss
    → AllReady pkt (put_session w s c) ss
AllReady-update pkt w s c [] h r = tt
AllReady-update pkt w s c (t ∷ ts) h r =
    (ground (arith, r.0), AllReady-update pkt w s c ts (ground arith) r.1)

module _ (env : Services) (pkt : List ℕ) where
  -- What a session's object becomes when the packet is buffered for it.
  sent_to : ClientSession → ClientSession
  sent_to c = record c { send_buffer = (write c.send_buffer pkt).1 }

  broadcast_to-IsReady :
      (w : World) (s : ℕ)
      → IsReady pkt (w.sessions s)
      → broadcast_to env pkt w s ≡ put_session w s (sent_to (w.sessions s))
  unfolding send_or_disconnect sent_to
  broadcast_to-IsReady w s r = ground (arith, r.on, (write_fits pkt r.valid r.fits).0)

  -- The packet reaches the sessions of a list, and nothing else changes.
  pub record Reaches (w : World) (targets : List ℕ) (w' : World) : Type 0 where
    pub returns : broadcast_from env pkt w targets ≡ ok w'
    pub same_manager : w'.manager ≡ w.manager
    pub same_clients : w'.clients ≡ w.clients
    pub reached :
        (t : ℕ)
        → member t targets ≡ true
        → (contents (w'.sessions t).send_buffer ≡ contents (w.sessions t).send_buffer ++ pkt)
          × IsValid (w'.sessions t).send_buffer
    pub others : (t : ℕ) → member t targets ≡ false → w'.sessions t ≡ w.sessions t

  pub deliver_all : World → List ℕ → World
  deliver_all w [] = w
  deliver_all w (s ∷ ss) = deliver_all (put_session w s (sent_to (w.sessions s))) ss

  -- One turn, and the rest of the loop after it.
  module _ (w w' : World) {s : ℕ} {ss : List ℕ} (new : member s ss ≡ false)
      (r : IsReady pkt (w.sessions s)) (kept : member s w.manager.player_sessions ≡ true)
      (later : Reaches (put_session w s (sent_to (w.sessions s))) ss w') where
    reached_first :
        (t : ℕ)
        → s ≡ t
        → (contents (w'.sessions t).send_buffer ≡ contents (w.sessions t).send_buffer ++ pkt)
          × IsValid (w'.sessions t).send_buffer
    unfolding sent_to
    reached_first t e =
        let p : Put (w.sessions s).send_buffer pkt (write (w.sessions s).send_buffer pkt).1 =
          (write_fits pkt r.valid r.fits).1 in
        let here : (w'.sessions s).send_buffer ≡ (write (w.sessions s).send_buffer pkt).1 =
          ground (arith, later.others s new) in
        subst
          (λ k.
            (contents (w'.sessions k).send_buffer ≡ contents (w.sessions k).send_buffer ++ pkt)
            × IsValid (w'.sessions k).send_buffer)
          e (ap contents here ∙ p.whole, subst IsValid (sym here) p.valid)

    reached_later :
        (t : ℕ)
        → s ≢ t
        → member t ss ≡ true
        → (contents (w'.sessions t).send_buffer ≡ contents (w.sessions t).send_buffer ++ pkt)
          × IsValid (w'.sessions t).send_buffer
    reached_later t ne e =
        let same : (put_session w s (sent_to (w.sessions s))).sessions t ≡ w.sessions t =
          ground arith in
        let (here, valid) = later.reached t e in
        (here ∙ ap (λ c. contents c.send_buffer ++ pkt) same, valid)

    Reaches-step : Reaches w (s ∷ ss) w'
    unfolding broadcast_from
    Reaches-step = record {
      returns = ground (arith, broadcast_to-IsReady w s r, kept, later.returns);
      same_manager = later.same_manager;
      same_clients = later.same_clients;
      reached = λ t e. elim (ℕ_discrete s t) [
        | yes same ↦ reached_first t same
        | no other ↦ reached_later t other (ground (arith, e))
      ];
      others = λ t e. ground (arith, later.others t);
    }

  broadcast_from-Reaches :
      (ss : List ℕ) (w : World)
      → AllDistinct ss
      → AllReady pkt w ss
      → ((t : ℕ) → member t ss ≡ true → member t w.manager.player_sessions ≡ true)
      → Reaches w ss (deliver_all w ss)
  unfolding broadcast_from deliver_all
  broadcast_from-Reaches [] w d r m = record {
    returns = refl;
    same_manager = refl;
    same_clients = refl;
    reached = λ t e. absurd (ground arith);
    others = λ t e. refl;
  }
  broadcast_from-Reaches (s ∷ ss) w d r m =
      Reaches-step w (deliver_all (put_session w s (sent_to (w.sessions s))) ss) d.0 r.0
        (m s (ground arith))
        (broadcast_from-Reaches ss (put_session w s (sent_to (w.sessions s))) d.1
          (AllReady-update pkt w s (sent_to (w.sessions s)) ss d.0 r.1)
          (λ t e. m t (ground (arith, e))))

  -- If no player is in the set twice, and every player is connected and has a valid send buffer with
  -- room for the packet, then `BroadcastMessage` returns, the packet is buffered for each of them,
  -- once, behind what was there, and neither another session, the table nor the manager changes.
  pub broadcast_message-Reaches :
      (w : World)
      → AllDistinct w.manager.player_sessions
      → AllReady pkt w w.manager.player_sessions
      → let w' = deliver_all w w.manager.player_sessions in
        (broadcast_message env pkt w ≡ ok w') × Reaches w w.manager.player_sessions w'
  unfolding broadcast_message
  broadcast_message-Reaches w d r =
      let reaches : Reaches w w.manager.player_sessions (deliver_all w w.manager.player_sessions) =
        broadcast_from-Reaches w.manager.player_sessions w d r (λ t e. e) in
      (reaches.returns, reaches)

  erase-first : (s : ℕ) (ss : List ℕ) → erase s (s ∷ ss) ≡ ss
  unfolding erase
  erase-first s ss = ground arith

  -- If a packet does not fit into the room of the first player of the set, who is connected, has a
  -- player id and a valid buffer, whose socket takes the linger option and whose removal the service
  -- accepts, then `BroadcastMessage` goes on from an element of the set that it has erased.
  pub broadcast_message_overrun :
      (w : World) (s : ℕ) (ss : List ℕ)
      → w.manager.player_sessions ≡ s ∷ ss
      → member s ss ≡ false
      → (w.sessions s).connected ≡ true
      → has_player (w.sessions s) ≡ true
      → env.lingers (w.sessions s).socket ≡ true
      → env.removes w.manager.calls (w.sessions s).player_session_id ≡ true
      → IsValid (w.sessions s).send_buffer
      → room (w.sessions s).send_buffer < length pkt
      → broadcast_message env pkt w ≡ fault dead_iterator
  unfolding broadcast_message disconnect remove_player_session
  broadcast_message_overrun w s ss e new on player linger gone v over =
      ground (arith, write_over pkt v over, erase-first s ss, ap (erase s) e)
