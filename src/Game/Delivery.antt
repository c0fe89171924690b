-- ===== src/Game/Delivery.antt =====
-- Whom `BroadcastMessage` of the Windows server reaches, and when it waits for its own lock.
use game_lift.Prelude.{
  ℕ, ◌+◌, ◌≤◌, ◌<◌, ◌≡◌, refl, subst, sym, ap, ◌∙◌, true, false, some, List, [], ◌∷◌, ◌++◌,
  append-nil, arith, length, ltb, if◌then◌else◌,
}
use native.Mathlib.Decide.{ℕ_discrete}
use game_lift.Buffer.{write}
use game_lift.Buffer.Inv.{IsValid, contents}
use game_lift.Buffer.Fill.{room, Put, write_fits, write_over}
use game_lift.Server.State.{member}
use game_lift.Overlapped.{Session, send_context}
use game_lift.Overlapped
use game_lift.Game.State.{PlayerSession, World, Services, returns, hangs, ◌>>=◌}
use game_lift.Game.Manager.{leave, remove_player_session}
use game_lift.Game.Player.{has_player, put_session, broadcast_to, broadcast_from, broadcast_message}

module _ (env : Services) (pkt : List ℕ) where
  -- A connected session whose send buffer offers room for the packet, and for which the system takes
  -- a send.
  pub record IsReady (s : ℕ) (c : Session) : Type 0 where
    pub on : c.connected ≡ true
    pub valid : IsValid c.send_buffer
    pub fits : length pkt ≤ room c.send_buffer
    pub takes : env.takes s c ≡ true

  -- A connected player whose send buffer offers no room for the packet.
  pub record IsFull (p : PlayerSession) : Type 0 where
    pub on : p.session.connected ≡ true
    pub player : has_player p ≡ true
    pub valid : IsValid p.session.send_buffer
    pub over : room p.session.send_buffer < length pkt

  abbrev pub AllReady : (ℕ → PlayerSession) → List ℕ → Type 0
  AllReady players [] = Unit {0}
  AllReady players (s ∷ ss) = IsReady s (players s).session × AllReady players ss

  -- No session twice: what a `std::set` guarantees.
  abbrev pub AllDistinct : List ℕ → Type 0
  AllDistinct [] = Unit {0}
  AllDistinct (s ∷ ss) = (member s ss ≡ false) × AllDistinct ss

  -- What a session becomes when the packet is buffered for it, and sent if no send is on its way.
  buffered : Session → Session
  buffered c =
      let b = (write c.send_buffer pkt).1 in
      if ltb 0 c.send_pending_count
      then record c { send_buffer = b; posted = c.posted ++ pkt }
      else record c {
        send_buffer = b;
        posted = c.posted ++ pkt;
        send_pending_count = c.send_pending_count + 1;
        in_flight = send_context b ∷ c.in_flight;
      }

  buffered-all :
      (c : Session)
      → ((buffered c).posted ≡ c.posted ++ pkt)
        × ((buffered c).send_buffer ≡ (write c.send_buffer pkt).1)
        × ((buffered c).connected ≡ c.connected)
        × (0 < (buffered c).send_pending_count)
  unfolding buffered
  buffered-all c = ground arith

  broadcast_to-IsReady :
      (w : World) (s : ℕ)
      → IsReady s (w.players s).session
      → broadcast_to env pkt w s ≡ returns (put_session w s (buffered (w.players s).session))
  unfolding broadcast_to buffered Overlapped.post_send
  broadcast_to-IsReady w s r = ground (arith, r.on, r.takes, (write_fits pkt r.valid r.fits).0)

  broadcast_to-IsFull :
      (w : World) (s : ℕ)
      → IsFull (w.players s)
      → w.manager.locked ≡ true
      → broadcast_to env pkt w s ≡ hangs
  unfolding broadcast_to remove_player_session Overlapped.post_send
  broadcast_to-IsFull w s f held =
      ground (arith, f.on, f.player, held, write_over pkt f.valid f.over)

  pub deliver_all : World → List ℕ → World
  deliver_all w [] = w
  deliver_all w (s ∷ ss) = deliver_all (put_session w s (buffered (w.players s).session)) ss

  AllReady-put :
      (w : World) (s : ℕ) (c : Session) (ss : List ℕ)
      → member s ss ≡ false
      → AllReady w.players ss
      → AllReady (put_session w s c).players ss
  AllReady-put w s c [] new r = tt
  AllReady-put w s c (t ∷ ts) new r =
      let same : (put_session w s c).players t ≡ w.players t = ground arith in
      (subst (λ p. IsReady t p.session) (sym same) r.0, AllReady-put w s c ts (ground arith) r.1)

  -- The loop over players that are ready, and what comes after them.
  broadcast_from-deliver_all :
      (ss rest : List ℕ) (w : World)
      → AllDistinct ss
      → AllReady w.players ss
      → broadcast_from env pkt w (ss ++ rest) ≡ broadcast_from env pkt (deliver_all w ss) rest
  unfolding broadcast_from deliver_all
  broadcast_from-deliver_all [] rest w d r = refl
  broadcast_from-deliver_all (s ∷ ss) rest w d r =
      let w' = put_session w s (buffered (w.players s).session) in
      rw (broadcast_to-IsReady w s r.0) (
        broadcast_from-deliver_all ss rest w' d.1
          (AllReady-put w s (buffered (w.players s).session) ss d.0 r.1))

  deliver_all-manager : (ss : List ℕ) (w : World) → (deliver_all w ss).manager ≡ w.manager
  unfolding deliver_all
  deliver_all-manager [] w = refl
  deliver_all-manager (s ∷ ss) w =
      deliver_all-manager ss (put_session w s (buffered (w.players s).session))

  -- A session gets the packet if it is in the list, and else stays what it is.
  deliver_all-players :
      (ss : List ℕ) (w : World) (t : ℕ)
      → AllDistinct ss
      → (deliver_all w ss).players t ≡ (
          if member t ss
          then record (w.players t) { session = buffered (w.players t).session }
          else w.players t)
  unfolding deliver_all
  deliver_all-players [] w t d = refl
  deliver_all-players (s ∷ ss) w t d =
      let w' = put_session w s (buffered (w.players s).session) in
      let later = deliver_all-players ss w' t d.1 in
      elim (ℕ_discrete t s) [
        | yes e ↦ ground (arith, later, e, d.0)
        | no ne ↦ ground (arith, later, ne)
      ]

  -- What a player has after a packet: it is behind all that was posted before, and in the buffer
  -- behind what was there; the session is connected, and a send is on its way.
  pub record Got (before after : PlayerSession) : Type 0 where
    pub posted : after.session.posted ≡ before.session.posted ++ pkt
    pub stored : contents after.session.send_buffer ≡ contents before.session.send_buffer ++ pkt
    pub valid : IsValid after.session.send_buffer
    pub on : after.session.connected ≡ true
    pub sending : 0 < after.session.send_pending_count
    pub same_id : after.player_session_id ≡ before.player_session_id

  buffered-Got :
      (p : PlayerSession)
      → (s : ℕ) → IsReady s p.session
      → Got p (record p { session = buffered p.session })
  buffered-Got p s r =
      let (posted, here, on, sending) = buffered-all p.session in
      let put : Put p.session.send_buffer pkt (write p.session.send_buffer pkt).1 =
        (write_fits pkt r.valid r.fits).1 in
      record {
        posted = posted;
        stored = ap contents here ∙ put.whole;
        valid = subst IsValid (sym here) put.valid;
        on = on ∙ r.on;
        sending = sending;
        same_id = refl;
      }

  AllReady-member :
      (players : ℕ → PlayerSession) (ss : List ℕ) (t : ℕ)
      → AllReady players ss
      → member t ss ≡ true
      → IsReady t (players t).session
  AllReady-member players [] t r e = absurd (ground arith)
  AllReady-member players (s ∷ ss) t r e = elim (ℕ_discrete t s) [
    | yes same ↦ subst (λ k. IsReady k (players k).session) (sym same) r.0
    | no ne ↦ AllReady-member players ss t r.1 (ground (arith, e, ne))
  ]

  broadcast_from-ready :
      (ss : List ℕ) (w : World)
      → AllDistinct ss
      → AllReady w.players ss
      → broadcast_from env pkt w ss ≡ returns (deliver_all w ss)
  unfolding broadcast_from
  broadcast_from-ready ss w d r =
      subst (λ xs. broadcast_from env pkt w xs ≡ returns (deliver_all w ss)) (append-nil ss)
        (broadcast_from-deliver_all ss [] w d r)

  module _ (w : World) (open_lock : w.manager.locked ≡ false) where
    -- The world while the lock is held.
    held : World
    held = record w { manager = record w.manager { locked = true } }

    broadcast_message-held :
        (players : List ℕ)
        → w.manager.game_session ≡ some players
        → broadcast_message env pkt w ≡ (
            broadcast_from env pkt held players >>= λ w'.
            returns (record w' { manager = leave w'.manager }))
    unfolding broadcast_message held
    broadcast_message-held players there = ground (arith, open_lock, there)

    -- If nobody holds the manager's lock, there is a game session, no player is in its set twice, and
    -- every player of it is connected, has a valid send buffer with room for the packet, and a send
    -- of the player's session would be taken by the system: then `BroadcastMessage` returns with the
    -- manager as it was, every player has the packet, and every other session is what it was.
    pub broadcast_message-Got :
        (players : List ℕ)
        → w.manager.game_session ≡ some players
        → AllDistinct players
        → AllReady w.players players
        → (w' : World) × (broadcast_message env pkt w ≡ returns w')
          × (w'.manager ≡ w.manager)
          × ((t : ℕ) → member t players ≡ true → Got (w.players t) (w'.players t))
          × ((t : ℕ) → member t players ≡ false → w'.players t ≡ w.players t)
    unfolding held
    broadcast_message-Got players there d r =
        let end = deliver_all held players in
        (
          record end { manager = leave end.manager },
          rw (broadcast_message-held players there, broadcast_from-ready players held d r) refl,
          ap leave (deliver_all-manager players held)
              ∙ ap (λ b. record w.manager { locked = b }) (sym open_lock),
          λ t e.
              rw (deliver_all-players players held t d, e)
                (buffered-Got (w.players t) t (AllReady-member w.players players t r e)),
          λ t e. rw (deliver_all-players players held t d, e) refl,
        )

    -- If a connected player of the game session has a valid send buffer without room for the packet,
    -- and the players before it in the set are ready as above, then `BroadcastMessage` never returns:
    -- the `Disconnect` of that player asks for the manager's lock, which this thread holds.
    pub broadcast_message_hangs :
        (before : List ℕ) (s : ℕ) (behind : List ℕ)
        → w.manager.game_session ≡ some (before ++ (s ∷ behind))
        → AllDistinct before
        → member s before ≡ false
        → AllReady w.players before
        → IsFull (w.players s)
        → broadcast_message env pkt w ≡ hangs
    unfolding broadcast_from held
    broadcast_message_hangs before s behind there d new r f =
        let w' = deliver_all held before in
        let same : w'.players s ≡ w.players s =
          rw (deliver_all-players before held s d, new) refl in
        rw
          (
            broadcast_message-held (before ++ (s ∷ behind)) there,
            broadcast_from-deliver_all before (s ∷ behind) held d r,
            broadcast_to-IsFull w' s (subst IsFull (sym same) f)
                (ap (λ m. m.locked) (deliver_all-manager before held)),
          )
          refl
