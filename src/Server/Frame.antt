-- ===== src/Server/Frame.antt =====
-- What the operations leave alone: nothing but `OnReceive` and a handler's `ParsePacket` touches
-- the bytes that a session has received, and no operation changes its socket.
use game_lift.Prelude.{
  ℕ, ◌≡◌, refl, subst, inl, inr, Bool-cases, ◌∙◌, Bool, true, false, List, [], ◌∷◌, arith,
}
use game_lift.Server.State.{World, Services, ok, ok-injective, put_session, member}
use game_lift.Server.Session.{
  disconnect, send_request, send_or_disconnect, finish_login, player_login, player_logout,
}
use game_lift.Packet.{login_result}
use game_lift.Server.Roster.{accept_player_session}
use game_lift.Server.Broadcast.{broadcast_to, broadcast_from, broadcast_message}

-- Every session has the same received bytes and the same socket.
pub record SameInput (w w' : World) : Type 0 where
  pub inbox : (t : ℕ) → (w'.sessions t).recv_buffer ≡ (w.sessions t).recv_buffer
  pub socket : (t : ℕ) → (w'.sessions t).socket ≡ (w.sessions t).socket

pub SameInput-refl : (w : World) → SameInput w w
SameInput-refl w = record { inbox = λ t. refl; socket = λ t. refl }

pub SameInput-trans : {u v w : World} → SameInput u v → SameInput v w → SameInput u w
SameInput-trans a b = record {
  inbox = λ t. b.inbox t ∙ a.inbox t;
  socket = λ t. b.socket t ∙ a.socket t;
}

module _ (env : Services) where
  pub disconnect-SameInput : (w : World) (s : ℕ) → SameInput w (disconnect env w s)
  unfolding disconnect
  disconnect-SameInput w s = record { inbox = λ t. ground arith; socket = λ t. ground arith }

  pub send_request-SameInput :
      (w : World) (s : ℕ) (pkt : List ℕ) → SameInput w (send_request env w s pkt).1
  unfolding send_request
  send_request-SameInput w s pkt = record { inbox = λ t. ground arith; socket = λ t. ground arith }

  pub send_or_disconnect-SameInput :
      (w : World) (s : ℕ) (pkt : List ℕ) → SameInput w (send_or_disconnect env w s pkt)
  unfolding send_or_disconnect
  send_or_disconnect-SameInput w s pkt = record {
    inbox = λ t. ground arith;
    socket = λ t. ground arith;
  }

  finish_login-SameInput :
      (accepted : Bool) (w : World) (s : ℕ) (id : List ℕ)
      → SameInput w (finish_login env accepted w s id)
  unfolding finish_login
  finish_login-SameInput true w s id =
      let named : SameInput w (put_session w s (record (w.sessions s) { player_session_id = id })) =
        record { inbox = λ t. ground arith; socket = λ t. ground arith } in
      SameInput-trans named (send_or_disconnect-SameInput _ s (login_result id))
  finish_login-SameInput false w s id = disconnect-SameInput w s

  pub player_login-SameInput :
      (w : World) (s : ℕ) (id : List ℕ) → SameInput w (player_login env w s id)
  unfolding player_login
  player_login-SameInput w s id =
      let same =
        finish_login-SameInput (accept_player_session env w.manager s id).0
          (record w { manager = (accept_player_session env w.manager s id).1 }) s id in
      record { inbox = same.inbox; socket = same.socket }

  pub player_logout-SameInput :
      (w : World) (s : ℕ) (id : List ℕ) → SameInput w (player_logout env w s id)
  unfolding player_logout
  player_logout-SameInput w s id = record { inbox = λ t. ground arith; socket = λ t. ground arith }

  broadcast_from-SameInput :
      (pkt : List ℕ) (targets : List ℕ) (w : World) {w' : World}
      → broadcast_from env pkt w targets ≡ ok w'
      → SameInput w w'
  unfolding broadcast_from
  broadcast_from-SameInput pkt [] w e = subst (SameInput w) (ok-injective e) (SameInput-refl w)
  broadcast_from-SameInput pkt (s ∷ rest) w e =
      elim (Bool-cases (member s (broadcast_to env pkt w s).manager.player_sessions)) [
        | inl kept ↦ SameInput-trans (send_or_disconnect-SameInput w s pkt) (
            broadcast_from-SameInput pkt rest (broadcast_to env pkt w s)
              (rw (kept, broadcast_from) at e))
        | inr gone ↦ absurd (ground (arith, gone, e))
      ]

  pub broadcast_message-SameInput :
      (pkt : List ℕ) (w : World) {w' : World} → broadcast_message env pkt w ≡ ok w' → SameInput w w'
  unfolding broadcast_message
  broadcast_message-SameInput pkt w e = broadcast_from-SameInput pkt w.manager.player_sessions w e
