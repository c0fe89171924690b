-- ===== src/Game/Stuck.antt =====
-- A packet at which `OnRead` of the Windows server does not return.
use game_lift.Prelude.{ℕ, zero, suc, ◌≤◌, ◌≡◌, refl, sym, subst, false, inl, inr, ◌⊎◌, List, arith}
use game_lift.Buffer.{CircularBuffer, taken, peek, get_stored_size}
use game_lift.Packet.{decode_header, header_size, size_of_short}
use game_lift.Server.State.{still_running}
use game_lift.Server.Stuck.{IsUnregistered}
use game_lift.Overlapped
use game_lift.Overlapped.{dr_active}
use game_lift.Game.State.{World, Services, returns, fails}
use game_lift.Game.Player.{has_player, put_session, disconnect}
use game_lift.Game.Handlers.{again, read_round, on_read}

-- A whole packet, as its header states it, at the front of a receive buffer.
pub record AtFront (b : CircularBuffer) (h : List ℕ) : Type 0 where
  pub peeked : peek b header_size ≡ taken h
  pub complete : size_of_short (decode_header h).size ≤ get_stored_size b

module _ (env : Services) where
  read_round-unregistered :
      (w : World) (s : ℕ) {h : List ℕ}
      → AtFront (w.players s).recv_buffer h
      → IsUnregistered (decode_header h).type
      → read_round env w s ≡ again (disconnect env dr_active w s)
  unfolding read_round
  read_round-unregistered w s {h} f u =
      ground (arith, f.peeked, f.complete, u.in_range, u.no_login, u.no_exit, u.no_chat, u.no_move)

  -- What `Disconnect` leaves of a session without a player.
  closed : World → ℕ → World
  closed w s = put_session w s (Overlapped.disconnect dr_active (w.players s).session)

  disconnect_anonymous :
      (w : World) (s : ℕ)
      → has_player (w.players s) ≡ false
      → disconnect env dr_active w s ≡ returns (closed w s)
        ⊎ disconnect env dr_active w s ≡ returns w
  unfolding disconnect closed
  disconnect_anonymous w s none_yet = ground (arith, none_yet)

  closed-same :
      (w : World) (s : ℕ)
      → (((closed w s).players s).recv_buffer ≡ (w.players s).recv_buffer)
        × (((closed w s).players s).player_session_id ≡ (w.players s).player_session_id)
  unfolding closed
  closed-same w s = (ground arith, ground arith)

  -- A packet whose type is in the range of the table but has no handler, from a session that has not
  -- logged in: `OnRead` disconnects the session, finds the packet again, and goes round for ever. It
  -- keeps a thread of the pool.
  pub on_read_unregistered :
      (fuel : ℕ) (w : World) (s : ℕ) {h : List ℕ}
      → AtFront (w.players s).recv_buffer h
      → IsUnregistered (decode_header h).type
      → has_player (w.players s) ≡ false
      → on_read env fuel w s ≡ fails still_running
  unfolding on_read
  on_read_unregistered zero w s f u anonymous = refl
  on_read_unregistered (suc fuel) w s {h} f u anonymous =
      elim (disconnect_anonymous w s anonymous) [
        | inl goes ↦
            let (same, id) = closed-same w s in
            rw (read_round-unregistered w s f u, goes, on_read)
              (on_read_unregistered fuel (closed w s) s (subst (λ b. AtFront b h) (sym same) f) u
                (rw id anonymous))
        | inr stays ↦
            rw (read_round-unregistered w s f u, stays, on_read)
              (on_read_unregistered fuel w s f u anonymous)
      ]
