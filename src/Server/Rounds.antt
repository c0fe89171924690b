-- ===== src/Server/Rounds.antt =====
-- One round of `DispatchPacket`, in the cases where a handler is called.
use game_lift.Prelude.{ℕ, ◌≤◌, ◌<◌, ◌≡◌, false, List, arith}
use game_lift.Buffer.{taken, peek, get_stored_size}
use game_lift.Buffer.Drain.{read_refused}
use game_lift.Packet.{decode_header, size_of_short, invalid_type, header_size}
use game_lift.Server.State.{World, Services, Result, ok, put_session}
use game_lift.Server.Handlers.{again, dispatch_round, handler, with_packet}

-- The header at the front of a session's receive buffer, all of whose packet seems to be there.
pub record AtFront (w : World) (s : ℕ) (h : List ℕ) : Type 0 where
  pub peeked : peek (w.sessions s).recv_buffer header_size ≡ taken h
  pub complete : size_of_short (decode_header h).size ≤ get_stored_size (w.sessions s).recv_buffer

pub AtFront-same :
    {w w' : World} {s : ℕ} {h : List ℕ}
    → (w'.sessions s).recv_buffer ≡ (w.sessions s).recv_buffer
    → AtFront w s h
    → AtFront w' s h
AtFront-same e f = record { peeked = rw e f.peeked; complete = rw e f.complete }

-- The state after a `Read` that is refused.
abbrev pub unread : World → ℕ → World
unread w s = put_session w s (record (w.sessions s) { recv_buffer = (w.sessions s).recv_buffer })

module _ (env : Services) where
  pub dispatch_round-handler :
      {w : World} {s : ℕ} {h : List ℕ}
      → AtFront w s h
      → invalid_type (decode_header h).type ≡ false
      → dispatch_round env w s ≡ again (handler env (decode_header h).type w s)
  unfolding dispatch_round
  dispatch_round-handler {w} {s} {h} f v = ground (arith, f.peeked, f.complete)

  -- A handler that finds fewer bytes than its structure has.
  pub with_packet-refused :
      (w : World) (s n : ℕ) (body : World → List ℕ → Result World)
      → get_stored_size (w.sessions s).recv_buffer < n
      → with_packet env w s n body ≡ ok (unread w s)
  unfolding with_packet
  with_packet-refused w s n body h = ground (arith, read_refused (w.sessions s).recv_buffer n h)
