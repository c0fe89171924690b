-- ===== src/Server/Valid.antt =====
-- Every buffer stays valid, and so no assertion fails, whatever clients send.
pub mod Loops
use game_lift.Prelude.{
  ℕ, zero, suc, ◌≤◌, ◌≡◌, ◌≢◌, refl, subst, sym, inl, inr, Bool, true, false, Bool-cases, Option,
  none, some, List, [], ◌∷◌, if◌then◌else◌, arith, take, slice, length, length-take, Option-cases,
}
use game_lift.Buffer.{
  CircularBuffer, Outcome, refused, taken, aborted, peek, read, write, get_stored_size,
}
use game_lift.Buffer.Inv.{IsValid}
use game_lift.Buffer.Drain.{read-IsValid, peek-eq-read}
use game_lift.Buffer.Fill.{write-IsValid, store-Put, store, opened, room, Put}
use game_lift.Packet.{
  login_result, c_string, header_size, decode_header, size_of_short, invalid_type, login_size,
  exit_size, chat_size, move_size,
}
use game_lift.Server.State.{
  ClientSession, World, Services, Result, ok, fault, Fault, dead_iterator, unterminated, assertion,
  null_session, still_running, ◌>>=◌, put_session, member,
}
use game_lift.Server.Session.{
  disconnect, send_request, send_or_disconnect, finish_login, player_login, player_logout,
}
use game_lift.Server.Roster.{accept_player_session}
use game_lift.Server.Broadcast.{broadcast_to, broadcast_from, broadcast_message}
use game_lift.Server.Handlers.{
  Round, return, again, player_id, login_body, exit_body, chat_body, move_body, login_handler,
  exit_handler, chat_handler, move_handler, default_handler, handler, with_packet, dispatch_round,
  dispatch_packet,
}
use game_lift.Server.Receive.{
  Arrival, arrived, would_block, failed, receive, receive_loop, on_receive,
}

pub record AllValid (w : World) : Type 0 where
  pub sending : (t : ℕ) → IsValid (w.sessions t).send_buffer
  pub receiving : (t : ℕ) → IsValid (w.sessions t).recv_buffer

-- A result that keeps the buffers valid, and is no failed assertion.
abbrev pub Safe : Result World → Type 0
Safe (ok w) = AllValid w
Safe (fault assertion) = ⊥
Safe (fault e) = Unit {0}

pub AllValid-put :
    {w : World} (s : ℕ) (c : ClientSession)
    → AllValid w
    → IsValid c.send_buffer
    → IsValid c.recv_buffer
    → AllValid (put_session w s c)
AllValid-put {w} s c v a b = record {
  sending = λ t. ground (arith, v.sending t);
  receiving = λ t. ground (arith, v.receiving t);
}

pub >>=-Safe :
    (r : Result World) (f : World → Result World)
    → Safe r
    → ((w : World) → AllValid w → Safe (f w))
    → Safe (r >>= f)
>>=-Safe (ok w) f h k = k w h
>>=-Safe (fault assertion) f h k = absurd h
>>=-Safe (fault dead_iterator) f h k = tt
>>=-Safe (fault unterminated) f h k = tt
>>=-Safe (fault null_session) f h k = tt
>>=-Safe (fault still_running) f h k = tt

module _ (env : Services) where
  pub disconnect-AllValid : {w : World} (s : ℕ) → AllValid w → AllValid (disconnect env w s)
  unfolding disconnect
  disconnect-AllValid {w} s v = record {
    sending = λ t. ground (arith, v.sending t);
    receiving = λ t. ground (arith, v.receiving t);
  }

  send_request-AllValid :
      {w : World} (s : ℕ) (pkt : List ℕ) → AllValid w → AllValid (send_request env w s pkt).1
  unfolding send_request
  send_request-AllValid {w} s pkt v = record {
    sending = λ t. ground (arith, v.sending t, write-IsValid pkt (v.sending s));
    receiving = λ t. ground (arith, v.receiving t);
  }

  send_or_disconnect-AllValid :
      {w : World} (s : ℕ) (pkt : List ℕ) → AllValid w → AllValid (send_or_disconnect env w s pkt)
  unfolding send_or_disconnect
  send_or_disconnect-AllValid {w} s pkt v = record {
    sending = λ t. ground (arith, v.sending t, write-IsValid pkt (v.sending s));
    receiving = λ t. ground (arith, v.receiving t);
  }

  finish_login-AllValid :
      (accepted : Bool) {w : World} (s : ℕ) (id : List ℕ)
      → AllValid w
      → AllValid (finish_login env accepted w s id)
  unfolding finish_login
  finish_login-AllValid true {w} s id v = send_or_disconnect-AllValid s (login_result id) (
      AllValid-put s (record (w.sessions s) { player_session_id = id }) v (v.sending s)
        (v.receiving s))
  finish_login-AllValid false s id v = disconnect-AllValid s v

  pub player_login-AllValid :
      {w : World} (s : ℕ) (id : List ℕ) → AllValid w → AllValid (player_login env w s id)
  unfolding player_login
  player_login-AllValid {w} s id v =
      finish_login-AllValid (accept_player_session env w.manager s id).0 s id
        (record { sending = v.sending; receiving = v.receiving })

  pub player_logout-AllValid :
      {w : World} (s : ℕ) (id : List ℕ) → AllValid w → AllValid (player_logout env w s id)
  unfolding player_logout
  player_logout-AllValid {w} s id v = record {
    sending = λ t. ground (arith, v.sending t);
    receiving = λ t. ground (arith, v.receiving t);
  }

  broadcast_from-Safe :
      (pkt ss : List ℕ) (w : World) → AllValid w → Safe (broadcast_from env pkt w ss)
  unfolding broadcast_from
  broadcast_from-Safe pkt [] w v = v
  broadcast_from-Safe pkt (s ∷ ss) w v =
      elim (Bool-cases (member s (broadcast_to env pkt w s).manager.player_sessions)) [
        | inl kept ↦
            rw (kept, broadcast_from)
              (broadcast_from-Safe pkt ss (broadcast_to env pkt w s)
                (send_or_disconnect-AllValid s pkt v))
        | inr lost ↦ rw (lost, broadcast_from) tt
      ]

  pub broadcast_message-Safe :
      (pkt : List ℕ) (w : World) → AllValid w → Safe (broadcast_message env pkt w)
  unfolding broadcast_message
  broadcast_message-Safe pkt w v = broadcast_from-Safe pkt w.manager.player_sessions w v

  pub with_packet-Safe :
      (w : World) (s n : ℕ) (body : World → List ℕ → Result World)
      → AllValid w
      → ((w' : World) (bytes : List ℕ) → AllValid w' → Safe (body w' bytes))
      → Safe (with_packet env w s n body)
  unfolding with_packet
  with_packet-Safe w s n body v h =
      go (read (w.sessions s).recv_buffer n).0 (read-IsValid n (v.receiving s)).1
    where
      w' : World
      w' =
          put_session w s
            (record (w.sessions s) { recv_buffer = (read (w.sessions s).recv_buffer n).1 })

      v' : AllValid w'
      v' =
          AllValid-put s
            (record (w.sessions s) { recv_buffer = (read (w.sessions s).recv_buffer n).1 }) v
            (v.sending s) (read-IsValid n (v.receiving s)).0

      go :
          (out : Outcome)
          → out ≢ aborted
          → Safe (elim out [
            | refused ↦ ok w'
            | taken bytes ↦ body w' bytes
            | aborted ↦ fault assertion
          ])
      go refused ne = v'
      go (taken bytes) ne = h w' bytes v'
      go aborted ne = absurd (ne refl)

  pub player_id-Safe :
      (bytes : List ℕ) (f : List ℕ → Result World)
      → ((id : List ℕ) → Safe (f id))
      → Safe (player_id env bytes >>= f)
  unfolding player_id
  player_id-Safe bytes f h = elim (Option-cases (c_string (slice bytes header_size 128))) [
    | inl e ↦ rw e tt
    | inr (id, e) ↦ rw e (h id)
  ]
