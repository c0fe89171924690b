-- ===== src/Overlapped.antt =====
-- GameLiftGameServer/GameLiftGameServer/Session.cpp and IOThread.cpp: how a session of the Windows
-- server sends. A send is handed to the system with a pointer into the session's circular buffer;
-- a thread of the pool hears of its completion. `PostSend` and `SendCompletion` hold the session's
-- lock, so each is one step; what else may happen in between is an `Act` of its own.
pub mod Flight
pub mod Steps
pub mod Sending
mod Tests
use game_lift.Prelude.{
  ℕ, ◌+◌, ◌-◌, ◌%◌, ◌^◌, min, Bool, true, false, ◌&&◌, Option, none, some, List, [], ◌∷◌, ◌++◌,
  ◌==◌, ltb, if◌then◌else◌, slice,
}
use game_lift.Buffer.{CircularBuffer, init, write, remove, get_contiguous_bytes, get_buffer_start}
use game_lift.Server.State.{Result, ok, fault, Fault, assertion, ◌>>=◌}

-- `enum DisconnectReason`
pub data DisconnectReason : Type 0 where
  dr_none dr_active dr_onconnect_error dr_io_request_error dr_completion_error : DisconnectReason
  dr_sendflush_error dr_sendbuffer_error dr_unauth dr_logout : DisconnectReason

-- `OverlappedSendContext`: `mWsaBuf`, a pointer and a length.
pub record SendContext : Type 0 where
  pub buf : Option ℕ
  pub len : ℕ

-- `class Session`, as far as sending goes. The last three fields are not of the code: the contexts
-- that the system has, the bytes that it has sent, and those that `Write` has taken.
pub record Session : Type 0 where
  pub connected : Bool
  pub send_buffer : CircularBuffer
  pub send_pending_count : ℕ
  -- for which `OnDisconnect` was called
  pub disconnects : List DisconnectReason
  pub in_flight : List SendContext
  pub wire : List ℕ
  pub posted : List ℕ

-- The constructor, on the storage that `new char[sendBufSize]` returns.
unfoldable pub new_session : List ℕ → ℕ → Session
new_session storage size = record {
  connected = false;
  send_buffer = init storage size;
  send_pending_count = 0;
  disconnects = [];
  in_flight = [];
  wire = [];
  posted = [];
}

-- `OnConnect`, when the calls of the system in it succeed.
unfoldable pub on_connect : Session → Session
on_connect s = record s { connected = true }

unfoldable pub disconnect : DisconnectReason → Session → Session
disconnect dr s =
    if s.connected then record s { connected = false; disconnects = dr ∷ s.disconnects } else s

-- `WSASend` is handed this, with the length as a `ULONG`, and says whether it takes it.
unfoldable pub send_context : CircularBuffer → SendContext
send_context b = record { buf = get_buffer_start b; len = get_contiguous_bytes b % 2 ^ 32 }

unfoldable pub flush_send : Bool → Session → Result (Bool × Session)
unfolding disconnect send_context
flush_send accepted s =
    if accepted
    then (if s.send_pending_count + 1 == 1
        then ok (
          true,
          record s {
            send_pending_count = s.send_pending_count + 1;
            in_flight = send_context s.send_buffer ∷ s.in_flight;
          },
        )
        else fault assertion)
    else ok (false, disconnect dr_sendflush_error s)

-- The part of `PostSend` that holds the lock.
unfoldable pub post_locked : Bool → List ℕ → Session → Result (Bool × Session)
unfolding flush_send
post_locked accepted bytes s =
    let (written, b) = write s.send_buffer bytes in
    let s' = record s { send_buffer = b; posted = s.posted ++ bytes } in
    if written
    then (if ltb 0 s.send_pending_count then ok (true, s') else flush_send accepted s')
    else ok (false, record s { send_buffer = b })

unfoldable pub post_send : Bool → List ℕ → Session → Result (Bool × Session)
unfolding post_locked
post_send accepted bytes s = if s.connected then post_locked accepted bytes s else ok (false, s)

-- What `SendCompletion` does to the buffer and the count.
unfoldable pub sent : ℕ → Session → Session
sent transferred s = record s {
  send_buffer = remove s.send_buffer transferred;
  send_pending_count = s.send_pending_count - 1;
}

unfoldable pub send_completion : Bool → ℕ → Session → Result Session
unfolding flush_send sent
send_completion accepted transferred s =
    if ltb 0 s.send_pending_count
    then (if s.send_pending_count - 1 == 0
        then (if ltb 0 (get_contiguous_bytes (sent transferred s).send_buffer)
            then (flush_send accepted (sent transferred s) >>= λ r. ok r.1)
            else ok (sent transferred s))
        else fault assertion)
    else fault assertion

-- The bytes that a context points at.
unfoldable pub pointed_at : CircularBuffer → SendContext → ℕ → List ℕ
pointed_at b c n = elim c.buf [ none ↦ [] | some p ↦ slice b.buffer p n ]

-- The session when the system gives a context back and has sent so many bytes.
unfoldable pub given_back : SendContext → List SendContext → ℕ → Session → Session
unfolding pointed_at
given_back c rest transferred s = record s {
  in_flight = rest;
  wire = s.wire ++ pointed_at s.send_buffer c transferred;
}

-- `DoIocpJob` for the completion of a send, which succeeds or not, with up to `n` bytes, given the
-- contexts that the system has. There is no completion if it has none.
unfoldable pub completed : Bool → Bool → ℕ → List SendContext → Session → Result Session
unfolding send_completion disconnect given_back
completed accepted succeeded n [] s = ok s
completed accepted succeeded n (c ∷ rest) s =
    let transferred = min n c.len in
    if succeeded && ltb 0 transferred
    then (send_completion accepted transferred (given_back c rest transferred s) >>= λ s'.
        ok (if transferred == c.len then s' else disconnect dr_io_request_error s'))
    else ok (disconnect dr_completion_error (record s { in_flight = rest }))

unfoldable pub do_iocp_job : Bool → Bool → ℕ → Session → Result Session
unfolding completed
do_iocp_job accepted succeeded n s = completed accepted succeeded n s.in_flight s

-- What may happen to a session.
pub data Act : Type 0 where
  post : Bool → List ℕ → Act
  -- a `PostSend` that found the session connected before it waited for the lock
  post_late : Bool → List ℕ → Act
  completion : Bool → Bool → ℕ → Act
  close : DisconnectReason → Act

unfoldable pub act : Act → Session → Result Session
unfolding post_send do_iocp_job
act (post accepted bytes) s = post_send accepted bytes s >>= λ r. ok r.1
act (post_late accepted bytes) s = post_locked accepted bytes s >>= λ r. ok r.1
act (completion accepted succeeded n) s = do_iocp_job accepted succeeded n s
act (close dr) s = ok (disconnect dr s)

unfoldable pub act_all : List Act → Session → Result Session
unfolding act
act_all [] s = ok s
act_all (a ∷ more) s = act a s >>= λ s'. act_all more s'
