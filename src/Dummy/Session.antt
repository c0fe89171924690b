-- ===== src/Dummy/Session.antt =====
-- DummyClients/DummyClients/Session.cpp and OverlappedIOContext.cpp: connections whose sends and
-- receives the system completes, and the reference counts of their sessions.
use game_lift.Prelude.{
  ℕ, ◌+◌, ◌-◌, ◌%◌, ◌^◌, Bool, true, false, none, some, List, [], ◌∷◌, ltb, ◌==◌, if◌then◌else◌,
  slice,
}
use game_lift.Buffer.{
  CircularBuffer, write, remove, get_free_space_size, get_contiguous_bytes, get_buffer,
  get_buffer_start,
}
use game_lift.Overlapped.{DisconnectReason, dr_io_request_error}
use game_lift.Dummy.State.{
  Context, io_send, io_recv, io_recv_zero, io_disconnect, PlayerSession, System, no_reference,
  nothing_sent, Ending, returns, crashes, ◌>>=◌,
}

-- `AddRef`; what `fetch_add` returns is not negative.
unfoldable pub add_ref : PlayerSession → PlayerSession
add_ref s = record s { ref_count = s.ref_count + 1 }

-- `ReleaseRef`: `ret` is what `fetch_sub` returns, the count before.
unfoldable pub release_ref : PlayerSession → Ending PlayerSession
release_ref s =
    let ret = s.ref_count in
    let s' = record s { ref_count = s.ref_count - 1 } in
    if ltb 0 ret
    then (if ret == 0 then returns (record s' { released = s'.released + 1 }) else returns s')
    else crashes no_reference

module _ (env : System) where
  -- A new context takes a reference; the system takes the context, or it is deleted.
  unfoldable pub start_io : Context → PlayerSession → Ending (Bool × PlayerSession)
  unfolding add_ref release_ref
  start_io context s =
      let s' = add_ref (record s { calls = s.calls + 1 }) in
      if env.accepts s.calls
      then returns (true, record s' { in_flight = context ∷ s'.in_flight })
      else (release_ref s' >>= λ s''. returns (false, s''))

  unfoldable pub disconnect_request : DisconnectReason → PlayerSession → Ending PlayerSession
  unfolding start_io
  disconnect_request dr s =
      if s.connected
      then (start_io (io_disconnect dr) (record s { connected = false }) >>= λ r. returns r.1)
      else returns s

  unfoldable pub pre_recv : PlayerSession → Ending (Bool × PlayerSession)
  unfolding start_io
  pre_recv s = if s.connected then start_io io_recv_zero s else returns (false, s)

  -- `PostRecv` asks for the free space twice.
  unfoldable pub post_recv_open : PlayerSession → Ending (Bool × PlayerSession)
  unfolding start_io
  post_recv_open s =
      let (n, b) = get_free_space_size s.recv_buffer in
      let (m, b') = get_free_space_size b in
      if n == 0
      then returns (false, record s { recv_buffer = b })
      else start_io (io_recv (get_buffer b') (m % 2 ^ 32)) (record s { recv_buffer = b' })

  unfoldable pub post_recv : PlayerSession → Ending (Bool × PlayerSession)
  unfolding post_recv_open
  post_recv s = if s.connected then post_recv_open s else returns (false, s)

  -- What `FlushSend` does when the system has taken the send, or has not.
  unfoldable pub flushed : Bool × PlayerSession → Ending (Bool × PlayerSession)
  unfolding disconnect_request
  flushed (true, s) = returns (true, record s { send_requested_count = s.send_requested_count + 1 })
  flushed (false, s) = disconnect_request dr_io_request_error s >>= λ s'. returns (false, s')

  unfoldable pub flush_send : PlayerSession → Ending (Bool × PlayerSession)
  unfolding start_io flushed
  flush_send s = start_io (io_send (get_contiguous_bytes s.send_buffer % 2 ^ 32)) s >>= flushed

  unfoldable pub post_send : List ℕ → PlayerSession → Ending (Bool × PlayerSession)
  unfolding flush_send
  post_send bytes s =
      let (written, b) = write s.send_buffer bytes in
      let s' = record s { send_buffer = b } in
      if s.connected
      then (if written
          then (if ltb 0 s.send_requested_count then returns (true, s') else flush_send s')
          else returns (false, s'))
      else returns (false, s)

  unfoldable pub sent : ℕ → PlayerSession → PlayerSession
  sent transferred s = record s {
    send_buffer = remove s.send_buffer transferred;
    send_requested_count = s.send_requested_count - 1;
  }

  unfoldable pub send_completion : ℕ → PlayerSession → Ending PlayerSession
  unfolding sent flush_send
  send_completion transferred s =
      if ltb 0 s.send_requested_count
      then (if ltb 0 (get_contiguous_bytes (sent transferred s).send_buffer)
          then (flush_send (sent transferred s) >>= λ r. returns r.1)
          else returns (sent transferred s))
      else crashes nothing_sent

  -- `OnDisconnect` prints a line.
  unfoldable pub disconnect_completion : DisconnectReason → PlayerSession → Ending PlayerSession
  unfolding release_ref
  disconnect_completion dr s = release_ref (record s { held = s.held - 1 })

  -- `EchoBack`; there is something to send, so the pointer is not null.
  unfoldable pub echo_bytes : CircularBuffer → List ℕ
  echo_bytes b = elim (get_buffer_start b) [
    | none ↦ []
    | some p ↦ slice b.buffer p (get_contiguous_bytes b)
  ]

  unfoldable pub echo_back : PlayerSession → Ending PlayerSession
  unfolding post_send echo_bytes
  echo_back s =
      let len = get_contiguous_bytes s.recv_buffer in
      let answer = post_send (echo_bytes s.recv_buffer) s in
      if len == 0
      then returns s
      else (answer >>= λ r.
          returns (if r.0 then record r.1 { recv_buffer = remove r.1.recv_buffer len } else r.1))
