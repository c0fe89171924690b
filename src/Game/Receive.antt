-- ===== src/Game/Receive.antt =====
-- How a session of the Windows server receives: `PreRecv`, `PostRecv` and `RecvCompletion` of
-- Session.cpp, with the receives of `DoIocpJob` in IOThread.cpp; and `EchoBack`.
use game_lift.Prelude.{
  ℕ, ◌+◌, ◌≤◌, ◌<◌, ◌≡◌, Bool, true, false, Option, none, some, List, [], ◌==◌, if◌then◌else◌,
  arith, length, slice, splice,
}
use game_lift.Buffer.{
  CircularBuffer, get_free_space_size, get_buffer, get_contiguous_bytes, get_buffer_start, commit,
  remove,
}
use game_lift.Buffer.Inv.{IsValid, contents}
use game_lift.Buffer.Fill.{
  room, opened, opened-IsValid, get_free_space_size_idem, room_in_bounds, Put, store, store-Put,
}
use game_lift.Overlapped.{dr_io_request_error}
use game_lift.Game.State.{PlayerSession, World, Services, Ending, returns, ◌>>=◌}
use game_lift.Game.Player.{disconnect, post_send}
use game_lift.Game.Handlers.{put_recv, on_read}

-- `OverlappedRecvContext`: where the system may write, and how much.
pub record RecvContext : Type 0 where
  pub buf : ℕ
  pub len : ℕ

-- `PreRecv`: a receive of no bytes, which the system takes or not.
unfoldable pub pre_recv : Bool → PlayerSession → Bool
pre_recv accepted p = if p.session.connected then accepted else false

-- The context of `PostRecv`: both calls are made again, the length first.
-- The length is a `ULONG`, which the size of a buffer of this server fits.
unfoldable pub recv_context : CircularBuffer → RecvContext × CircularBuffer
recv_context b =
    let (n, b') = get_free_space_size b in (record { buf = get_buffer b'; len = n }, b')

-- `PostRecv` of a connected session.
unfoldable pub post_recv_open : Bool → CircularBuffer → Bool × Option RecvContext × CircularBuffer
unfolding recv_context
post_recv_open accepted b =
    let (n, b') = get_free_space_size b in
    let (context, b'') = recv_context b' in
    if n == 0
    then (false, none, b')
    else if accepted
    then (true, some context, b'')
    else (false, none, b'')

unfoldable pub post_recv : Bool → PlayerSession → Bool × Option RecvContext × CircularBuffer
unfolding post_recv_open
post_recv accepted p =
    if p.session.connected
    then post_recv_open accepted p.recv_buffer
    else (false, none, p.recv_buffer)

-- What the system does with a context, for bytes that it has received.
unfoldable pub received : RecvContext → List ℕ → CircularBuffer → CircularBuffer
received context bytes b = record b { buffer = splice b.buffer context.buf bytes }

module _ (env : Services) where
  -- `RecvCompletion`, with so many rounds for `OnRead`.
  unfoldable pub recv_completion : ℕ → ℕ → World → ℕ → Ending World
  recv_completion fuel transferred w s =
      on_read env fuel (put_recv w s (commit (w.players s).recv_buffer transferred)) s

  -- The end of `DoIocpJob`.
  unfoldable pub completion_end : Bool → World → ℕ → Ending World
  completion_end completion_ok w s =
      if completion_ok then returns w else disconnect env dr_io_request_error w s

  -- `DoIocpJob` for the two kinds of receives.
  unfoldable pub io_recv_zero : Bool → World → ℕ → Option RecvContext × Ending World
  unfolding post_recv completion_end
  io_recv_zero accepted w s =
      let (done, context, b) = post_recv accepted (w.players s) in
      (context, completion_end done (put_recv w s b) s)

  unfoldable pub io_recv : Bool → ℕ → ℕ → World → ℕ → Ending World
  unfolding recv_completion pre_recv completion_end
  io_recv accepted fuel transferred w s = recv_completion fuel transferred w s >>= λ w'.
      completion_end (pre_recv accepted (w'.players s)) w' s

  -- `EchoBack`; there is something to send, so the pointer is not null.
  unfoldable pub echo_bytes : CircularBuffer → List ℕ
  echo_bytes b = elim (get_buffer_start b) [
    | none ↦ []
    | some p ↦ slice b.buffer p (get_contiguous_bytes b)
  ]

  unfoldable pub echo_back : World → ℕ → Ending World
  unfolding echo_bytes
  echo_back w s =
      let b = (w.players s).recv_buffer in
      if get_contiguous_bytes b == 0
      then returns w
      else (post_send env w s (echo_bytes b) >>= λ r.
          if r.0
          then returns
              (put_recv r.1 s (remove (r.1.players s).recv_buffer (get_contiguous_bytes b)))
          else returns r.1)

-- `PostRecv` of a connected session with a valid buffer that has room, when the system takes the
-- receive: what it may write to lies within the array, the bytes in the buffer stay, and whatever
-- bytes the system then writes there, as many as fit, are behind them after the `Commit`.
pub post_recv-Put :
    (p : PlayerSession)
    → p.session.connected ≡ true
    → IsValid p.recv_buffer
    → 0 < room p.recv_buffer
    → (context : RecvContext) × (b : CircularBuffer) × (post_recv true p ≡ (true, some context, b))
      × (context.buf + context.len ≤ p.recv_buffer.capacity)
      × (contents b ≡ contents p.recv_buffer)
      × ((bytes : List ℕ)
          → length bytes ≤ context.len
          → Put p.recv_buffer bytes (commit (received context bytes b) (length bytes)))
unfolding post_recv recv_context received store
post_recv-Put p on v some_room =
    let (ready, same, _) = opened-IsValid v in
    let again = get_free_space_size_idem v in
    (
      record { buf = get_buffer (opened p.recv_buffer); len = room p.recv_buffer },
      opened p.recv_buffer,
      ground (arith, on, again, some_room),
      (room_in_bounds v).0,
      same,
      λ bytes few. store-Put bytes v few,
    )
