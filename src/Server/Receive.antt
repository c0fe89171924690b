-- ===== src/Server/Receive.antt =====
-- `ClientSession::OnReceive`: the loop that reads from a socket until it would block.
use game_lift.Prelude.{ℕ, List, [], ◌∷◌, if◌then◌else◌, take}
use game_lift.Buffer.Fill.{store, opened, room}
use game_lift.Server.State.{
  ClientSession, World, Services, Result, ok, fault, assertion, still_running, ◌>>=◌, put_session,
}
use game_lift.Server.Session.{disconnect}
use game_lift.Server.Handlers.{dispatch_packet}

-- What `read` returns. It gives at most as many bytes as it is asked for, and none once the other
-- side has closed the connection.
pub data Arrival : Type 0 where
  arrived : List ℕ → Arrival
  would_block : Arrival
  failed : Arrival

-- `read` into `GetBuffer` for at most `GetFreeSpaceSize` bytes, and `Commit`. The size is taken
-- first; C++ leaves the order of the two arguments open.
unfoldable pub receive : ClientSession → List ℕ → ClientSession
receive c ys = record c {
  recv_buffer = store (opened c.recv_buffer) (take (room c.recv_buffer) ys);
}

module _ (env : Services) (fuel : ℕ) where
  -- The loop, over the results of its calls of `read`.
  unfoldable pub receive_loop : List Arrival → World → ℕ → Result World
  receive_loop [] w s = fault still_running
  receive_loop (would_block ∷ rest) w s = ok w
  receive_loop (failed ∷ rest) w s = ok (disconnect env w s)
  receive_loop (arrived ys ∷ rest) w s =
      dispatch_packet env fuel (put_session w s (receive (w.sessions s) ys)) s >>= λ w'.
      receive_loop rest w' s

  unfoldable pub on_receive : List Arrival → World → ℕ → Result World
  unfolding receive_loop
  on_receive arrivals w s =
      if (w.sessions s).connected then receive_loop arrivals w s else fault assertion
