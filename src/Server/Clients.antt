-- ===== src/Server/Clients.antt =====
-- ClientManager.cpp: the table of clients and the event loop.
use game_lift.Prelude.{ℕ, Bool, none, some, List, [], ◌∷◌, if◌then◌else◌}
use game_lift.Server.State.{
  World, Services, Result, ok, fault, Fault, dead_iterator, null_session, ◌>>=◌, put_session,
  find_client, insert_client,
}
use game_lift.Server.Session.{new_session, on_connect, disconnect}
use game_lift.Server.Receive.{Arrival, on_receive}
use game_lift.Server.Flush.{Sending, send_flush}

-- `make_shared<ClientSession>(sock)` at the address `s`.
unfoldable pub create_client : World → ℕ → ℕ → List ℕ → List ℕ → World
create_client w s sock send_storage recv_storage =
    record (put_session w s (new_session sock send_storage recv_storage)) {
      clients = insert_client sock s w.clients;
    }

-- `SendFlush` of one session. The socket takes what `flush_loop` says; a loop that still runs is
-- a fault.
unfoldable pub flush_session : World → ℕ → List Sending → Result (Bool × World)
flush_session w s results =
    let f = send_flush results (w.sessions s) in
    elim f.answer [
      | none ↦ fault Fault.still_running
      | some sent ↦ ok (sent, put_session w s (record (w.sessions s) { send_buffer = f.buffer }))
    ]

-- One event of `epoll_wait`: a connection, which `accept` gives (at a new address, with the
-- storage of its buffers) or not; or data on a socket.
pub data Event : Type 0 where
  connects : ℕ → ℕ → List ℕ → List ℕ → Event
  not_accepted : Event
  readable : ℕ → List Arrival → Event

module _ (env : Services) where
  -- One turn of the loop of `FlushClientSend`, at the entry for a socket.
  unfoldable pub flush_client : (ℕ → List Sending) → World → ℕ → ℕ → Result World
  unfolding flush_session
  flush_client results w sock s = do
    done ← flush_session w s (results sock)
    ok (if done.0 then done.1 else disconnect env done.1 s)

  -- The range-for over the table, which may lose the entry that the iterator stands at.
  unfoldable pub flush_from : (ℕ → List Sending) → World → List (ℕ × ℕ) → Result World
  unfolding flush_client
  flush_from results w [] = ok w
  flush_from results w ((sock, s) ∷ rest) = flush_client results w sock s >>= λ w'.
      elim (find_client sock w'.clients) [
        | some t ↦ flush_from results w' rest
        | none ↦ fault dead_iterator
      ]

  unfoldable pub flush_client_send : (ℕ → List Sending) → World → Result World
  unfolding flush_from
  flush_client_send results w = flush_from results w w.clients

  unfoldable pub handle_event : ℕ → World → Event → Result World
  unfolding create_client
  handle_event fuel w (connects sock s send_storage recv_storage) =
      ok (on_connect (create_client w s sock send_storage recv_storage) s)
  handle_event fuel w not_accepted = ok w
  handle_event fuel w (readable sock arrivals) = elim (find_client sock w.clients) [
    | none ↦ fault null_session
    | some s ↦ on_receive env fuel arrivals w s
  ]

  unfoldable pub handle_events : ℕ → World → List Event → Result World
  handle_events fuel w [] = ok w
  handle_events fuel w (e ∷ es) = handle_event fuel w e >>= λ w'. handle_events fuel w' es

  -- One turn of `EventLoop`, but for the scheduled tasks.
  unfoldable pub event_turn : ℕ → (ℕ → List Sending) → World → List Event → Result World
  unfolding handle_events flush_client_send
  event_turn fuel results w es = handle_events fuel w es >>= λ w'. flush_client_send results w'
