-- ===== src/Server/Session.antt =====
-- ClientSession.cpp, but for the loops over a socket: connecting and disconnecting, sending, and
-- a player's login and logout.
use game_lift.Prelude.{ℕ, Bool, true, false, List, [], ltb, if◌then◌else◌, length}
use game_lift.Buffer.{init, write}
use game_lift.Packet.{login_result}
use game_lift.Server.State.{ClientSession, World, Services, put_session, erase_client}
use game_lift.Server.Roster.{accept_player_session, remove_player_session}

-- `BUFSIZE`
abbrev pub buf_size : ℕ
buf_size = 10240

-- The constructor; the two lists are what `new char[BUFSIZE]` returns.
unfoldable pub new_session : ℕ → List ℕ → List ℕ → ClientSession
new_session sock send_storage recv_storage = record {
  player_session_id = [];
  connected = false;
  logon = false;
  socket = sock;
  send_buffer = init send_storage buf_size;
  recv_buffer = init recv_storage buf_size;
}

-- `IsValid()`
abbrev pub has_player : ClientSession → Bool
has_player c = ltb 0 (length c.player_session_id)

unfoldable pub on_connect : World → ℕ → World
on_connect w s = put_session w s (record (w.sessions s) { connected = true })

-- `ClientManager::DeleteClient`
unfoldable pub delete_client : World → ℕ → World
delete_client w s = record w { clients = erase_client (w.sessions s).socket w.clients }

module _ (env : Services) where
  unfoldable pub on_disconnect : World → ℕ → World
  on_disconnect w s =
      if has_player (w.sessions s)
      then record w {
        manager = remove_player_session env w.manager s (w.sessions s).player_session_id;
        sessions = (put_session w s (record (w.sessions s) { player_session_id = [] })).sessions;
      }
      else w

  unfoldable pub disconnect : World → ℕ → World
  unfolding on_disconnect delete_client
  disconnect w s =
      if (w.sessions s).connected
      then (if env.lingers (w.sessions s).socket
          then delete_client
              (on_disconnect (put_session w s (record (w.sessions s) { connected = false })) s) s
          else w)
      else w

  -- `SendRequest`, for a packet given as its bytes.
  unfoldable pub send_request : World → ℕ → List ℕ → Bool × World
  unfolding disconnect
  send_request w s pkt =
      if (w.sessions s).connected
      then (let (written, b) = write (w.sessions s).send_buffer pkt in
          let w' = put_session w s (record (w.sessions s) { send_buffer = b }) in
          if written then (true, w') else (false, disconnect w' s))
      else (false, w)

  -- A packet that cannot be sent ends the session, in `PlayerLogin` and in a broadcast.
  unfoldable pub send_or_disconnect : World → ℕ → List ℕ → World
  unfolding send_request
  send_or_disconnect w s pkt =
      let (sent, w') = send_request w s pkt in if sent then w' else disconnect w' s

  -- What `PlayerLogin` does after `AcceptPlayerSession`.
  unfoldable pub finish_login : Bool → World → ℕ → List ℕ → World
  finish_login true w s id =
      send_or_disconnect (put_session w s (record (w.sessions s) { player_session_id = id })) s
        (login_result id)
  finish_login false w s id = disconnect w s

  unfoldable pub player_login : World → ℕ → List ℕ → World
  unfolding finish_login
  player_login w s id =
      let (accepted, m) = accept_player_session env w.manager s id in
      finish_login accepted (record w { manager = m }) s id

  unfoldable pub player_logout : World → ℕ → List ℕ → World
  unfolding disconnect
  player_logout w s id =
      disconnect
        (put_session (record w { manager = remove_player_session env w.manager s id }) s
          (record (w.sessions s) { player_session_id = [] }))
        s
