-- ===== src/Dummy/Events.antt =====
-- What happens to a player's session of DummyClients: `DoIocpJob` of WorkerThread.cpp, the timer's
-- jobs, and the calls of GameSession.cpp.
use game_lift.Prelude.{
  ℕ, zero, suc, ◌+◌, ◌-◌, min, Bool, true, false, ◌&&◌, Option, none, some, List, [], ◌∷◌, ltb,
  ◌==◌, if◌then◌else◌, length, take, splice,
}
use game_lift.Buffer.{commit}
use game_lift.Overlapped.{dr_active, dr_io_request_error, dr_completion_error}
use game_lift.Dummy.State.{
  Context, io_send, io_recv, io_recv_zero, io_disconnect, io_connect, PlayerSession, System, Ending,
  returns, ◌>>=◌,
}
use game_lift.Dummy.Session.{
  add_ref, release_ref, disconnect_request, pre_recv, post_recv, send_completion,
  disconnect_completion,
}
use game_lift.Dummy.Player.{on_read, play_test, connect_request, connect_completion}

-- What the system says of a call that it has completed: whether it went well, up to how many bytes
-- were sent, which bytes came, and whether the options of a new connection could be set.
pub record Completion : Type 0 where
  pub succeeded : Bool
  pub count : ℕ
  pub bytes : List ℕ
  pub updated : Bool
  pub options : Bool

-- A receive puts its bytes where the context points.
unfoldable pub arrived : ℕ → List ℕ → PlayerSession → PlayerSession
arrived at bytes s = record s {
  recv_buffer = record s.recv_buffer { buffer = splice s.recv_buffer.buffer at bytes };
}

abbrev pub with_answer : Bool → Ending PlayerSession → Ending (Bool × PlayerSession)
with_answer answer r = r >>= λ s. returns (answer, s)

-- The context at a place of the list, and the others.
abbrev pub before : Context → Option (Context × List Context) → Option (Context × List Context)
before c none = none
before c (some (d, ds)) = some (d, c ∷ ds)

unfoldable pub pick : ℕ → List Context → Option (Context × List Context)
pick n [] = none
pick zero (c ∷ cs) = some (c, cs)
pick (suc n) (c ∷ cs) = before c (pick n cs)

-- What may happen to a session that was asked to connect.
pub data Event : Type 0 where
  -- the system has completed the call at this place
  completes : ℕ → Completion → Event
  -- the time of a job in the timer has come
  plays : Event
  -- `DisconnectPlayerSessions`
  closes : Event

module _ (env : System) (fuel : ℕ) where
  unfoldable pub recv_completion : ℕ → PlayerSession → Ending PlayerSession
  recv_completion transferred s =
      on_read env fuel (record s { recv_buffer = commit s.recv_buffer transferred })

  -- A send or a receive that failed, or of no bytes.
  unfoldable pub failed : PlayerSession → Ending PlayerSession
  unfolding disconnect_request
  failed s = disconnect_request env dr_completion_error s

  -- The end of `DoIocpJob`, by `completionOk`.
  unfoldable pub completion_end : Bool × PlayerSession → Ending PlayerSession
  unfolding disconnect_request
  completion_end (true, s) = returns s
  completion_end (false, s) = disconnect_request env dr_io_request_error s

  -- What is done for a context, before it is deleted.
  unfoldable pub completed : Completion → Context → PlayerSession → Ending PlayerSession
  unfolding failed recv_completion arrived completion_end
  completed c (io_send len) s =
      let transferred = min c.count len in
      if c.succeeded && ltb 0 transferred
      then (with_answer (transferred == len) (send_completion env transferred s) >>= completion_end)
      else failed s
  completed c (io_recv at len) s =
      let bytes = take len c.bytes in
      if c.succeeded && ltb 0 (length bytes)
      then (recv_completion (length bytes) (arrived at bytes s) >>= λ s'.
          pre_recv env s' >>= completion_end)
      else failed s
  completed c io_recv_zero s = post_recv env s >>= completion_end
  completed c (io_disconnect dr) s = disconnect_completion env dr s
  completed c io_connect s = connect_completion env c.updated c.options s

  -- `DoIocpJob` for a context of the session; `DeleteIoContext` releases it.
  unfoldable pub do_iocp_job :
      Completion → Option (Context × List Context) → PlayerSession → Ending PlayerSession
  unfolding completed release_ref
  do_iocp_job c none s = returns s
  do_iocp_job c (some (context, rest)) s =
      completed c context (record s { in_flight = rest }) >>= release_ref

  -- A job of the timer: `DoTask` holds the object while `PlayTest` runs, and the timer releases it.
  unfoldable pub timer_job : PlayerSession → Ending PlayerSession
  unfolding add_ref play_test
  timer_job s = play_test env (add_ref (record s { timers = s.timers - 1 })) >>= λ s'.
      returns (record s' { ref_count = s'.ref_count - 1 - 1 })

  -- One event.
  unfoldable pub happen : Event → PlayerSession → Ending PlayerSession
  unfolding do_iocp_job pick timer_job disconnect_request
  happen (completes n c) s = do_iocp_job c (pick n s.in_flight) s
  happen plays s = if s.timers == 0 then returns s else timer_job s
  happen closes s = if s.connected then disconnect_request env dr_active s else returns s

  unfoldable pub happen_all : List Event → PlayerSession → Ending PlayerSession
  unfolding happen
  happen_all [] s = returns s
  happen_all (e ∷ es) s = happen e s >>= happen_all es

  -- `ConnectPlayerSessions` for one session.
  unfoldable pub connect_player : List ℕ → ℕ → PlayerSession → Ending (Bool × PlayerSession)
  unfolding add_ref connect_request
  connect_player id idx s = connect_request env id idx (record (add_ref s) { held = s.held + 1 })
