-- ===== src/Dummy/Counted/Runs.antt =====
-- About the counts of a session, whatever happens to it.
use game_lift.Prelude.{
  ℕ, ◌+◌, ◌-◌, ◌≤◌, ◌≡◌, refl, ap, true, false, Option, none, some, List, [], ◌∷◌, ◌==◌, arith,
  length, total,
}
use game_lift.Overlapped.{dr_active}
use game_lift.Dummy.State.{
  Context, io_connect, PlayerSession, System, already_connected, returns, crashes, ◌>>=◌,
}
use game_lift.Dummy.Session.{add_ref, release_ref, start_io, disconnect_request}
use game_lift.Dummy.Player.{play_test, connect_request}
use game_lift.Dummy.Events.{
  Completion, completed, pick, do_iocp_job, timer_job, Event, completes, plays, closes, happen,
  happen_all, connect_player,
}
use game_lift.Dummy.Ensures.{Ensures->>=, Ensures-if, Ensures-imp}
use game_lift.Dummy.Counted.{
  IsOther, Safe, linking, sending, linked, IsCounted, release_ref-Safe, start_io-Safe,
}
use game_lift.Dummy.Counted.Sessions.{disconnect_request-Safe}
use game_lift.Dummy.Counted.Players.{play_test-Safe}
use game_lift.Dummy.Counted.Completions.{completed-Safe, Parts, pick-Parts}

module _ (env : System) (fuel : ℕ) where
  do_iocp_job-Safe :
      (c : Completion) (picked : Option (Context × List Context)) (s : PlayerSession)
      → ((f : Context → ℕ) → Parts f s.in_flight picked)
      → IsCounted 0 0 0 s
      → Safe (λ t. IsCounted 0 0 0 t) (do_iocp_job env fuel c picked s)
  unfolding do_iocp_job
  do_iocp_job-Safe c none s parts v = v
  do_iocp_job-Safe c (some (context, rest)) s parts v =
      Ensures->>= IsOther (λ t. IsCounted 1 0 0 t) (λ t. IsCounted 0 0 0 t)
        (completed env fuel c context (record s { in_flight = rest })) release_ref
        (completed-Safe env fuel c context (record s { in_flight = rest })
          (record {
            refs = omega (arith, v.refs, parts linking);
            phase = omega (arith, v.phase, parts linking);
            once = v.once;
            sent = omega (arith, v.sent, parts sending);
            unreleased = v.unreleased;
          }))
        (release_ref-Safe 0 0 0)

  -- While `PlayTest` runs, the timer's reference and that of `DoTask` are there.
  timer_job-Safe :
      (s : PlayerSession)
      → IsCounted 0 0 0 s
      → 1 ≤ s.timers
      → Safe (λ t. IsCounted 0 0 0 t) (timer_job env fuel s)
  unfolding timer_job add_ref
  timer_job-Safe s v some_left =
      let running : PlayerSession = record s {
        timers = s.timers - 1;
        ref_count = s.ref_count + 1;
      } in
      Ensures->>= IsOther (λ t. IsCounted 2 0 0 t) (λ t. IsCounted 0 0 0 t) (play_test env running)
        (λ t. returns (record t { ref_count = t.ref_count - 1 - 1 }))
        (play_test-Safe env 2 0 0 running (record {
          refs = omega (arith, v.refs, some_left);
          phase = v.phase;
          once = v.once;
          sent = v.sent;
          unreleased = v.unreleased;
        }))
        (λ t h. record {
          refs = omega (arith, h.refs);
          phase = h.phase;
          once = h.once;
          sent = h.sent;
          unreleased = h.unreleased;
        })

  happen-Safe :
      (e : Event) (s : PlayerSession)
      → IsCounted 0 0 0 s
      → Safe (λ t. IsCounted 0 0 0 t) (happen env fuel e s)
  unfolding happen
  happen-Safe (completes k c) s v =
      do_iocp_job-Safe c (pick k s.in_flight) s (λ f. pick-Parts f k s.in_flight) v
  happen-Safe plays s v =
      Ensures-if IsOther (λ t. IsCounted 0 0 0 t) (s.timers == 0) (returns s) (timer_job env fuel s)
        (λ _. v) (λ some_left. timer_job-Safe s v (ground (arith, some_left)))
  happen-Safe closes s v =
      Ensures-if IsOther (λ t. IsCounted 0 0 0 t) s.connected (disconnect_request env dr_active s)
        (returns s) (λ _. disconnect_request-Safe env 0 0 0 dr_active s v) (λ _. v)

  happen_all-Safe :
      (es : List Event) (s : PlayerSession)
      → IsCounted 0 0 0 s
      → Safe (λ t. IsCounted 0 0 0 t) (happen_all env fuel es s)
  unfolding happen_all
  happen_all-Safe [] s v = v
  happen_all-Safe (e ∷ es) s v =
      Ensures->>= IsOther (λ t. IsCounted 0 0 0 t) (λ t. IsCounted 0 0 0 t) (happen env fuel e s)
        (happen_all env fuel es) (happen-Safe e s v) (happen_all-Safe es)

-- A session that nobody refers to and that is not connected.
pub record IsFresh (s : PlayerSession) : Type 0 where
  pub no_reference_yet : s.ref_count ≡ 0
  pub off : s.connected ≡ false
  pub none_in_flight : s.in_flight ≡ []
  pub no_timers : s.timers ≡ 0
  pub not_held : s.held ≡ 0
  pub none_sent : s.send_requested_count ≡ 0
  pub not_released : s.released ≡ 0

connect_player-Safe :
    (env : System) (fuel : ℕ) (id : List ℕ) (idx : ℕ) (s : PlayerSession)
    → IsFresh s
    → Safe (λ r. IsCounted 0 0 0 r.1) (connect_player env fuel id idx s)
unfolding connect_player connect_request add_ref total
connect_player-Safe env fuel id idx s fresh =
    let asked : PlayerSession = record s { ref_count = s.ref_count + 1; held = s.held + 1 } in
    let started = start_io env io_connect asked in
    Ensures-if IsOther (λ r. IsCounted 0 0 0 r.1) s.connected (crashes already_connected)
      (started >>= λ r. returns (true, record r.1 { player_session_id = id; player_idx = idx }))
      (λ on. cc (on, fresh.off))
      (λ _.
        Ensures->>= IsOther (λ r. IsCounted 0 0 0 r.1) (λ r. IsCounted 0 0 0 r.1) started
          (λ r. returns (true, record r.1 { player_session_id = id; player_idx = idx }))
          (start_io-Safe env io_connect 0 1 0 0 asked
            (record {
              refs = omega (
                arith,
                fresh.no_reference_yet,
                fresh.no_timers,
                fresh.not_held,
                ap length fresh.none_in_flight,
              );
              phase = omega (
                arith,
                ap (total linking) fresh.none_in_flight,
                ap linked fresh.off,
                fresh.not_held,
              );
              once = omega (arith, fresh.not_held);
              sent = omega (arith, ap (total sending) fresh.none_in_flight, fresh.none_sent);
              unreleased = fresh.not_released;
            })
            refl refl)
          (λ r h. h))

-- A fresh session is asked to connect, and then whatever happens to it happens: the system completes
-- the calls that it has taken, in any order, each well or not, with any bytes from a server; jobs of
-- the timer run; the session is closed. If the run returns, then `mRefCount` is the number of the
-- contexts that the system has and of the jobs in the timer, and one until the session is
-- disconnected, and `OnRelease` was never called, also where `mRefCount` has come down to 0. If the
-- run crashes, then not because `ReleaseRef` finds no reference, `SendCompletion` no send, or a
-- connection an old one: an option of a socket could not be set, an assertion of the circular buffer
-- failed, an identifier was too long, or `OnRead` had used up its rounds.
pub happen_all-Counted :
    (env : System) (fuel : ℕ) (id : List ℕ) (idx : ℕ) (es : List Event) (s : PlayerSession)
    → IsFresh s
    → Safe
        (λ t.
          (t.ref_count ≡ length t.in_flight + t.timers + t.held) × (t.held ≤ 1) × (t.released ≡ 0))
        (connect_player env fuel id idx s >>= λ r. happen_all env fuel es r.1)
happen_all-Counted env fuel id idx es s fresh =
    Ensures->>= IsOther (λ r. IsCounted 0 0 0 r.1)
      (λ t.
        (t.ref_count ≡ length t.in_flight + t.timers + t.held) × (t.held ≤ 1) × (t.released ≡ 0))
      (connect_player env fuel id idx s) (λ r. happen_all env fuel es r.1)
      (connect_player-Safe env fuel id idx s fresh)
      (λ r v.
        Ensures-imp IsOther (λ t. IsCounted 0 0 0 t)
          (λ t.
            (t.ref_count ≡ length t.in_flight + t.timers + t.held)
            × (t.held ≤ 1)
            × (t.released ≡ 0))
          (happen_all env fuel es r.1) (λ t h. (omega (arith, h.refs), h.once, h.unreleased))
          (happen_all-Safe env fuel es r.1 v))
