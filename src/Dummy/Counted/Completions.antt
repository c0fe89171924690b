-- ===== src/Dummy/Counted/Completions.antt =====
-- About the counts of a session, and what `DoIocpJob` does for a context.
use game_lift.Prelude.{
  ℕ, zero, suc, ◌+◌, ◌≡◌, refl, min, Bool, true, false, ◌&&◌, Option, none, some, List, [], ◌∷◌,
  ltb, ◌==◌, arith, length, take, total,
}
use game_lift.Buffer.{commit}
use game_lift.Overlapped.{dr_io_request_error, dr_completion_error}
use game_lift.Dummy.State.{
  Context, io_send, io_recv, io_recv_zero, io_disconnect, io_connect, PlayerSession, System,
  returns, ◌>>=◌,
}
use game_lift.Dummy.Session.{disconnect_request, pre_recv, post_recv, send_completion}
use game_lift.Dummy.Events.{
  Completion, arrived, with_answer, recv_completion, failed, completion_end, completed, pick,
  before,
}
use game_lift.Dummy.Ensures.{Ensures->>=, Ensures-if}
use game_lift.Dummy.Counted.{IsOther, Safe, linking, sending, IsCounted}
use game_lift.Dummy.Counted.Sessions.{
  disconnect_request-Safe, pre_recv-Safe, post_recv-Safe, send_completion-Safe,
  disconnect_completion-Safe,
}
use game_lift.Dummy.Counted.Players.{weaken, connect_completion-Safe, on_read-Safe}

module _ (env : System) (fuel : ℕ) where
  completion_end-Safe :
      (x l n : ℕ) (r : Bool × PlayerSession)
      → IsCounted x l n r.1
      → Safe (λ t. IsCounted x l n t) (completion_end env fuel r)
  unfolding completion_end
  completion_end-Safe x l n (true, s) v = v
  completion_end-Safe x l n (false, s) v = disconnect_request-Safe env x l n dr_io_request_error s v

  -- A context that the system has given back is worked off.
  pub completed-Safe :
      (c : Completion) (context : Context) (s : PlayerSession)
      → IsCounted 1 (linking context) (sending context) s
      → Safe (λ t. IsCounted 1 0 0 t) (completed env fuel c context s)
  unfolding completed failed recv_completion arrived
  completed-Safe c (io_send len) s v =
      let transferred = min c.count len in
      let sent_it = send_completion env transferred s in
      let finish = with_answer (transferred == len) sent_it >>= completion_end env fuel in
      let broken = disconnect_request env dr_completion_error s in
      Ensures-if IsOther (λ t. IsCounted 1 0 0 t) (c.succeeded && ltb 0 transferred) finish broken
        (λ _.
          Ensures->>= IsOther (λ r. IsCounted 1 0 0 r.1) (λ t. IsCounted 1 0 0 t)
            (with_answer (transferred == len) sent_it) (completion_end env fuel)
            (Ensures->>= IsOther (λ t. IsCounted 1 0 0 t) (λ r. IsCounted 1 0 0 r.1) sent_it
              (λ t. returns (transferred == len, t))
              (send_completion-Safe env 1 0 0 transferred s v) (λ t h. h))
            (completion_end-Safe 1 0 0))
        (λ _.
          disconnect_request-Safe env 1 0 0 dr_completion_error s
            (weaken 1 0 0 s 0 1 (omega arith) (omega arith) v))
  completed-Safe c (io_recv at len) s v =
      let bytes = take len c.bytes in
      let read_it = recv_completion env fuel (length bytes) (arrived at bytes s) in
      let finish = read_it >>= λ t. pre_recv env t >>= completion_end env fuel in
      let broken = disconnect_request env dr_completion_error s in
      Ensures-if IsOther (λ t. IsCounted 1 0 0 t) (c.succeeded && ltb 0 (length bytes)) finish
        broken
        (λ _.
          Ensures->>= IsOther (λ t. IsCounted 1 0 0 t) (λ t. IsCounted 1 0 0 t) read_it
            (λ t. pre_recv env t >>= completion_end env fuel)
            (on_read-Safe env 1 0 0 fuel
              (record (arrived at bytes s) {
                recv_buffer = commit (arrived at bytes s).recv_buffer (length bytes);
              })
              v)
            (λ t h.
              Ensures->>= IsOther (λ r. IsCounted 1 0 0 r.1) (λ u. IsCounted 1 0 0 u)
                (pre_recv env t) (completion_end env fuel) (pre_recv-Safe env 1 0 0 t h)
                (completion_end-Safe 1 0 0)))
        (λ _. disconnect_request-Safe env 1 0 0 dr_completion_error s v)
  completed-Safe c io_recv_zero s v =
      Ensures->>= IsOther (λ r. IsCounted 1 0 0 r.1) (λ t. IsCounted 1 0 0 t) (post_recv env s)
        (completion_end env fuel) (post_recv-Safe env 1 0 0 s v) (completion_end-Safe 1 0 0)
  completed-Safe c (io_disconnect dr) s v = disconnect_completion-Safe env 1 0 0 dr s v
  completed-Safe c io_connect s v = connect_completion-Safe env 1 0 0 c.updated c.options s v

-- What is left of a list when a context leaves it.
abbrev pub Parts : (Context → ℕ) → List Context → Option (Context × List Context) → Type 0
Parts f cs none = Unit {0}
Parts f cs (some (c, rest)) = (total f cs ≡ f c + total f rest) × (length cs ≡ length rest + 1)

pub pick-Parts : (f : Context → ℕ) (k : ℕ) (cs : List Context) → Parts f cs (pick k cs)
unfolding pick total
pick-Parts f k [] = tt
pick-Parts f zero (c ∷ cs) = (refl, omega arith)
pick-Parts f (suc k) (c ∷ cs) = around (pick k cs) (pick-Parts f k cs)
  where
    around : (o : Option (Context × List Context)) → Parts f cs o → Parts f (c ∷ cs) (before c o)
    around none h = tt
    around (some (d, ds)) h = omega (arith, h)
