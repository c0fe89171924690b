-- ===== src/Dummy/Counted/Sessions.antt =====
-- About the counts of a session, and the calls of Session.cpp.
use game_lift.Prelude.{
  ◌%◌, ◌^◌, ℕ, suc, ◌+◌, ◌-◌, ◌≤◌, ◌≡◌, refl, sym, ap, subst, Bool, true, false, inl, inr, List,
  ltb, ◌==◌, if◌then◌else◌, arith, total,
}
use game_lift.Buffer.{write, get_free_space_size, get_contiguous_bytes, get_buffer}
use game_lift.Overlapped.{DisconnectReason, dr_io_request_error}
use game_lift.Dummy.State.{
  io_send, io_recv, io_recv_zero, io_disconnect, PlayerSession, System, returns, ◌>>=◌,
}
use game_lift.Dummy.Session.{
  start_io, disconnect_request, pre_recv, post_recv, post_recv_open, flushed, flush_send, post_send,
  sent, send_completion, disconnect_completion,
}
use game_lift.Dummy.Ensures.{Ensures->>=, Ensures-if}
use game_lift.Dummy.Counted.{
  IsOther, Safe, linked, IsCounted, release_ref-Safe, refused_io, start_io-cases, start_io-Safe,
}

module _ (env : System) (x l n : ℕ) where
  abbrev Counted : PlayerSession → Type 0
  Counted s = IsCounted x l n s

  abbrev AnswerCounted : Bool × PlayerSession → Type 0
  AnswerCounted r = IsCounted x l n r.1

  pub disconnect_request-Safe :
      (dr : DisconnectReason) (s : PlayerSession)
      → IsCounted x l n s
      → Safe (λ t. IsCounted x l n t) (disconnect_request env dr s)
  unfolding disconnect_request
  disconnect_request-Safe dr s v =
      let off : PlayerSession = record s { connected = false } in
      let started = start_io env (io_disconnect dr) off in
      Ensures-if IsOther Counted s.connected (started >>= λ r. returns r.1) (returns s)
        (λ on.
          Ensures->>= IsOther AnswerCounted Counted started (λ r. returns r.1)
            (start_io-Safe env (io_disconnect dr) x (1 + l) l n off
              (record {
                refs = v.refs;
                phase = omega (arith, v.phase, ap linked on);
                once = v.once;
                sent = v.sent;
                unreleased = v.unreleased;
              })
              refl refl)
            (λ r h. h))
        (λ _. v)

  pub pre_recv-Safe :
      (s : PlayerSession) → IsCounted x l n s → Safe (λ r. IsCounted x l n r.1) (pre_recv env s)
  unfolding pre_recv
  pre_recv-Safe s v =
      Ensures-if IsOther AnswerCounted s.connected (start_io env io_recv_zero s)
        (returns (false, s)) (λ _. start_io-Safe env io_recv_zero x l l n s v (omega arith) refl)
        (λ _. v)

  pub post_recv-Safe :
      (s : PlayerSession) → IsCounted x l n s → Safe (λ r. IsCounted x l n r.1) (post_recv env s)
  unfolding post_recv post_recv_open
  post_recv-Safe s v =
      let b = (get_free_space_size s.recv_buffer).1 in
      let (m, b') = get_free_space_size b in
      let t : PlayerSession = record s { recv_buffer = b' } in
      let started = start_io env (io_recv (get_buffer b') (m % 2 ^ 32)) t in
      Ensures-if IsOther AnswerCounted s.connected (post_recv_open env s) (returns (false, s))
        (λ _.
          Ensures-if IsOther AnswerCounted ((get_free_space_size s.recv_buffer).0 == 0)
            (returns (false, record s { recv_buffer = b })) started (λ _. v)
            (λ _.
              start_io-Safe env (io_recv (get_buffer b') (m % 2 ^ 32)) x l l n t v (omega arith)
                refl))
        (λ _. v)

  pub flush_send-Safe :
      (s : PlayerSession) → IsCounted x l n s → Safe (λ r. IsCounted x l n r.1) (flush_send env s)
  unfolding flush_send flushed total
  flush_send-Safe s v =
      let c = io_send (get_contiguous_bytes s.send_buffer % 2 ^ 32) in
      elim (start_io-cases env c s) [
        | inl took ↦ subst (Safe AnswerCounted) (ap (λ r. r >>= flushed env) (sym took)) (record {
          refs = omega (arith, v.refs);
          phase = omega (arith, v.phase);
          once = v.once;
          sent = omega (arith, v.sent);
          unreleased = v.unreleased;
        })
        | inr refused ↦ subst (Safe AnswerCounted) (ap (λ r. r >>= flushed env) (sym refused)) (
            Ensures->>= IsOther Counted AnswerCounted
              (disconnect_request env dr_io_request_error (refused_io s)) (λ t. returns (false, t))
              (disconnect_request-Safe dr_io_request_error (refused_io s) (record {
                refs = omega (arith, v.refs);
                phase = v.phase;
                once = v.once;
                sent = v.sent;
                unreleased = v.unreleased;
              }))
              (λ t h. h))
      ]

  pub post_send-Safe :
      (bytes : List ℕ) (s : PlayerSession)
      → IsCounted x l n s
      → Safe (λ r. IsCounted x l n r.1) (post_send env bytes s)
  unfolding post_send
  post_send-Safe bytes s v =
      let t : PlayerSession = record s { send_buffer = (write s.send_buffer bytes).1 } in
      let flush_it = flush_send env t in
      let when_written = if ltb 0 s.send_requested_count then returns (true, t) else flush_it in
      let when_on = if (write s.send_buffer bytes).0 then when_written else returns (false, t) in
      Ensures-if IsOther AnswerCounted s.connected when_on (returns (false, s))
        (λ _.
          Ensures-if IsOther AnswerCounted (write s.send_buffer bytes).0 when_written
            (returns (false, t))
            (λ _.
              Ensures-if IsOther AnswerCounted (ltb 0 s.send_requested_count) (returns (true, t))
                flush_it (λ _. v) (λ _. flush_send-Safe t v))
            (λ _. v))
        (λ _. v)

  -- A send has come back.
  pub send_completion-Safe :
      (transferred : ℕ) (s : PlayerSession)
      → IsCounted x l (suc n) s
      → Safe (λ t. IsCounted x l n t) (send_completion env transferred s)
  unfolding send_completion sent
  send_completion-Safe transferred s v =
      let some_sent : ltb 0 s.send_requested_count ≡ true =
        let positive : 1 ≤ s.send_requested_count = omega (arith, v.sent) in
        ground (arith, positive) in
      let t = sent env transferred s in
      let v' : IsCounted x l n t = record {
        refs = v.refs;
        phase = v.phase;
        once = v.once;
        sent = omega (arith, v.sent);
        unreleased = v.unreleased;
      } in
      let flush_it = flush_send env t >>= λ r. returns r.1 in
      rw some_sent (
        Ensures-if IsOther Counted (ltb 0 (get_contiguous_bytes t.send_buffer)) flush_it (returns t)
          (λ _.
            Ensures->>= IsOther AnswerCounted Counted (flush_send env t) (λ r. returns r.1)
              (flush_send-Safe t v') (λ r h. h))
          (λ _. v'))

  -- A disconnection has come back: the reference of `ConnectPlayerSessions` is given up.
  pub disconnect_completion-Safe :
      (dr : DisconnectReason) (s : PlayerSession)
      → IsCounted x (suc l) n s
      → Safe (λ t. IsCounted x l n t) (disconnect_completion env dr s)
  unfolding disconnect_completion
  disconnect_completion-Safe dr s v =
      release_ref-Safe x l n (record s { held = s.held - 1 })
        (record {
          refs = omega (arith, v.refs, v.phase);
          phase = omega (arith, v.phase, v.once);
          once = omega (arith, v.once);
          sent = v.sent;
          unreleased = v.unreleased;
        })
