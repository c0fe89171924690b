-- ===== src/Overlapped/Steps.antt =====
-- `PostSend` under the lock, and the completion of a send.
use game_lift.Prelude.{
  ℕ, ◌-◌, ◌≤◌, ◌<◌, min, ◌≡◌, refl, sym, ap, ◌∙◌, Bool, true, false, Bool-cases, some, List, [],
  ◌∷◌, ◌++◌, append_assoc, append-nil, ◌==◌, ◌&&◌, ltb, if◌then◌else◌, arith, inl, inr, length,
  drop, take-append-drop,
}
use game_lift.Buffer.{write, remove, get_contiguous_bytes}
use game_lift.Buffer.Inv.{contents, length-contents_stored}
use game_lift.Buffer.Drain.{Took}
use game_lift.Buffer.Fill.{write_lem}
use game_lift.Buffer.Refine.{remove-Took}
use game_lift.Server.State.{ok, ◌>>=◌}
use game_lift.Overlapped.{
  SendContext, Session, disconnect, dr_io_request_error, dr_completion_error, flush_send,
  post_locked, sent, send_completion, pointed_at, given_back, completed,
}
use game_lift.Overlapped.Flight.{
  InFlight, IsSending, IsIdle, disconnect-IsSending, Yields, flush_send-IsSending, InFlight-idle,
  InFlight-write, pointed_at-eq-take, Yields-bind, IsIdle-IsSending, Yields-then, Yields-if,
}

-- `Write` under the lock, and a send if none is on its way.
pub post_locked-IsSending :
    (accepted : Bool) (bytes : List ℕ) {s : Session}
    → IsSending s
    → Yields (λ r. r.1) (post_locked accepted bytes s)
unfolding post_locked
post_locked-IsSending accepted bytes {s} i = elim (write_lem bytes i.stored.valid) [
  | inl (fits, done, p) ↦
      let whole : s.wire ++ contents (write s.send_buffer bytes).1 ≡ s.posted ++ bytes =
        ap (◌++◌ s.wire) p.whole
        ∙ sym (append_assoc s.wire (contents s.send_buffer) bytes)
        ∙ ap (λ xs. xs ++ bytes) i.stored.no_loss in
      elim (Bool-cases (ltb 0 s.send_pending_count)) [
        | inl busy ↦
            rw (done, busy)
              (record {
                stored = record {
                  valid = p.valid;
                  in_place =
                      InFlight-write s.in_flight s.send_pending_count bytes i.stored.valid
                        i.stored.in_place;
                  no_loss = whole;
                };
                moving = λ e f. absurd (ground (arith, i.moving e f, busy));
              })
        | inr idle ↦
            let none_left : s.send_pending_count ≡ 0 = ground (arith, idle) in
            rw (done, idle)
              (flush_send-IsSending accepted
                {s = record s {
                  send_buffer = (write s.send_buffer bytes).1;
                  posted = s.posted ++ bytes;
                }}
                (record {
                  valid = p.valid;
                  no_context =
                      InFlight-idle s.in_flight s.send_pending_count s.send_buffer i.stored.in_place
                        none_left;
                  no_count = none_left;
                  no_loss = whole;
                }))
      ]
  | inr (over, undone, p) ↦
      let same : contents (write s.send_buffer bytes).1 ≡ contents s.send_buffer =
        p.whole ∙ append-nil (contents s.send_buffer) in
      rw undone (record {
        stored = record {
          valid = p.valid;
          in_place =
              InFlight-write s.in_flight s.send_pending_count bytes i.stored.valid
                i.stored.in_place;
          no_loss = ap (◌++◌ s.wire) same ∙ i.stored.no_loss;
        };
        moving = λ e f. (
          (i.moving e f).0,
          omega (
            arith,
            (i.moving e f).1,
            length-contents_stored p.valid,
            length-contents_stored i.stored.valid,
            ap length same,
          ),
        );
      })
]

-- The assertions of `SendCompletion` hold.
guards :
    {A : Type 0} (p : ℕ) (x y z : A)
    → p ≡ 1
    → (if ltb 0 p then (if p - 1 == 0 then x else y) else z) ≡ x
guards p x y z e = ground (arith, e)

send_completion-one :
    (accepted : Bool) (n : ℕ) (s : Session)
    → s.send_pending_count ≡ 1
    → send_completion accepted n s ≡ (
        if ltb 0 (get_contiguous_bytes (sent n s).send_buffer)
        then (flush_send accepted (sent n s) >>= λ r. ok r.1)
        else ok (sent n s))
unfolding send_completion
send_completion-one accepted n s e = guards s.send_pending_count _ _ _ e

-- A completion takes what was sent out of the buffer, and sends what is left.
module _ (c : SendContext) (n : ℕ) {s : Session} (i : IsSending s) (held : s.in_flight ≡ c ∷ [])
    (one : s.send_pending_count ≡ 1) (fits : c.len ≤ s.send_buffer.a_size)
    (here : 0 < c.len → c.buf ≡ some s.send_buffer.a_pointer) (some_sent : 0 < n)
    (no_more : n ≤ c.len) where
  abbrev given : Session
  given = given_back c [] n s

  sent-IsIdle : IsIdle (sent n given)
  unfolding sent given_back
  sent-IsIdle =
      let t : Took s.send_buffer n (remove s.send_buffer n) = remove-Took n i.stored.valid in
      record {
        valid = t.valid;
        no_context = refl;
        no_count = omega (arith, one);
        no_loss =
            append_assoc s.wire _ _
            ∙ ap (◌++◌ s.wire) (
                ap (◌++◌ (pointed_at s.send_buffer c n)) t.rest
                ∙ ap (λ xs. xs ++ drop n (contents s.send_buffer))
                    (pointed_at-eq-take c n i.stored.valid fits here some_sent no_more)
                ∙ take-append-drop n (contents s.send_buffer))
            ∙ i.stored.no_loss;
      }

  sent-IsSending :
      (accepted : Bool) (more : Bool)
      → ltb 0 (get_contiguous_bytes (sent n given).send_buffer) ≡ more
      → Yields
          (λ s'. s')
          (if more then (flush_send accepted (sent n given) >>= λ r. ok r.1) else ok (sent n given))
  sent-IsSending accepted true e =
      Yields-bind (λ r. r.1) (flush_send accepted (sent n given))
        (flush_send-IsSending accepted sent-IsIdle)
  sent-IsSending accepted false e = IsIdle-IsSending sent-IsIdle (ground (arith, e))

  send_completion-IsSending :
      (accepted : Bool) → Yields (λ s'. s') (send_completion accepted n given)
  unfolding given_back
  send_completion-IsSending accepted =
      rw (send_completion-one accepted n given one)
        (sent-IsSending accepted (ltb 0 (get_contiguous_bytes (sent n given).send_buffer)) refl)

-- A transfer that is smaller than the request ends the session.
settle :
    (whole : Bool) (s : Session)
    → IsSending s
    → Yields (λ s'. s') (ok (if whole then s else disconnect dr_io_request_error s))
settle true s i = i
settle false s i = disconnect-IsSending dr_io_request_error i.stored

pub completed-IsSending :
    (accepted succeeded : Bool) (n : ℕ) (cs : List SendContext) {s : Session}
    → IsSending s
    → s.in_flight ≡ cs
    → InFlight cs s.send_pending_count s.send_buffer
    → Yields (λ s'. s') (completed accepted succeeded n cs s)
unfolding completed
completed-IsSending accepted succeeded n [] i e h = i
completed-IsSending accepted succeeded n (c ∷ []) {s} i e (one, fits, here) =
    Yields-if (succeeded && ltb 0 (min n c.len)) _ _
      (λ some_sent.
        Yields-then (send_completion accepted (min n c.len) (given_back c [] (min n c.len) s)) _
          (send_completion-IsSending c (min n c.len) i e one fits here (ground arith) (omega arith)
            accepted)
          (settle (min n c.len == c.len)))
      (λ failed.
        disconnect-IsSending {s = record s { in_flight = [] }} dr_completion_error (record {
          valid = i.stored.valid;
          in_place = omega (arith, one);
          no_loss = i.stored.no_loss;
        }))
completed-IsSending accepted succeeded n (c ∷ d ∷ cs) i e h = absurd h
