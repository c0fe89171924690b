-- ===== src/Overlapped/Flight.antt =====
-- The sends that the system has, what holds of a session that sends, and `FlushSend`.
use game_lift.Prelude.{
  ◌%◌, ◌^◌, ℕ, ◌≤◌, ◌<◌, ◌≡◌, refl, sym, ap, ◌∙◌, Bool, true, false, Bool-cases, none, some, List,
  [], ◌∷◌, ◌++◌, if◌then◌else◌, arith, inl, inr, slice, take,
}
use game_lift.Buffer.{
  CircularBuffer, write, get_contiguous_bytes, get_buffer_start, get_stored_size,
}
use game_lift.Buffer.Inv.{IsValid, contents}
use game_lift.Buffer.Fill.{write_keeps_a}
use game_lift.Server.Flush.{offered}
use game_lift.Server.Flush.Laws.{offered-eq-take}
use game_lift.Server.State.{Result, ok, fault, ◌>>=◌}
use game_lift.Overlapped.{
  DisconnectReason, dr_sendflush_error, SendContext, Session, disconnect, send_context, flush_send,
  pointed_at,
}

-- The system has one context at most, and one that it has is counted and points at the oldest
-- bytes, which lie in region A.
abbrev pub InFlight : List SendContext → ℕ → CircularBuffer → Type 0
InFlight [] n b = n ≤ 1
InFlight (c ∷ []) n b = (n ≡ 1) × (c.len ≤ b.a_size) × (0 < c.len → c.buf ≡ some b.a_pointer)
InFlight (c ∷ d ∷ cs) n b = ⊥

pub record IsStored (s : Session) : Type 0 where
  pub valid : IsValid s.send_buffer
  pub in_place : InFlight s.in_flight s.send_pending_count s.send_buffer
  -- no byte is lost, repeated or moved
  pub no_loss : s.wire ++ contents s.send_buffer ≡ s.posted

pub record IsSending (s : Session) : Type 0 where
  pub stored : IsStored s
  -- while a session is connected, what it has buffered is on its way
  pub moving :
      s.connected ≡ true
      → s.in_flight ≡ []
      → (s.send_pending_count ≡ 0) × (get_stored_size s.send_buffer ≡ 0)

-- What holds when `FlushSend` is called.
pub record IsIdle (s : Session) : Type 0 where
  pub valid : IsValid s.send_buffer
  pub no_context : s.in_flight ≡ []
  pub no_count : s.send_pending_count ≡ 0
  pub no_loss : s.wire ++ contents s.send_buffer ≡ s.posted

contiguous-eq-a_size : {b : CircularBuffer} → IsValid b → get_contiguous_bytes b ≡ b.a_size
unfolding get_contiguous_bytes
contiguous-eq-a_size v = ground arith

start-a_pointer :
    {b : CircularBuffer}
    → IsValid b
    → 0 < get_contiguous_bytes b
    → get_buffer_start b ≡ some b.a_pointer
unfolding get_contiguous_bytes get_buffer_start
start-a_pointer v h = ground arith

pub disconnect-IsSending :
    {s : Session} (dr : DisconnectReason) → IsStored s → IsSending (disconnect dr s)
unfolding disconnect
disconnect-IsSending {s} dr i = elim (Bool-cases s.connected) [
  | inl on ↦ simp on (record {
    stored = record { valid = i.valid; in_place = i.in_place; no_loss = i.no_loss };
    moving = λ e f. absurd (ground (arith, e));
  })
  | inr off ↦ simp off (record { stored = i; moving = λ e f. absurd (ground (arith, e, off)) })
]

-- The result is there, and has the property.
abbrev pub Yields {ℓ} : {A : Type ℓ} → (A → Session) → Result A → Type 0
Yields f (ok a) = IsSending (f a)
Yields f (fault e) = ⊥

pub flush_send-IsSending :
    (accepted : Bool) {s : Session} → IsIdle s → Yields (λ r. r.1) (flush_send accepted s)
unfolding flush_send send_context
flush_send-IsSending true {s} i =
    rw (i.no_count, flush_send)
      (record {
        stored = record {
          valid = i.valid;
          in_place = rw (i.no_context) (
            refl,
            omega (arith, contiguous-eq-a_size i.valid),
            λ (h : 0 < get_contiguous_bytes s.send_buffer % 2 ^ 32).
                start-a_pointer i.valid (omega (arith, h)),
          );
          no_loss = i.no_loss;
        };
        moving = λ e f. absurd (ground (arith, f));
      })
flush_send-IsSending false {s} i = disconnect-IsSending {s = s} dr_sendflush_error (record {
  valid = i.valid;
  in_place = rw (i.no_context, i.no_count) (omega arith);
  no_loss = i.no_loss;
})

pub InFlight-idle :
    (cs : List SendContext) (n : ℕ) (b : CircularBuffer) → InFlight cs n b → n ≡ 0 → cs ≡ []
InFlight-idle [] n b h e = refl
InFlight-idle (c ∷ []) n b h e = absurd (omega (arith, h.0))
InFlight-idle (c ∷ d ∷ cs) n b h e = absurd h

pub InFlight-write :
    (cs : List SendContext) (n : ℕ) {b : CircularBuffer} (bytes : List ℕ)
    → IsValid b
    → InFlight cs n b
    → InFlight cs n (write b bytes).1
InFlight-write [] n bytes v h = h
InFlight-write (c ∷ []) n {b = b} bytes v (one, fits, here) =
    let (same, longer) = write_keeps_a b bytes v in
    (one, omega arith, λ h. here h ∙ ap some (sym same))
InFlight-write (c ∷ d ∷ cs) n bytes v h = h

pub pointed_at-eq-take :
    {b : CircularBuffer} (c : SendContext) (n : ℕ)
    → IsValid b
    → c.len ≤ b.a_size
    → (0 < c.len → c.buf ≡ some b.a_pointer)
    → 0 < n
    → n ≤ c.len
    → pointed_at b c n ≡ take n (contents b)
unfolding pointed_at offered
pointed_at-eq-take {b} c n v fits here h k =
    let some_there : 0 < get_contiguous_bytes b = omega (arith, contiguous-eq-a_size v) in
    ap (λ o. elim o [ none ↦ [] | some p ↦ slice b.buffer p n ])
      (here (omega arith) ∙ sym (start-a_pointer v some_there))
    ∙ offered-eq-take n v some_there (omega (arith, contiguous-eq-a_size v))

pub Yields-bind :
    {A : Type 0} (f : A → Session) (r : Result A)
    → Yields f r
    → Yields (λ s. s) (r >>= λ a. ok (f a))
Yields-bind f (ok a) h = h
Yields-bind f (fault e) h = h

drained_stored :
    {b : CircularBuffer} → IsValid b → get_contiguous_bytes b ≡ 0 → get_stored_size b ≡ 0
unfolding get_contiguous_bytes get_stored_size
drained_stored v e = ground arith

pub IsIdle-IsSending :
    {s : Session} → IsIdle s → get_contiguous_bytes s.send_buffer ≡ 0 → IsSending s
IsIdle-IsSending {s} i e = record {
  stored = record {
    valid = i.valid;
    in_place = rw (i.no_context, i.no_count) (omega arith);
    no_loss = i.no_loss;
  };
  moving = λ on none_held. (i.no_count, drained_stored i.valid e);
}

pub Yields-then :
    (r : Result Session) (f : Session → Result Session)
    → Yields (λ s. s) r
    → ((s : Session) → IsSending s → Yields (λ s'. s') (f s))
    → Yields (λ s'. s') (r >>= f)
Yields-then (ok s) f h k = k s h
Yields-then (fault e) f h k = h

pub Yields-if :
    (b : Bool) (x y : Result Session)
    → (b ≡ true → Yields (λ s. s) x)
    → (b ≡ false → Yields (λ s. s) y)
    → Yields (λ s. s) (if b then x else y)
Yields-if true x y h k = h refl
Yields-if false x y h k = k refl

pub Yields-post :
    (connected : Bool) (r : Result (Bool × Session)) {s : Session}
    → Yields (λ x. x.1) r
    → IsSending s
    → Yields (λ x. x.1) (if connected then r else ok (false, s))
Yields-post true r h i = h
Yields-post false r h i = i

pub Yields-ok :
    (r : Result Session) → Yields (λ s'. s') r → (s' : Session) × (r ≡ ok s') × IsSending s'
Yields-ok (ok s) h = (s, refl, h)
Yields-ok (fault e) h = absurd h
