-- ===== src/Server/Flush/Laws.antt =====
-- What `SendFlush` sends.
use game_lift.Prelude.{
  ℕ, suc, ◌≤◌, ◌<◌, ◌≡◌, refl, sym, ap, ◌∙◌, true, some, List, [], ◌∷◌, ◌++◌, ◌==◌, arith, length,
  take, drop, take-append-drop, append_assoc, ◌≢◌, nil_of_length, append-nil, inl, inr, Bool-cases,
  take-slice, take-take, length-drop,
}
use native.Mathlib.Decide.{dec_lt}
use game_lift.Buffer.{CircularBuffer, get_contiguous_bytes, remove, get_stored_size}
use game_lift.Buffer.Inv.{IsValid, contents, length-contents_stored}
use game_lift.Buffer.Drain.{Took}
use game_lift.Buffer.Refine.{remove-Took}
use game_lift.Buffer.Window.{send_window, get_contiguous_bytes-pos, get_contiguous_bytes-le}
use game_lift.Server.State.{ClientSession}
use game_lift.Server.Flush.{
  Sending, takes, would_block, failed, Flushed, offered, taken_by, flush_loop, send_flush,
}

-- What is offered to the socket are the oldest bytes.
pub offered-eq-take :
    {b : CircularBuffer} (n : ℕ)
    → IsValid b
    → 0 < get_contiguous_bytes b
    → n ≤ get_contiguous_bytes b
    → offered b n ≡ take n (contents b)
unfolding offered
offered-eq-take {b} n v h k =
    let (p, start, _, _, window) = send_window v (omega (arith, get_contiguous_bytes-le v)) in
    rw (start, offered)
      (sym (take-slice b.buffer p n (get_contiguous_bytes b) k)
        ∙ ap (take n) window
        ∙ take-take n (get_contiguous_bytes b) (contents b) k)

pub record IsFlush (b : CircularBuffer) (f : Flushed) : Type 0 where
  pub valid : IsValid f.buffer
  pub no_loss : f.wire ++ contents f.buffer ≡ contents b

flush_loop-IsFlush :
    (rs : List Sending) {b : CircularBuffer} → IsValid b → IsFlush b (flush_loop rs b)
unfolding flush_loop
flush_loop-IsFlush [] v = record { valid = v; no_loss = refl }
flush_loop-IsFlush (would_block ∷ rs) v = record { valid = v; no_loss = refl }
flush_loop-IsFlush (failed ∷ rs) v = record { valid = v; no_loss = refl }
flush_loop-IsFlush (takes n ∷ rs) {b} v = elim (Bool-cases (get_contiguous_bytes b == 0)) [
  | inl empty ↦ rw empty (record { valid = v; no_loss = refl })
  | inr some_left ↦
      let t : Took b (taken_by b n) (remove b (taken_by b n)) = remove-Took (taken_by b n) v in
      let later : IsFlush (remove b (taken_by b n)) (flush_loop rs (remove b (taken_by b n))) =
        flush_loop-IsFlush rs t.valid in
      rw some_left (record {
        valid = later.valid;
        no_loss =
            append_assoc (offered b (taken_by b n)) _ _
            ∙ ap (◌++◌ (offered b (taken_by b n))) (later.no_loss ∙ t.rest)
            ∙ ap (λ xs. xs ++ drop (taken_by b n) (contents b))
                (offered-eq-take (taken_by b n) v (ground arith) (omega arith))
            ∙ take-append-drop (taken_by b n) (contents b);
      })
]

-- From a valid send buffer, whatever the socket takes, the bytes that went out, followed by those still in the buffer, are the
-- bytes that were in the buffer, in order; and the buffer stays valid.
pub send_flush-IsFlush :
    (results : List Sending) (c : ClientSession)
    → IsValid c.send_buffer
    → IsFlush c.send_buffer (send_flush results c)
unfolding send_flush
send_flush-IsFlush results c v = elim (Bool-cases c.connected) [
  | inl on ↦ rw on (flush_loop-IsFlush results v)
  | inr off ↦ rw off (record { valid = v; no_loss = refl })
]

-- Results of `write` that each take at least one byte.
abbrev pub AllTake : List Sending → Type 0
AllTake [] = Unit {0}
AllTake (takes n ∷ rs) = (0 < n) × AllTake rs
AllTake (r ∷ rs) = ⊥

drained_length :
    {b : CircularBuffer} → IsValid b → get_contiguous_bytes b ≡ 0 → length (contents b) ≡ 0
drained_length {b} v e = elim (dec_lt 0 (get_stored_size b)) [
  | yes p ↦ absurd (omega (arith, get_contiguous_bytes-pos v p))
  | no q ↦ omega (arith, length-contents_stored v)
]

fewer :
    {b b' : CircularBuffer} {n k : ℕ}
    → IsValid b
    → Took b (taken_by b n) b'
    → 0 < n
    → get_stored_size b ≤ suc k
    → get_contiguous_bytes b ≢ 0
    → get_stored_size b' ≤ k
fewer {b} {b'} {n} v t h few ne = omega (
  arith,
  length-contents_stored v,
  length-contents_stored t.valid,
  ap length t.rest,
  length-drop (taken_by b n) (contents b),
  get_contiguous_bytes-le v,
)

flush_loop_done :
    (rs : List Sending) {b : CircularBuffer}
    → IsValid b
    → AllTake rs
    → get_stored_size b ≤ length rs
    → ((flush_loop rs b).answer ≡ some true) × (contents (flush_loop rs b).buffer ≡ [])
unfolding flush_loop
flush_loop_done [] {b} v h k =
    let none_left : get_contiguous_bytes b ≡ 0 = omega (arith, get_contiguous_bytes-le v) in
    (
      ground (arith, none_left),
      nil_of_length (contents b) (omega (arith, length-contents_stored v)),
    )
flush_loop_done (would_block ∷ rs) v h k = absurd h
flush_loop_done (failed ∷ rs) v h k = absurd h
flush_loop_done (takes n ∷ rs) {b} v h k = elim (Bool-cases (get_contiguous_bytes b == 0)) [
  | inl empty ↦ rw empty (refl, nil_of_length (contents b) (drained_length v (ground arith)))
  | inr some_left ↦
      let t : Took b (taken_by b n) (remove b (taken_by b n)) = remove-Took (taken_by b n) v in
      rw some_left (flush_loop_done rs t.valid h.1 (fewer v t h.0 k (ground arith)))
]

-- On a connected session with a valid send buffer, if every `write` takes something, then as many
-- calls as there are bytes send them all: `SendFlush` returns `true`, leaves the buffer empty, and
-- has sent what was in it.
pub send_flush_done :
    (results : List Sending) (c : ClientSession)
    → IsValid c.send_buffer
    → c.connected ≡ true
    → AllTake results
    → get_stored_size c.send_buffer ≤ length results
    → let f = send_flush results c in
      (f.answer ≡ some true) × (contents f.buffer ≡ []) × (f.wire ≡ contents c.send_buffer)
unfolding send_flush
send_flush_done results c v on h k =
    let (ends, all) = flush_loop_done results v h k in
    rw on (
      ends,
      all,
      sym (append-nil (flush_loop results c.send_buffer).wire)
          ∙ ap (◌++◌ (flush_loop results c.send_buffer).wire) (sym all)
          ∙ (flush_loop-IsFlush results v).no_loss,
    )
