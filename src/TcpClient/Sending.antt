-- ===== src/TcpClient/Sending.antt =====
-- What `send` of the game client sends.
use game_lift.Prelude.{
  ℕ, ◌+◌, ◌-◌, ◌*◌, ◌≤◌, ◌<◌, ◌≡◌, refl, sym, ap, ◌∙◌, min, true, Bool-cases, inl, inr, some, List,
  [], ◌∷◌, ◌++◌, ltb, arith, length, length-append, length-slice, slice, slice-add, take,
  append-nil,
}
use game_lift.TcpClient.{Answer, sent, socket_error, Sent, send_loop, send}

-- So much of the data is sent, from `count` on; `true` is answered where that is half of the rest.
record IsPart (data_ : List ℕ) (count len : ℕ) (s : Sent) : Type 0 where
  part : s.wire ≡ slice data_ count (length s.wire)
  within : length s.wire ≤ len
  half : s.answer ≡ some true → len ≤ count + 2 * length s.wire

send_loop-IsPart :
    (answers : List Answer) (data_ : List ℕ) (count len : ℕ)
    → count + len ≡ length data_
    → IsPart data_ count len (send_loop answers data_ count len)
unfolding send_loop
send_loop-IsPart [] data_ count len h = elim (Bool-cases (ltb count len)) [
  | inl more ↦
      rw more (record { part = refl; within = omega arith; half = λ e. absurd (ground (arith, e)) })
  | inr done ↦
      rw done (record { part = refl; within = omega arith; half = λ e. ground (arith, done) })
]
send_loop-IsPart (socket_error ∷ more) data_ count len h = elim (Bool-cases (ltb count len)) [
  | inl on ↦
      rw on (record { part = refl; within = omega arith; half = λ e. absurd (ground (arith, e)) })
  | inr done ↦
      rw done (record { part = refl; within = omega arith; half = λ e. ground (arith, done) })
]
send_loop-IsPart (sent n ∷ more) data_ count len h =
    let k = min n len in
    let p = send_loop-IsPart more data_ (count + k) (len - k) (omega arith) in
    let w = (send_loop more data_ (count + k) (len - k)).wire in
    let taken : length (slice data_ count k) ≡ k = length-slice data_ count k (omega arith) in
    let both : length (slice data_ count k ++ w) ≡ k + length w =
      length-append (slice data_ count k) w ∙ ap (λ i. i + length w) taken in
    elim (Bool-cases (ltb count len)) [
      | inl on ↦ rw on (record {
        part =
            ap (λ xs. slice data_ count k ++ xs) p.part
            ∙ sym
                (slice-add data_ count k (length w) (length (slice data_ count k ++ w)) (sym both));
        within = omega (arith, both, p.within);
        half = λ e. omega (arith, both, p.half e);
      })
      | inr done ↦
          rw done (record { part = refl; within = omega arith; half = λ e. ground (arith, done) })
    ]

-- Whatever the system takes in each call: the bytes sent are a beginning of the data, and if `send`
-- answers `true`, they are at least half of it. (They need not be all of it.)
pub send-IsPart :
    (answers : List Answer) (data_ : List ℕ)
    → let s = send answers data_ in
      (s.wire ≡ take (length s.wire) data_)
      × (length s.wire ≤ length data_)
      × (s.answer ≡ some true → length data_ ≤ 2 * length s.wire)
unfolding send
send-IsPart answers data_ =
    let p = send_loop-IsPart answers data_ 0 (length data_) (omega arith) in
    (p.part, p.within, λ e. omega (arith, p.half e))

send_loop_done :
    (answers : List Answer) (data_ : List ℕ) (count len : ℕ)
    → len ≤ count
    → send_loop answers data_ count len ≡ record { answer = some true; wire = [] }
unfolding send_loop
send_loop_done [] data_ count len h = ground arith
send_loop_done (socket_error ∷ more) data_ count len h = ground arith
send_loop_done (sent n ∷ more) data_ count len h = ground arith

-- If the first call of the system takes at least half of the data but not all, `send` answers `true`
-- and the rest is never sent, whatever the system would take afterwards.
pub send_short :
    (n : ℕ) (more : List Answer) (data_ : List ℕ)
    → n < length data_
    → length data_ ≤ 2 * n
    → ((send (sent n ∷ more) data_).answer ≡ some true)
      × ((send (sent n ∷ more) data_).wire ≡ take n data_)
unfolding send send_loop
send_short n more data_ few half =
    let k : min n (length data_) ≡ n = omega arith in
    let over = send_loop_done more data_ (0 + n) (length data_ - n) (omega arith) in
    rw (k, over)
      (ground (arith, append-nil (take n data_)), ground (arith, append-nil (take n data_)))
