-- ===== src/Server/Echo.antt =====
-- `ClientSession::EchoBack`, which takes the place of `DispatchPacket` in the build with ECHO_MODE.
use game_lift.Prelude.{
  ℕ, ◌≤◌, ◌≡◌, refl, ap, ◌∙◌, Bool-cases, inl, inr, ◌++◌, ◌==◌, if◌then◌else◌, arith, append_assoc,
  take, drop, take-append-drop, length, length-take,
}
use game_lift.Buffer.{get_contiguous_bytes, write, remove}
use game_lift.Buffer.Inv.{IsValid, contents}
use game_lift.Buffer.Drain.{Took}
use game_lift.Buffer.Fill.{room, write_fits}
use game_lift.Buffer.Refine.{remove-Took}
use game_lift.Server.State.{World, Services, put_session}
use game_lift.Server.Session.{disconnect}
use game_lift.Server.Flush.{offered}
use game_lift.Server.Flush.Laws.{offered-eq-take}

module _ (env : Services) where
  unfoldable pub echo_back : World → ℕ → World
  unfolding disconnect
  echo_back w s =
      let len = get_contiguous_bytes (w.sessions s).recv_buffer in
      let (written, b) =
        write (w.sessions s).send_buffer (offered (w.sessions s).recv_buffer len) in
      if len == 0
      then w
      else if written
      then put_session w s (record (w.sessions s) {
        send_buffer = b;
        recv_buffer = remove (w.sessions s).recv_buffer len;
      })
      else disconnect env (put_session w s (record (w.sessions s) { send_buffer = b })) s

  -- If both buffers of a session are valid, and the send buffer has room for the bytes that lie
  -- together in the receive buffer, then `EchoBack` loses no byte and keeps their order: what is to
  -- be sent, followed by what is not yet echoed, is as before.
  pub echo_back_lem :
      (w : World) (s : ℕ)
      → IsValid (w.sessions s).recv_buffer
      → IsValid (w.sessions s).send_buffer
      → get_contiguous_bytes (w.sessions s).recv_buffer ≤ room (w.sessions s).send_buffer
      → let w' = echo_back w s in
        contents (w'.sessions s).send_buffer ++ contents (w'.sessions s).recv_buffer
        ≡ contents (w.sessions s).send_buffer ++ contents (w.sessions s).recv_buffer
  unfolding echo_back
  echo_back_lem w s v u fits =
      elim (Bool-cases (get_contiguous_bytes (w.sessions s).recv_buffer == 0)) [
        | inl empty ↦ rw empty refl
        | inr some_there ↦
            let r = (w.sessions s).recv_buffer in
            let n : ℕ = get_contiguous_bytes r in
            let out : offered r n ≡ take n (contents r) =
              offered-eq-take n v (ground (arith, some_there)) (omega arith) in
            let (done, p) =
              write_fits (offered r n) u
                (omega (arith, ap length out, length-take n (contents r))) in
            let t : Took r n (remove r n) = remove-Took n v in
            ground (
              arith,
              some_there,
              done,
              ap (λ xs. xs ++ contents (remove r n)) p.whole
                  ∙ append_assoc (contents (w.sessions s).send_buffer) (offered r n)
                      (contents (remove r n))
                  ∙ ap (◌++◌ (contents (w.sessions s).send_buffer)) (
                      ap (◌++◌ (offered r n)) t.rest
                      ∙ ap (λ xs. xs ++ drop n (contents r)) out
                      ∙ take-append-drop n (contents r)),
            )
      ]
