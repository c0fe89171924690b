-- ===== src/Server/Stream/Serve.antt =====
-- Any number of packets, and the beginning of one that is not complete.
use game_lift.Prelude.{
  ℕ, zero, suc, ◌≤◌, ◌<◌, ◌≡◌, refl, sym, subst, ap, ◌∙◌, ◌⊎◌, inl, inr, List, [], ◌∷◌, ◌++◌,
  append_assoc, arith, length, take,
}
use game_lift.Buffer.Inv.{IsValid, contents, length-contents_stored}
use game_lift.Buffer.Drain.{read_lem, read_refused, peek-eq-read}
use game_lift.Packet.{
  decode_header, size_of_short, header_size, ClientPacket, login_request, chat_request,
  move_request, exit_request, encode_client,
}
use game_lift.Packet.Client.{IsSendable, client_size}
use game_lift.Server.State.{World, Services, Result, ok, fault, Fault, ◌>>=◌, ok-injective}
use game_lift.Server.Frame.{
  SameInput, player_login-SameInput, player_logout-SameInput, broadcast_message-SameInput,
}
use game_lift.Server.Handlers.{return, dispatch_round, dispatch_packet}
use game_lift.Server.Stream.{consume, serve_packet, serve, dispatch_round-serve_packet, consumed}

abbrev pub encode_all : List ClientPacket → List ℕ
encode_all [] = []
encode_all (p ∷ ps) = encode_client p ++ encode_all ps

abbrev pub AllSendable : List ClientPacket → Type 0
AllSendable [] = Unit {0}
AllSendable (p ∷ ps) = IsSendable p × AllSendable ps

-- Less than a header, or less than the header says.
abbrev pub IsIncomplete : List ℕ → Type 0
IsIncomplete xs =
    (length xs < header_size)
    ⊎ ((header_size ≤ length xs)
        × (length xs < size_of_short (decode_header (take header_size xs)).size))

Result-cases : (r : Result World) → ((w : World) × (r ≡ ok w)) ⊎ ((e : Fault) × (r ≡ fault e))
Result-cases (ok w) = inl (w, refl)
Result-cases (fault e) = inr (e, refl)

module _ (env : Services) where
  dispatch_round_waits :
      (w : World) (s : ℕ)
      → IsValid (w.sessions s).recv_buffer
      → IsIncomplete (contents (w.sessions s).recv_buffer)
      → dispatch_round env w s ≡ return w
  unfolding dispatch_round
  dispatch_round_waits w s v (inl few) = ground (
    arith,
    peek-eq-read header_size v
        ∙ ap (λ o. o.0)
            (read_refused (w.sessions s).recv_buffer header_size
              (omega (arith, length-contents_stored v))),
  )
  dispatch_round_waits w s v (inr (some_there, few)) = ground (
    arith,
    length-contents_stored v,
    peek-eq-read header_size v
        ∙ (read_lem header_size v (omega (arith, length-contents_stored v))).0,
  )

  serve_packet-SameInput :
      (s : ℕ) (w : World) (p : ClientPacket) {w' : World}
      → serve_packet env s w p ≡ ok w'
      → SameInput w w'
  unfolding serve_packet
  serve_packet-SameInput s w (login_request id) e =
      subst (SameInput w) (ok-injective e) (player_login-SameInput env w s id)
  serve_packet-SameInput s w (chat_request id chat) e = broadcast_message-SameInput env _ w e
  serve_packet-SameInput s w (move_request body) e = broadcast_message-SameInput env _ w e
  serve_packet-SameInput s w (exit_request id) e =
      subst (SameInput w) (ok-injective e) (player_logout-SameInput env w s id)

  -- However the bytes of well-formed packets were cut on the way: once they are buffered, with an
  -- incomplete rest, `DispatchPacket` does what serving the packets one after the other does, and
  -- it does so in one round for each packet and one more.
  pub dispatch_packet-serve :
      (fuel : ℕ) (ps : List ClientPacket) (tail : List ℕ) (w : World) (s : ℕ)
      → IsValid (w.sessions s).recv_buffer
      → AllSendable ps
      → contents (w.sessions s).recv_buffer ≡ encode_all ps ++ tail
      → IsIncomplete tail
      → length ps < fuel
      → dispatch_packet env fuel w s ≡ serve env s w ps
  unfolding dispatch_packet serve
  dispatch_packet-serve zero ps tail w s v good here rest h = absurd (omega arith)
  dispatch_packet-serve (suc fuel) [] tail w s v good here rest h =
      rw (dispatch_round_waits w s v (subst IsIncomplete (sym here) rest), dispatch_packet) refl
  dispatch_packet-serve (suc fuel) (p ∷ ps) tail w s v good here rest h =
      rw
        (
          dispatch_round-serve_packet env w s p (encode_all ps ++ tail) v good.0 split,
          dispatch_packet,
        )
        (elim (Result-cases (serve_packet env s w' p)) [
          | inr (e, faulty) ↦ rw (faulty, ◌>>=◌) refl
          | inl (w'', fine) ↦
              let same : (w''.sessions s).recv_buffer ≡ (w'.sessions s).recv_buffer =
                (serve_packet-SameInput s w' p fine).inbox s in
              rw (fine, ◌>>=◌)
                (dispatch_packet-serve fuel ps tail w'' s (subst IsValid (sym same) after.0) good.1
                  (ap contents same ∙ after.1) rest (omega arith))
        ])
    where
      w' : World
      w' = consume w s (client_size p)

      split : contents (w.sessions s).recv_buffer ≡ encode_client p ++ (encode_all ps ++ tail)
      split = here ∙ append_assoc (encode_client p) (encode_all ps) tail

      after :
          IsValid (w'.sessions s).recv_buffer
          × (contents (w'.sessions s).recv_buffer ≡ encode_all ps ++ tail)
      after = consumed env w s p (encode_all ps ++ tail) v good.0 split
