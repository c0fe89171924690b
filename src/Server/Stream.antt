-- ===== src/Server/Stream.antt =====
-- The packets of a client arrive as a stream of bytes, cut anywhere. `DispatchPacket` serves each
-- complete packet once, in order, and keeps the bytes of an incomplete one.
pub mod Serve
use game_lift.Prelude.{
  ℕ, zero, suc, ◌+◌, ◌-◌, ◌^◌, ◌≤◌, ◌<◌, ◌≡◌, ◌≢◌, refl, sym, subst, ap, ◌∙◌, ◌⊎◌, inl, inr, Bool,
  true, false, Option, none, some, List, [], ◌∷◌, ◌++◌, append_assoc, if◌then◌else◌, arith, length,
  length-append, take, drop, slice, drop-append_right, take-append_right, take_of_length_le,
  append-nil, ltb, take_whole, drop_whole,
}
use game_lift.Buffer.{CircularBuffer, taken, refused, peek, read, get_stored_size}
use game_lift.Buffer.Inv.{IsValid, contents, length-contents_stored}
use game_lift.Buffer.Drain.{Took, read_lem, read_refused, peek-eq-read}
use game_lift.Packet.{
  PacketHeader, decode_header, size_of_short, invalid_type, header_size, login_size, chat_size,
  move_size, exit_size, pkt_cs_login, pkt_cs_chat, pkt_cs_move, pkt_cs_exit, max_session_len,
  max_chat_len, ClientPacket, login_request, chat_request, move_request, exit_request,
  encode_client, encode_header, char_array, c_string, chat_result, move_result,
}
use game_lift.Packet.Client.{
  IsSendable, client_size, client_type, header_size-le, length-encode_client, header_of,
  take-encode_client, decode-header_of,
}
use game_lift.Packet.Codec.{IsText, c_string-char_array, length-char_array}
use game_lift.Server.State.{
  World, ClientSession, Services, Result, ok, fault, Fault, ◌>>=◌, put_session,
}
use game_lift.Server.Session.{player_login, player_logout}
use game_lift.Server.Broadcast.{broadcast_message}
use game_lift.Server.Handlers.{
  Round, return, again, dispatch_round, dispatch_packet, handler, login_handler, exit_handler,
  chat_handler, move_handler, login_body, exit_body, chat_body, move_body, with_packet,
}
use game_lift.Server.Rounds.{AtFront, dispatch_round-handler}

-- The buffer after a packet of `n` bytes is read out.
pub consume : World → ℕ → ℕ → World
consume w s n =
    put_session w s (record (w.sessions s) { recv_buffer = (read (w.sessions s).recv_buffer n).1 })

module _ (env : Services) where
  -- What the server does for a packet.
  pub serve_packet : ℕ → World → ClientPacket → Result World
  serve_packet s w (login_request id) = ok (player_login env w s id)
  serve_packet s w (chat_request id chat) = broadcast_message env (chat_result id chat) w
  serve_packet s w (move_request body) = broadcast_message env (move_result body) w
  serve_packet s w (exit_request id) = ok (player_logout env w s id)

  pub serve : ℕ → World → List ClientPacket → Result World
  serve s w [] = ok w
  serve s w (p ∷ ps) = serve_packet s (consume w s (client_size p)) p >>= λ w'. serve s w' ps

  with_packet-taken :
      (w : World) (s n : ℕ) (body : World → List ℕ → Result World) (bytes : List ℕ)
      → (read (w.sessions s).recv_buffer n).0 ≡ taken bytes
      → with_packet env w s n body ≡ body (consume w s n) bytes
  unfolding with_packet consume
  with_packet-taken w s n body bytes e = ground (arith, e)

  text_of_array :
      (id : List ℕ)
      → IsText id
      → length id < 128
      → c_string (take 128 (char_array 128 id)) ≡ some id
  text_of_array id t h =
      ap c_string (
        take_of_length_le 128 (char_array 128 id)
          (omega (arith, length-char_array 128 id (omega arith))))
      ∙ c_string-char_array 128 id t h

  login_body-encode :
      (s : ℕ) (w : World) (id : List ℕ)
      → IsSendable (login_request id)
      → login_body env s w (encode_client (login_request id)) ≡ ok (player_login env w s id)
  unfolding login_body encode_client
  login_body-encode s w id h = ground (arith, text_of_array id h.0 h.1)

  exit_body-encode :
      (s : ℕ) (w : World) (id : List ℕ)
      → IsSendable (exit_request id)
      → exit_body env s w (encode_client (exit_request id)) ≡ ok (player_logout env w s id)
  unfolding exit_body encode_client
  exit_body-encode s w id h = ground (arith, text_of_array id h.0 h.1)

  chat_body-encode :
      (w : World) (id chat : List ℕ)
      → IsSendable (chat_request id chat)
      → chat_body env w (encode_client (chat_request id chat))
        ≡ broadcast_message env (chat_result id chat) w
  unfolding chat_body encode_client
  chat_body-encode w id chat h =
      let n : length (char_array 128 id) ≡ 128 = length-char_array 128 id (omega arith) in
      ground (
        arith,
        take_whole 128 (char_array 128 id) (char_array 128 chat) n,
        drop_whole 128 (char_array 128 id) (char_array 128 chat) n,
        c_string-char_array 128 id h.0 h.1,
        text_of_array chat h.2 h.3,
      )

  move_body-encode :
      (w : World) (body : List ℕ)
      → IsSendable (move_request body)
      → move_body env w (encode_client (move_request body))
        ≡ broadcast_message env (move_result body) w
  unfolding move_body encode_client
  move_body-encode w body h =
      ap (λ xs. broadcast_message env (move_result xs) w) (take_of_length_le 12 body (omega arith))

  -- The handler of a packet at the front of the buffer serves it.
  handler-serve_packet :
      (w : World) (s : ℕ) (p : ClientPacket)
      → IsSendable p
      → (read (w.sessions s).recv_buffer (client_size p)).0 ≡ taken (encode_client p)
      → handler env (client_type p) w s ≡ serve_packet s (consume w s (client_size p)) p
  unfolding handler serve_packet
  handler-serve_packet w s (login_request id) h e =
      with_packet-taken w s login_size (login_body env s) (encode_client (login_request id)) e
      ∙ login_body-encode s (consume w s login_size) id h
  handler-serve_packet w s (chat_request id chat) h e =
      with_packet-taken w s chat_size (chat_body env) (encode_client (chat_request id chat)) e
      ∙ chat_body-encode (consume w s chat_size) id chat h
  handler-serve_packet w s (move_request body) h e =
      with_packet-taken w s move_size (move_body env) (encode_client (move_request body)) e
      ∙ move_body-encode (consume w s move_size) body h
  handler-serve_packet w s (exit_request id) h e =
      with_packet-taken w s exit_size (exit_body env s) (encode_client (exit_request id)) e
      ∙ exit_body-encode s (consume w s exit_size) id h

  module _ (w : World) (s : ℕ) (p : ClientPacket) (rest : List ℕ)
      (v : IsValid (w.sessions s).recv_buffer) (good : IsSendable p)
      (here : contents (w.sessions s).recv_buffer ≡ encode_client p ++ rest) where
    enough : client_size p ≤ get_stored_size (w.sessions s).recv_buffer
    enough = omega (
      arith,
      length-contents_stored v,
      ap length here,
      length-append (encode_client p) rest,
      length-encode_client p good,
    )

    read_packet :
        ((read (w.sessions s).recv_buffer (client_size p)).0 ≡ taken (encode_client p))
        × Took
            (w.sessions s).recv_buffer
            (client_size p)
            (read (w.sessions s).recv_buffer (client_size p)).1
    read_packet =
        let (out, t) = read_lem (client_size p) v enough in
        (
          out
              ∙ ap (λ xs. taken (take (client_size p) xs)) here
              ∙ ap taken
                  (take_whole (client_size p) (encode_client p) rest (length-encode_client p good)),
          t,
        )

    packet-AtFront : AtFront w s (header_of p)
    packet-AtFront = record {
      peeked =
          peek-eq-read header_size v
          ∙ (read_lem header_size v (omega (arith, enough, header_size-le p))).0
          ∙ ap (λ xs. taken (take header_size xs)) here
          ∙ ap taken (take-encode_client p rest);
      complete = omega (arith, enough, decode-header_of p);
    }

    -- One round serves the packet at the front.
    dispatch_round-serve_packet :
        dispatch_round env w s ≡ again (serve_packet s (consume w s (client_size p)) p)
    dispatch_round-serve_packet =
        dispatch_round-handler env packet-AtFront (decode-header_of p).2
        ∙ ap (λ t. again (handler env t w s)) (decode-header_of p).1
        ∙ ap again (handler-serve_packet w s p good read_packet.0)

    -- And leaves what follows it.
    pub consumed :
        IsValid ((consume w s (client_size p)).sessions s).recv_buffer
        × (contents ((consume w s (client_size p)).sessions s).recv_buffer ≡ rest)
    unfolding consume
    consumed =
        let t : Took (w.sessions s).recv_buffer (client_size p)
            (read (w.sessions s).recv_buffer (client_size p)).1 =
          read_packet.1 in
        (
          ground (arith, t.valid),
          ground (
            arith,
            t.rest,
            ap (drop (client_size p)) here,
            drop_whole (client_size p) (encode_client p) rest (length-encode_client p good),
          ),
        )
