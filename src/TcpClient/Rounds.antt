-- ===== src/TcpClient/Rounds.antt =====
-- One packet of the server at the front of the client's buffer, and what `processPacket` does with it.
use game_lift.Prelude.{
  ℕ, ◌≤◌, ◌≡◌, refl, ap, ◌∙◌, inl, inr, List, [], ◌∷◌, ◌++◌, arith, length, length-append, take,
  drop, slice, take_whole, drop_whole,
}
use game_lift.Buffer.{taken, peek, read, get_stored_size}
use game_lift.Buffer.Inv.{IsValid, contents, length-contents_stored}
use game_lift.Buffer.Drain.{Took, read_lem, read_refused, peek-eq-read}
use game_lift.Buffer.Half.{IsHalf, read-IsHalf}
use game_lift.Packet.{
  header_size, login_size, chat_size, move_size, ServerPacket, login_reply, chat_reply, move_reply,
  encode_server, chat_result, move_result,
}
use game_lift.Packet.Reply.{
  IsReply, server_size, server_type, server_header, header_size-le_server, length-encode_server,
  take-encode_server, decode-server_header, chat_texts,
}
use game_lift.Server.State.{Result, ok}
use game_lift.Server.Stream.Serve.{IsIncomplete}
use game_lift.TcpClient.{
  TcpClient, Drawing, chat_draw, drawing_of_move, decode_int, packet_case, packet_round, with_read,
  login_case, chat_case, move_case, break, again,
}

-- What the game knows of the client, and what a packet of the server means to it.
pub record Game : Type 0 where
  pub login_id : ℕ
  pub drawings : List Drawing

abbrev pub game : TcpClient → Game
game c = record { login_id = c.login_id; drawings = c.drawings }

unfoldable pub view_game : Game → ServerPacket → Game
view_game g (login_reply id) = record g { login_id = 416 }
view_game g (chat_reply id chat) = record g { drawings = g.drawings ++ (chat_draw id chat ∷ []) }
view_game g (move_reply body) = record g {
  drawings =
      g.drawings
      ++ (drawing_of_move g.login_id (decode_int (take 4 body)) (slice body 4 4) (slice body 8 4)
          ∷ []);
}

-- The client after a packet.
pub view : TcpClient → ServerPacket → TcpClient
unfolding view_game
view c p = let g = view_game (game c) p in record c { login_id = g.login_id; drawings = g.drawings }

-- A client whose buffer is valid, with room that has not fallen apart.
pub record IsWell (c : TcpClient) : Type 0 where
  pub valid : IsValid c.recv_buffer
  pub half : IsHalf c.recv_buffer

-- The client after a packet of `n` bytes is read out.
pub consume : TcpClient → ℕ → TcpClient
consume c n = record c { recv_buffer = (read c.recv_buffer n).1 }

with_read-taken :
    (c : TcpClient) (n : ℕ) (body : TcpClient → List ℕ → Result TcpClient) (bytes : List ℕ)
    → (read c.recv_buffer n).0 ≡ taken bytes
    → with_read c n body ≡ body (consume c n) bytes
unfolding with_read consume
with_read-taken c n body bytes e = ground (arith, e)

chat_case-encode :
    (c : TcpClient) (id chat : List ℕ)
    → IsReply (chat_reply id chat)
    → chat_case c (encode_server (chat_reply id chat)) ≡ ok (view c (chat_reply id chat))
unfolding chat_case encode_server view chat_result
chat_case-encode c id chat h =
    let (first, second) = chat_texts id chat h in ground (arith, first, second)

move_case-encode :
    (c : TcpClient) (body : List ℕ)
    → IsReply (move_reply body)
    → move_case c (encode_server (move_reply body)) ≡ ok (view c (move_reply body))
unfolding move_case encode_server view move_result
move_case-encode c body h = refl

-- The case of the `switch` for a packet at the front of the buffer.
packet_case-view :
    (c : TcpClient) (p : ServerPacket)
    → IsReply p
    → (read c.recv_buffer (server_size p)).0 ≡ taken (encode_server p)
    → packet_case (server_type p) c ≡ ok (view (consume c (server_size p)) p)
unfolding packet_case view login_case
packet_case-view c (login_reply id) h e =
    with_read-taken c login_size login_case (encode_server (login_reply id)) e
packet_case-view c (chat_reply id chat) h e =
    with_read-taken c chat_size chat_case (encode_server (chat_reply id chat)) e
    ∙ chat_case-encode (consume c chat_size) id chat h
packet_case-view c (move_reply body) h e =
    with_read-taken c move_size move_case (encode_server (move_reply body)) e
    ∙ move_case-encode (consume c move_size) body h

module _ (c : TcpClient) (p : ServerPacket) (rest : List ℕ) (w : IsWell c) (good : IsReply p)
    (here : contents c.recv_buffer ≡ encode_server p ++ rest) where
  enough : server_size p ≤ get_stored_size c.recv_buffer
  enough = omega (
    arith,
    length-contents_stored w.valid,
    ap length here,
    length-append (encode_server p) rest,
    length-encode_server p good,
  )

  read_packet :
      ((read c.recv_buffer (server_size p)).0 ≡ taken (encode_server p))
      × Took c.recv_buffer (server_size p) (read c.recv_buffer (server_size p)).1
  read_packet =
      let (out, t) = read_lem (server_size p) w.valid enough in
      (
        out
            ∙ ap (λ xs. taken (take (server_size p) xs)) here
            ∙ ap taken
                (take_whole (server_size p) (encode_server p) rest (length-encode_server p good)),
        t,
      )

  peek_header : peek c.recv_buffer header_size ≡ taken (server_header p)
  peek_header =
      peek-eq-read header_size w.valid
      ∙ (read_lem header_size w.valid (omega (arith, enough, header_size-le_server p))).0
      ∙ ap (λ xs. taken (take header_size xs)) here
      ∙ ap taken (take-encode_server p rest)

  -- One round gives the packet to the game.
  pub packet_round-view : packet_round c ≡ again (ok (view (consume c (server_size p)) p))
  unfolding packet_round
  packet_round-view =
      let (size, type) = decode-server_header p in
      let served = packet_case-view c p good read_packet.0 in
      ground (arith, peek_header, size, type, served, enough)

  -- And leaves what follows it.
  pub consumed :
      let c' = view (consume c (server_size p)) p in
      IsWell c'
      × (contents c'.recv_buffer ≡ rest)
      × (c'.recv_buffer.capacity ≡ c.recv_buffer.capacity)
      × (game c' ≡ view_game (game c) p)
  unfolding view consume
  consumed =
      let t = read_packet.1 in
      (
        record { valid = t.valid; half = read-IsHalf (server_size p) w.valid w.half },
        t.rest
            ∙ ap (drop (server_size p)) here
            ∙ drop_whole (server_size p) (encode_server p) rest (length-encode_server p good),
        t.same_capacity,
        refl,
      )

-- A packet that is not complete is left for the next turn.
pub packet_round_waits :
    (c : TcpClient)
    → IsWell c
    → IsIncomplete (contents c.recv_buffer)
    → packet_round c ≡ break (ok c)
unfolding packet_round
packet_round_waits c w (inl few) = ground (
  arith,
  peek-eq-read header_size w.valid
      ∙ ap (λ o. o.0)
          (read_refused c.recv_buffer header_size (omega (arith, length-contents_stored w.valid))),
)
packet_round_waits c w (inr (some_there, few)) = ground (
  arith,
  length-contents_stored w.valid,
  peek-eq-read header_size w.valid
      ∙ (read_lem header_size w.valid (omega (arith, length-contents_stored w.valid))).0,
)
