-- ===== src/TcpClient.antt =====
-- Cocos2dxGameClient/Classes/TcpClient.cpp: the game client's connection. The network thread puts
-- what it receives into a circular buffer and takes the packets out; what it draws it hands to the
-- thread of the screen. An `int` is its 32-bit pattern, and assertions are on.
pub mod Sending
pub mod Rounds
pub mod Cut
pub mod Turns
pub mod Stream
mod Tests
use game_lift.Prelude.{
  ℕ, zero, suc, ◌+◌, ◌-◌, ◌*◌, ◌/◌, ◌%◌, ◌^◌, min, Bool, true, false, ◌&&◌, not, Option, none, some,
  List, [], ◌∷◌, ◌++◌, ltb, leb, ◌==◌, if◌then◌else◌, length, slice,
}
use game_lift.Buffer.{
  CircularBuffer, Outcome, refused, taken, aborted, init, peek, read, write, get_stored_size,
}
use game_lift.Packet.{
  header_size, login_size, chat_size, move_size, pkt_sc_login, pkt_sc_chat, pkt_sc_move,
  max_session_len, max_chat_len, size_of_short, decode_header, decode_short, byte_at, c_string,
  encode_int, char_array, ClientPacket, login_request, chat_request, move_request, encode_client,
}
use game_lift.Server.State.{
  Result, ok, fault, assertion, unterminated, still_running, ◌>>=◌, or_fault,
}

-- The calls that `performFunctionInCocosThread` is given: `HelloWorld::chatDraw`, `updateMe` and
-- `updatePeer`. A coordinate is its four bytes.
pub data Drawing : Type 0 where
  chat_draw : List ℕ → List ℕ → Drawing
  update_me : List ℕ → List ℕ → Drawing
  update_peer : ℕ → List ℕ → List ℕ → Drawing

-- `class TcpClient`; the last field is what the screen was asked to draw, in order.
pub record TcpClient : Type 0 where
  pub recv_buffer : CircularBuffer
  pub login_id : ℕ
  pub drawings : List Drawing

-- `BUF_SIZE`, and -1.
abbrev pub buf_size : ℕ
buf_size = 32768

abbrev pub minus_one : ℕ
minus_one = 2 ^ 32 - 1

abbrev pub is_negative_int : ℕ → Bool
is_negative_int v = leb (2 ^ 31) v

-- The constructor, on what `new char[BUF_SIZE]` returns.
unfoldable pub new_client : List ℕ → TcpClient
new_client storage = record {
  recv_buffer = init storage buf_size;
  login_id = minus_one;
  drawings = [];
}

-- What a call of `::send` answers, which takes up to so many of the bytes it is given; and what `send` answers, with the bytes that the system took. It
-- may not answer while it is given answers of the system.
pub data Answer : Type 0 where
  sent : ℕ → Answer
  socket_error : Answer

pub record Sent : Type 0 where
  pub answer : Option Bool
  pub wire : List ℕ

-- `send` from `count` on, with `length` as the loop has changed it.
unfoldable pub send_loop : List Answer → List ℕ → ℕ → ℕ → Sent
send_loop [] data_ count len =
    if ltb count len
    then record { answer = none; wire = [] }
    else record { answer = some true; wire = [] }
send_loop (socket_error ∷ more) data_ count len =
    if ltb count len
    then record { answer = some false; wire = [] }
    else record { answer = some true; wire = [] }
send_loop (sent n ∷ more) data_ count len =
    let k = min n len in
    let rest = send_loop more data_ (count + k) (len - k) in
    if ltb count len
    then record { answer = rest.answer; wire = slice data_ count k ++ rest.wire }
    else record { answer = some true; wire = [] }

unfoldable pub send : List Answer → List ℕ → Sent
unfolding send_loop
send answers data_ = send_loop answers data_ 0 (length data_)

-- What a request does: nothing, or a call of `send`; or a text is longer than its array, where
-- `sprintf_s` ends the program and `memcpy` writes past the end.
pub data Request : Type 0 where
  silent overruns : Request
  sends : List ℕ → Request

unfoldable pub login_request_of : TcpClient → List ℕ → Request
login_request_of c player_session_id =
    if ltb 0 c.login_id && not (is_negative_int c.login_id)
    then silent
    else if ltb (length player_session_id) max_session_len
    then sends (encode_client (login_request player_session_id))
    else overruns

-- "Player", and what `sprintf_s` prints for the number, which is a parameter.
abbrev pub player_text : (ℕ → List ℕ) → ℕ → List ℕ
player_text decimal login_id = 80 ∷ 108 ∷ 97 ∷ 121 ∷ 101 ∷ 114 ∷ decimal login_id

unfoldable pub chat_request_of : (ℕ → List ℕ) → TcpClient → List ℕ → Request
chat_request_of decimal c chat =
    if is_negative_int c.login_id
    then silent
    else if ltb max_chat_len (length chat)
    then overruns
    else sends (encode_client (chat_request (player_text decimal c.login_id) chat))

unfoldable pub move_request_of : TcpClient → List ℕ → List ℕ → Request
move_request_of c x y =
    if is_negative_int c.login_id
    then silent
    else sends (encode_client (move_request (encode_int c.login_id ++ (x ++ y))))

unfoldable pub decode_int : List ℕ → ℕ
unfolding decode_short
decode_int bytes = decode_short bytes 0 + 65536 * decode_short bytes 2

-- What the cases of `processPacket` do with a structure that `Read` has filled.
unfoldable pub login_case : TcpClient → List ℕ → Result TcpClient
login_case c bytes = ok (record c { login_id = 416 })

unfoldable pub chat_case : TcpClient → List ℕ → Result TcpClient
chat_case c bytes =
    or_fault (c_string (slice bytes header_size max_session_len)) unterminated >>= λ id.
    or_fault (c_string (slice bytes (header_size + max_session_len) max_chat_len)) unterminated
    >>= λ chat. ok (record c { drawings = c.drawings ++ (chat_draw id chat ∷ []) })

-- What a move draws.
unfoldable pub drawing_of_move : ℕ → ℕ → List ℕ → List ℕ → Drawing
drawing_of_move login_id player_idx x y =
    if player_idx == login_id then update_me x y else update_peer player_idx x y

unfoldable pub move_case : TcpClient → List ℕ → Result TcpClient
unfolding decode_int drawing_of_move
move_case c bytes =
    let shown =
      drawing_of_move c.login_id (decode_int (slice bytes 4 4)) (slice bytes 8 4)
        (slice bytes 12 4) in
    ok (record c { drawings = c.drawings ++ (shown ∷ []) })

-- `Read` into a structure, `assert(ret)`, and the rest of a case.
unfoldable pub filled : Outcome → (List ℕ → Result TcpClient) → Result TcpClient
filled refused body = fault assertion
filled (taken bytes) body = body bytes
filled aborted body = fault assertion

unfoldable pub with_read :
    TcpClient → ℕ → (TcpClient → List ℕ → Result TcpClient) → Result TcpClient
unfolding filled
with_read c n body =
    let (out, b) = read c.recv_buffer n in filled out (body (record c { recv_buffer = b }))

-- The `switch` on the type.
unfoldable pub packet_case : ℕ → TcpClient → Result TcpClient
unfolding with_read login_case chat_case move_case
packet_case type c =
    if type == pkt_sc_login
    then with_read c login_size login_case
    else if type == pkt_sc_chat
    then with_read c chat_size chat_case
    else if type == pkt_sc_move
    then with_read c move_size move_case
    else fault assertion

-- One round of the loop: it breaks, or goes on with what a case leaves.
pub data Round : Type 0 where
  break : Result TcpClient → Round
  again : Result TcpClient → Round

unfoldable pub peeked : Outcome → TcpClient → Round
unfolding packet_case
peeked refused c = break (ok c)
peeked aborted c = break (fault assertion)
peeked (taken bytes) c =
    let h = decode_header bytes in
    if ltb (get_stored_size c.recv_buffer) (size_of_short h.size)
    then break (ok c)
    else again (packet_case h.type c)

unfoldable pub packet_round : TcpClient → Round
unfolding peeked
packet_round c = peeked (peek c.recv_buffer header_size) c

-- `processPacket`, for at most so many rounds.
unfoldable pub process_packet : ℕ → TcpClient → Result TcpClient
unfolding packet_round
process_packet zero c = fault still_running
process_packet (suc fuel) c = elim (packet_round c) [
  | break r ↦ r
  | again r ↦ r >>= λ c'. process_packet fuel c'
]

-- One turn of `networkThread`, for what `recv` gives: nothing where it fails or the connection is
-- closed. Each round takes a packet of four bytes or more out of the buffer, or is the last.
unfoldable pub rounds_for : TcpClient → ℕ
rounds_for c = get_stored_size c.recv_buffer + 1

unfoldable pub written : Bool → TcpClient → Result TcpClient
unfolding process_packet rounds_for
written true c = process_packet (rounds_for c) c
written false c = fault assertion

unfoldable pub network_turn : List ℕ → TcpClient → Result TcpClient
unfolding written
network_turn bytes c =
    if ltb (length bytes) 1
    then ok c
    else (let (done, b) = write c.recv_buffer bytes in written done (record c { recv_buffer = b }))

-- The thread, over what `recv` gives in its turns.
unfoldable pub network_thread : List (List ℕ) → TcpClient → Result TcpClient
unfolding network_turn
network_thread [] c = ok c
network_thread (bytes ∷ more) c = network_turn bytes c >>= λ c'. network_thread more c'
