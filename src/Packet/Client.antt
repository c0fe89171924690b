-- ===== src/Packet/Client.antt =====
-- The packets that a client sends: which fit their structures, their sizes and their headers.
use game_lift.Prelude.{
  ℕ, ◌≤◌, ◌<◌, ◌≡◌, refl, false, List, ◌++◌, arith, length, length-append, take,
}
use game_lift.Packet.{
  decode_header, size_of_short, invalid_type, header_size, login_size, chat_size, move_size,
  exit_size, pkt_cs_login, pkt_cs_chat, pkt_cs_move, pkt_cs_exit, ClientPacket, login_request,
  chat_request, move_request, exit_request, encode_client, encode_header, char_array,
}
use game_lift.Packet.Codec.{IsText, length-char_array}

-- What a client may put into a packet: texts that leave room for their zero byte.
abbrev pub IsSendable : ClientPacket → Type 0
IsSendable (login_request id) = IsText id × (length id < 128)
IsSendable (chat_request id chat) =
    IsText id × (length id < 128) × IsText chat × (length chat < 128)
IsSendable (move_request body) = length body ≡ 12
IsSendable (exit_request id) = IsText id × (length id < 128)

abbrev pub client_size : ClientPacket → ℕ
client_size (login_request id) = login_size
client_size (chat_request id chat) = chat_size
client_size (move_request body) = move_size
client_size (exit_request id) = exit_size

abbrev pub client_type : ClientPacket → ℕ
client_type (login_request id) = pkt_cs_login
client_type (chat_request id chat) = pkt_cs_chat
client_type (move_request body) = pkt_cs_move
client_type (exit_request id) = pkt_cs_exit

pub header_size-le : (p : ClientPacket) → header_size ≤ client_size p
header_size-le (login_request id) = omega arith
header_size-le (chat_request id chat) = omega arith
header_size-le (move_request body) = omega arith
header_size-le (exit_request id) = omega arith

pub length-encode_client :
    (p : ClientPacket) → IsSendable p → length (encode_client p) ≡ client_size p
unfolding encode_client
length-encode_client (login_request id) h = omega (arith, length-char_array 128 id (omega arith))
length-encode_client (chat_request id chat) h = omega (
  arith,
  length-append (char_array 128 id) (char_array 128 chat),
  length-char_array 128 id (omega arith),
  length-char_array 128 chat (omega arith),
)
length-encode_client (move_request body) h = omega arith
length-encode_client (exit_request id) h = omega (arith, length-char_array 128 id (omega arith))

pub header_of : (p : ClientPacket) → List ℕ
header_of p = encode_header (client_size p) (client_type p)

pub take-encode_client :
    (p : ClientPacket) (rest : List ℕ) → take header_size (encode_client p ++ rest) ≡ header_of p
unfolding encode_client header_of
take-encode_client (login_request id) rest = refl
take-encode_client (chat_request id chat) rest = refl
take-encode_client (move_request body) rest = refl
take-encode_client (exit_request id) rest = refl

pub decode-header_of :
    (p : ClientPacket)
    → (size_of_short (decode_header (header_of p)).size ≡ client_size p)
      × ((decode_header (header_of p)).type ≡ client_type p)
      × (invalid_type (decode_header (header_of p)).type ≡ false)
unfolding header_of encode_header decode_header size_of_short invalid_type
decode-header_of (login_request id) = (refl, refl, refl)
decode-header_of (chat_request id chat) = (refl, refl, refl)
decode-header_of (move_request body) = (refl, refl, refl)
decode-header_of (exit_request id) = (refl, refl, refl)
