-- ===== src/Packet/Reply.antt =====
-- The packets that a server sends: which fit their structures, their sizes and their headers.
use game_lift.Prelude.{
  ℕ, ◌≤◌, ◌<◌, ◌≡◌, refl, ap, ◌∙◌, some, List, ◌++◌, arith, length, length-append, take, drop,
  take_of_length_le, take_whole, drop_whole,
}
use game_lift.Packet.{
  decode_header, size_of_short, header_size, login_size, chat_size, move_size, pkt_sc_login,
  pkt_sc_chat, pkt_sc_move, ServerPacket, login_reply, chat_reply, move_reply, encode_server,
  encode_header, login_result, chat_result, move_result, char_array, c_string,
}
use game_lift.Packet.Codec.{IsText, length-char_array, c_string-char_array}

-- What a server may put into a packet: texts that leave room for their zero byte.
abbrev pub IsReply : ServerPacket → Type 0
IsReply (login_reply id) = IsText id × (length id < 128)
IsReply (chat_reply id chat) = IsText id × (length id < 128) × IsText chat × (length chat < 128)
IsReply (move_reply body) = length body ≡ 12

abbrev pub server_size : ServerPacket → ℕ
server_size (login_reply id) = login_size
server_size (chat_reply id chat) = chat_size
server_size (move_reply body) = move_size

abbrev pub server_type : ServerPacket → ℕ
server_type (login_reply id) = pkt_sc_login
server_type (chat_reply id chat) = pkt_sc_chat
server_type (move_reply body) = pkt_sc_move

pub header_size-le_server : (p : ServerPacket) → header_size ≤ server_size p
header_size-le_server (login_reply id) = omega arith
header_size-le_server (chat_reply id chat) = omega arith
header_size-le_server (move_reply body) = omega arith

pub server_size-le : (p : ServerPacket) → server_size p ≤ chat_size
server_size-le (login_reply id) = omega arith
server_size-le (chat_reply id chat) = omega arith
server_size-le (move_reply body) = omega arith

pub length-encode_server : (p : ServerPacket) → IsReply p → length (encode_server p) ≡ server_size p
unfolding encode_server login_result chat_result move_result
length-encode_server (login_reply id) h = omega (arith, length-char_array 128 id (omega arith))
length-encode_server (chat_reply id chat) h = omega (
  arith,
  length-append (char_array 128 id) (char_array 128 chat),
  length-char_array 128 id (omega arith),
  length-char_array 128 chat (omega arith),
)
length-encode_server (move_reply body) h = omega arith

pub server_header : (p : ServerPacket) → List ℕ
server_header p = encode_header (server_size p) (server_type p)

pub take-encode_server :
    (p : ServerPacket) (rest : List ℕ)
    → take header_size (encode_server p ++ rest) ≡ server_header p
unfolding encode_server login_result chat_result move_result server_header
take-encode_server (login_reply id) rest = refl
take-encode_server (chat_reply id chat) rest = refl
take-encode_server (move_reply body) rest = refl

pub decode-server_header :
    (p : ServerPacket)
    → (size_of_short (decode_header (server_header p)).size ≡ server_size p)
      × ((decode_header (server_header p)).type ≡ server_type p)
unfolding server_header encode_header decode_header size_of_short
decode-server_header (login_reply id) = (refl, refl)
decode-server_header (chat_reply id chat) = (refl, refl)
decode-server_header (move_reply body) = (refl, refl)

-- The two texts of a chat, out of the structure.
pub chat_texts :
    (id chat : List ℕ)
    → IsReply (chat_reply id chat)
    → let body = drop header_size (chat_result id chat) in
      (c_string (take 128 body) ≡ some id) × (c_string (take 128 (drop 128 body)) ≡ some chat)
unfolding chat_result
chat_texts id chat h =
    let n : length (char_array 128 id) ≡ 128 = length-char_array 128 id (omega arith) in
    let m : length (char_array 128 chat) ≡ 128 = length-char_array 128 chat (omega arith) in
    (
      ap c_string (take_whole 128 (char_array 128 id) (char_array 128 chat) n)
          ∙ c_string-char_array 128 id h.0 h.1,
      ap (λ xs. c_string (take 128 xs)) (drop_whole 128 (char_array 128 id) (char_array 128 chat) n)
          ∙ ap c_string (take_of_length_le 128 (char_array 128 chat) (omega (arith, m)))
          ∙ c_string-char_array 128 chat h.2 h.3,
    )
