-- ===== src/Packet.antt =====
-- PacketShare/PacketType.h: the packets as the bytes that `#pragma pack(1)` lays out, on a machine
-- that stores the low byte first. A `short` is its 16-bit pattern, a `float` its four bytes.
pub mod Codec
pub mod Client
pub mod Reply
mod Tests
use game_lift.Prelude.{
  ℕ, ◌+◌, ◌-◌, ◌*◌, ◌/◌, ◌%◌, ◌^◌, Bool, true, false, ◌||◌, Option, none, some, List, [], ◌∷◌, ◌++◌,
  ltb, leb, ◌==◌, if◌then◌else◌, length, replicate, slice, take,
}
use mathlib.Core.Option

abbrev pub max_chat_len : ℕ
max_chat_len = 128

abbrev pub max_session_len : ℕ
max_session_len = 128

abbrev pub max_player_per_game : ℕ
max_player_per_game = 8

-- `enum PacketTypes`
abbrev pub pkt_cs_login : ℕ
pkt_cs_login = 1

abbrev pub pkt_sc_login : ℕ
pkt_sc_login = 2

abbrev pub pkt_cs_chat : ℕ
pkt_cs_chat = 11

abbrev pub pkt_sc_chat : ℕ
pkt_sc_chat = 12

abbrev pub pkt_cs_move : ℕ
pkt_cs_move = 21

abbrev pub pkt_sc_move : ℕ
pkt_sc_move = 22

abbrev pub pkt_cs_exit : ℕ
pkt_cs_exit = 31

abbrev pub pkt_max : ℕ
pkt_max = 1024

-- `sizeof` of the packed structures.
abbrev pub header_size : ℕ
header_size = 4

abbrev pub login_size : ℕ
login_size = 132

abbrev pub chat_size : ℕ
chat_size = 260

abbrev pub move_size : ℕ
move_size = 16

abbrev pub exit_size : ℕ
exit_size = 132

-- `struct PacketHeader`
pub record PacketHeader : Type 0 where
  pub size : ℕ
  pub type : ℕ

-- `(size_t)header.mSize`: a negative size becomes a huge one.
unfoldable pub size_of_short : ℕ → ℕ
size_of_short v = if ltb v (2 ^ 15) then v else 2 ^ 64 - 2 ^ 16 + v

abbrev pub is_negative : ℕ → Bool
is_negative v = leb (2 ^ 15) v

-- `header.mType >= PKT_MAX || header.mType <= PKT_NONE`
unfoldable pub invalid_type : ℕ → Bool
invalid_type v = if is_negative v then true else leb pkt_max v || v == 0

-- The first byte at or after an offset; there are always enough where this is called.
abbrev pub byte_at : List ℕ → ℕ → ℕ
byte_at xs p = elim (slice xs p 1) [ [] ↦ 0 | b ∷ rest ↦ b ]

unfoldable pub decode_short : List ℕ → ℕ → ℕ
decode_short xs p = byte_at xs p + 256 * byte_at xs (p + 1)

unfoldable pub decode_header : List ℕ → PacketHeader
unfolding decode_short
decode_header xs = record { size = decode_short xs 0; type = decode_short xs 2 }

unfoldable pub encode_short : ℕ → List ℕ
encode_short v = (v % 256) ∷ (v / 256 % 256) ∷ []

unfoldable pub encode_header : ℕ → ℕ → List ℕ
unfolding encode_short
encode_header size type = encode_short size ++ encode_short type

-- The text of a `char` array: up to the first zero byte, and `none` where there is no such byte.
unfoldable pub c_string : List ℕ → Option (List ℕ)
c_string [] = none
c_string (b ∷ bs) =
    let rest = Option.map (λ xs. b ∷ xs) (c_string bs) in if b == 0 then some [] else rest

-- The bytes of an `int`, from its 32-bit pattern.
abbrev pub encode_int : ℕ → List ℕ
encode_int v = (v % 256) ∷ (v / 256 % 256) ∷ (v / 65536 % 256) ∷ (v / 16777216 % 256) ∷ []

-- A `char` array of `n` bytes, cleared by `memset` and then filled by `strcpy`. Of a text that is too
-- long the array has the first `n` bytes; what `strcpy` overwrites behind it is left out, and that
-- `strcpy_s` ends the program. A text out of a packet's array with its zero byte is never too long.
unfoldable pub char_array : ℕ → List ℕ → List ℕ
char_array n text = take n (text ++ replicate (n - length text) 0)

-- The packets that a client sends.
pub data ClientPacket : Type 0 where
  login_request : List ℕ → ClientPacket
  chat_request : List ℕ → List ℕ → ClientPacket
  move_request : List ℕ → ClientPacket
  exit_request : List ℕ → ClientPacket

unfoldable pub encode_client : ClientPacket → List ℕ
unfolding encode_header char_array
encode_client (login_request id) =
    encode_header login_size pkt_cs_login ++ char_array max_session_len id
encode_client (chat_request id chat) =
    encode_header chat_size pkt_cs_chat
    ++ (char_array max_session_len id ++ char_array max_chat_len chat)
encode_client (move_request body) = encode_header move_size pkt_cs_move ++ body
encode_client (exit_request id) =
    encode_header exit_size pkt_cs_exit ++ char_array max_session_len id

-- The packets that a server sends.
unfoldable pub login_result : List ℕ → List ℕ
unfolding encode_header char_array
login_result id = encode_header login_size pkt_sc_login ++ char_array max_session_len id

unfoldable pub chat_result : List ℕ → List ℕ → List ℕ
unfolding encode_header char_array
chat_result id chat =
    encode_header chat_size pkt_sc_chat
    ++ (char_array max_session_len id ++ char_array max_chat_len chat)

-- `body` is the index and the two coordinates, twelve bytes that are copied as they are.
unfoldable pub move_result : List ℕ → List ℕ
unfolding encode_header
move_result body = encode_header move_size pkt_sc_move ++ body

pub data ServerPacket : Type 0 where
  login_reply : List ℕ → ServerPacket
  chat_reply : List ℕ → List ℕ → ServerPacket
  move_reply : List ℕ → ServerPacket

unfoldable pub encode_server : ServerPacket → List ℕ
unfolding login_result chat_result move_result
encode_server (login_reply id) = login_result id
encode_server (chat_reply id chat) = chat_result id chat
encode_server (move_reply body) = move_result body
