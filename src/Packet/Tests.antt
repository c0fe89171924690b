-- ===== src/Packet/Tests.antt =====
-- Packets at small texts.
use game_lift.Prelude.{ℕ, ◌^◌, ◌-◌, ◌≡◌, refl, none, List, [], ◌∷◌, length}
use game_lift.Packet.{decode_header, c_string, login_request, encode_client, size_of_short}

-- "ab"
abbrev text : List ℕ
text = 97 ∷ 98 ∷ []

login_header : decode_header (encode_client (login_request text)) ≡ record { size = 132; type = 1 }
unfolding decode_header encode_client
login_header = refl

length-login : length (encode_client (login_request text)) ≡ 132
unfolding encode_client
length-login = refl

no_zero : c_string text ≡ none
unfolding c_string
no_zero = refl

negative_size : size_of_short 0xfffc ≡ 2 ^ 64 - 4
unfolding size_of_short
negative_size = refl
