-- ===== src/Packet/Codec.antt =====
-- What is encoded is decoded: numbers, headers and texts.
use game_lift.Prelude.{
  ℕ, suc, ◌-◌, ◌^◌, ◌≤◌, ◌<◌, ◌≡◌, refl, ap, ◌∙◌, some, List, [], ◌∷◌, ◌++◌, arith, length,
  length-append, length-replicate, replicate, take_of_length_le,
}
use game_lift.Packet.{decode_header, encode_header, c_string, char_array, header_size}

-- A text with no zero byte in it.
abbrev pub IsText : List ℕ → Type 0
IsText [] = Unit {0}
IsText (b ∷ bs) = (0 < b) × IsText bs

-- A text in a larger array reads back, whatever stands behind its zero byte.
pub c_string-append : (xs ys : List ℕ) → IsText xs → c_string (xs ++ (0 ∷ ys)) ≡ some xs
unfolding c_string
c_string-append [] ys h = refl
c_string-append (b ∷ bs) ys h = ground (arith, c_string-append bs ys h.1)

char_array_fits :
    (n : ℕ) (xs : List ℕ) → length xs ≤ n → char_array n xs ≡ xs ++ replicate (n - length xs) 0
unfolding char_array
char_array_fits n xs h = take_of_length_le n (xs ++ replicate (n - length xs) 0) (
    omega (
      arith,
      length-append xs (replicate (n - length xs) 0),
      length-replicate (n - length xs) (let z : ℕ = 0 in z),
    ))

-- A text without a zero byte, copied by `strcpy` into a cleared array, reads back, if the array has
-- room for a zero byte behind it.
pub c_string-char_array :
    (n : ℕ) (xs : List ℕ) → IsText xs → length xs < n → c_string (char_array n xs) ≡ some xs
c_string-char_array n xs h k =
    let more : n - length xs ≡ suc (n - length xs - 1) = omega arith in
    ap c_string (char_array_fits n xs (omega arith))
    ∙ rw more (c_string-append xs (replicate (n - length xs - 1) 0) h)

pub length-char_array : (n : ℕ) (xs : List ℕ) → length xs ≤ n → length (char_array n xs) ≡ n
length-char_array n xs h = omega (
  arith,
  ap length (char_array_fits n xs h),
  length-append xs (replicate (n - length xs) 0),
  length-replicate (n - length xs) (let z : ℕ = 0 in z),
)

-- A header whose size and type are 16-bit patterns reads back from the first four bytes, whatever
-- follows them.
pub decode-encode_header :
    (size type : ℕ) (rest : List ℕ)
    → size < 2 ^ 16
    → type < 2 ^ 16
    → decode_header (encode_header size type ++ rest) ≡ record { size = size; type = type }
unfolding decode_header encode_header
decode-encode_header size type rest h k = ground arith

pub length-encode_header : (size type : ℕ) → length (encode_header size type) ≡ header_size
unfolding encode_header
length-encode_header size type = refl
