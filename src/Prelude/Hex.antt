-- ===== src/Prelude/Hex.antt =====
-- encoding/hex: bytes as pairs of hexadecimal digits.
use yyb_go.Prelude.{
  ℕ, ◌+◌, ◌-◌, ◌*◌, ◌/◌, ◌%◌, ◌<◌, ◌≡◌, refl, ap, ◌&&◌, [], ◌∷◌, Option, none, some, arith, Bytes,
  ltb, leb, if◌then◌else◌, All,
}
use yyb_go.Prelude.Text.{Text}

unfoldable pub hex_digit : ℕ → ℕ
hex_digit n = if ltb n 10 then b'0' + n else b'a' + (n - 10)

-- hex.EncodeToString
unfoldable pub encode_to_string : Bytes → Text
encode_to_string [] = []
encode_to_string (b ∷ bs) = hex_digit (b / 16) ∷ hex_digit (b % 16) ∷ encode_to_string bs

unfoldable pub hex_value : ℕ → Option ℕ
hex_value c =
    if leb b'0' c && leb c b'9'
    then some (c - b'0')
    else if leb b'a' c && leb c b'f'
    then some (c - b'a' + 10)
    else if leb b'A' c && leb c b'F'
    then some (c - b'A' + 10)
    else none

abbrev pub joined : Option ℕ → Option ℕ → Bytes → Bytes
joined none low rest = []
joined (some h) none rest = []
joined (some h) (some l) rest = (h * 16 + l) ∷ rest

-- hex.DecodeString without its error: the bytes before the first pair that is not one.
unfoldable pub decode_string : Text → Bytes
decode_string [] = []
decode_string (c ∷ []) = []
decode_string (c ∷ d ∷ s) = joined (hex_value c) (hex_value d) (decode_string s)

hex_value-hex_digit : (n : ℕ) → n < 16 → hex_value (hex_digit n) ≡ some n
unfolding hex_value hex_digit
hex_value-hex_digit n h = ground arith

-- Bytes are decoded to themselves.
pub decode_string-encode_to_string :
    (bs : Bytes) → All (λ (b : ℕ). b < 256) bs → decode_string (encode_to_string bs) ≡ bs
unfolding decode_string encode_to_string
decode_string-encode_to_string [] _ = refl
decode_string-encode_to_string (b ∷ bs) (h, hs) =
    let same : b / 16 * 16 + b % 16 ≡ b = omega arith in
    rw
      (
        hex_value-hex_digit (b / 16) (omega arith),
        hex_value-hex_digit (b % 16) (omega arith),
        decode_string-encode_to_string bs hs,
      )
      (ap (λ (x : ℕ). x ∷ bs) same)
