-- ===== src/Protocol/BigEndian.antt =====
-- encoding/binary: the big-endian `PutUint16`, `PutUint32`, `PutUint64` and their readers.
use yyb_go.Prelude.{ℕ, ◌+◌, ◌*◌, ◌/◌, ◌%◌, ◌^◌, ◌<◌, ◌≡◌, [], ◌∷◌, arith, Bytes}

abbrev pub put_uint16 : ℕ → Bytes
put_uint16 x = x / 256 % 256 ∷ x % 256 ∷ []

abbrev pub uint16 : ℕ → ℕ → ℕ
uint16 a b = a * 256 + b

abbrev pub put_uint32 : ℕ → Bytes
put_uint32 x = x / 2 ^ 24 % 256 ∷ x / 2 ^ 16 % 256 ∷ x / 256 % 256 ∷ x % 256 ∷ []

abbrev pub uint32 : ℕ → ℕ → ℕ → ℕ → ℕ
uint32 a b c d = a * 2 ^ 24 + b * 2 ^ 16 + c * 256 + d

pub uint16-put : (x : ℕ) → x < 2 ^ 16 → uint16 (x / 256 % 256) (x % 256) ≡ x
uint16-put x h = omega arith

pub uint32-put :
    (x : ℕ)
    → x < 2 ^ 32
    → uint32 (x / 2 ^ 24 % 256) (x / 2 ^ 16 % 256) (x / 256 % 256) (x % 256) ≡ x
uint32-put x h = omega arith
