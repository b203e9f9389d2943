-- ===== src/Protocol/Varint/Tests.antt =====
-- Runs of `varint` and `readVarint`, and the theorems at concrete inputs.
use yyb_go.Prelude.{ℕ, ◌+◌, ◌≤◌, ◌<◌, ◌≡◌, refl, [], ◌∷◌, ◌++◌, All, length, arith}
use yyb_go.Prelude.Outcome.{ok, err}
use yyb_go.Protocol.Varint.{varint, read_varint, varint_overflow, truncated_varint, IsU64, IsByte}
use yyb_go.Protocol.Varint.Encode.{varint_shape}
use yyb_go.Protocol.Varint.Decode.{read_varint-varint}
use yyb_go.Protocol.Varint.Bounds.{read_varint_takes, read_varint_errors}

varint_300 : varint 300 ≡ 0xac ∷ 0x02 ∷ []
unfolding varint
varint_300 = refl

read_300 : read_varint (0xac ∷ 0x02 ∷ 7 ∷ []) ≡ ok (300, 7 ∷ [])
unfolding read_varint
read_300 = refl

varint_shape_example :
    All IsByte (varint 300) × (1 ≤ length (varint 300)) × (length (varint 300) ≤ 10)
varint_shape_example = varint_shape 300 (omega arith)

read_varint-varint_example : read_varint (varint 300 ++ 9 ∷ []) ≡ ok (300, 9 ∷ [])
read_varint-varint_example = read_varint-varint 300 (9 ∷ []) (omega arith)

read_varint_takes_example : IsU64 300 × (1 < 3) × (3 ≤ 1 + 10)
read_varint_takes_example = read_varint_takes (0xac ∷ 0x02 ∷ 7 ∷ []) 300 (7 ∷ []) read_300

read_varint_errors_example :
    (◌≡◌ {A = ℕ} 2 10 → read_varint (0x80 ∷ 0xff ∷ 1 ∷ []) ≡ err varint_overflow)
    × (2 < 10 → read_varint (0x80 ∷ 0xff ∷ []) ≡ err truncated_varint)
read_varint_errors_example = read_varint_errors (0x80 ∷ 0xff ∷ []) (1 ∷ []) (omega arith)
