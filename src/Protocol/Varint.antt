-- ===== src/Protocol/Varint.antt =====
-- internal/protocol/bytes.go: `varint` and `readVarint`. A position `i` in `data` is the suffix
-- `data[i:]`, so `readVarint` returns the number and the suffix behind it.
pub mod Encode
pub mod Decode
pub mod Bounds
mod Tests
use Prim.Native.Nat.{bit_and, bit_or}
use mathlib.Core.Logic.{dite}
use mathlib.Core.WellFounded.{Acc}
use native.Mathlib.Decide.{dec_lt}
use yyb_go.Prelude.{
  ℕ, zero, suc, ◌+◌, ◌*◌, ◌/◌, ◌%◌, ◌^◌, ◌<◌, [], ◌∷◌, ◌++◌, arith, Bytes, ltb, ◌==◌, if◌then◌else◌,
}
use yyb_go.Prelude.Order.{lt_wf}
use yyb_go.Prelude.Outcome.{Outcome, ok, err}

pub data Error : Type 0 where
  varint_overflow truncated_varint : Error

abbrev pub IsU64 : ℕ → Type 0
IsU64 n = n < 2 ^ 64

abbrev pub IsByte : ℕ → Type 0
IsByte b = b < 256

pub shift_shrinks : (n : ℕ) → 0 < n / 128 → n / 128 < n
shift_shrinks n h = omega arith

-- `byte(n & 0x7f)`, then `n >>= 7`; the loop goes on while that is not 0.
varint_loop : Bytes → (n : ℕ) → Acc ◌<◌ n → Bytes
varint_loop out n (Acc.intro _ smaller) =
    let b = bit_and (n % 256) 0x7f in
    dite (dec_lt 0 (n / 128))
      (λ more. varint_loop (out ++ bit_or b 0x80 ∷ []) (n / 128) (smaller _ (shift_shrinks n more)))
      (λ _. out ++ b ∷ [])

unfoldable pub varint : ℕ → Bytes
unfolding varint_loop lt_wf dec_lt
varint n = varint_loop [] n (lt_wf.apply n)

-- `n |= uint64(b&0x7f) << shift`, a 64-bit shift.
abbrev pub or_group : ℕ → ℕ → ℕ → ℕ
or_group n b shift = bit_or n (bit_and b 0x7f * 2 ^ shift % 2 ^ 64)

read_varint_loop : Bytes → ℕ → ℕ → Outcome Error (ℕ × Bytes)
read_varint_loop [] n shift = err truncated_varint
read_varint_loop (b ∷ rest) n shift =
    let n' = or_group n b shift in
    let more = read_varint_loop rest n' (shift + 7) in
    if bit_and b 0x80 == 0
    then ok (n', rest)
    else if ltb 63 (shift + 7)
    then err varint_overflow
    else more

unfoldable pub read_varint : Bytes → Outcome Error (ℕ × Bytes)
unfolding read_varint_loop
read_varint bytes = read_varint_loop bytes 0 0
