-- ===== src/Protocol/Lz4.antt =====
-- internal/protocol/bytes.go: `lz4AllLiteral` and `lz4Decompress`. A position in `data` is the
-- suffix that is still to be read.
pub mod RoundTrip
pub mod Safety
mod Tests
use Prim.Native.Nat.{bit_and}
use yyb_go.Prelude.{
  ℕ, zero, suc, ◌+◌, ◌-◌, ◌*◌, ◌/◌, ◌%◌, [], ◌∷◌, ◌++◌, Option, none, some, Bool, ◌||◌, Bytes, ltb,
  leb, ◌==◌, if◌then◌else◌, length, get_elem?, take, drop,
}
use yyb_go.Prelude.Outcome.{Outcome, ok, err, panic, ◌>>=◌}

pub data Error : Type 0 where
  truncated_literal_length truncated_literals truncated_offset invalid_offset : Error
  truncated_match_length out_of_fuel : Error

-- `for rem >= 255 { out = append(out, 255); rem -= 255 }`, then `byte(rem)`.
length_bytes : ℕ → ℕ → Bytes
length_bytes zero rem = rem % 256 ∷ []
length_bytes (suc fuel) rem =
    let more = length_bytes fuel (rem - 255) in if leb 255 rem then 255 ∷ more else rem % 256 ∷ []

unfoldable pub lz4_all_literal : Bytes → Bytes
unfolding length_bytes
lz4_all_literal content =
    let n = length content in
    if ltb n 15 then n * 16 % 256 ∷ content else 0xf0 ∷ (length_bytes n (n - 15) ++ content)

-- `for i < len(data) && data[i] == 255 { n += 255; i++ }`, and the byte that ends the length.
read_length : Error → Bytes → ℕ → Outcome Error (ℕ × Bytes)
read_length cut [] n = err cut
read_length cut (b ∷ rest) n =
    let more = read_length cut rest (n + 255) in if b == 255 then more else ok (n + b, rest)

-- `for j := 0; j < matchLen; j++ { out = append(out, out[start+j]) }`: `at` is `start + j`.
pub copy_match : ℕ → ℕ → Bytes → Outcome Error Bytes
copy_match zero at out = ok out
copy_match (suc left) at out = elim (get_elem? out at) [
  | some b ↦ copy_match left (at + 1) (out ++ b ∷ [])
  | none ↦ panic
]

abbrev extended_length : Error → ℕ → ℕ → Bytes → Outcome Error (ℕ × Bytes)
extended_length cut nibble base rest =
    if nibble == 15 then read_length cut rest base else ok (base, rest)

copy_literals : ℕ → Bytes → Bytes → Outcome Error (Bytes × Bytes)
copy_literals lit_len rest out =
    if ltb (length rest) lit_len
    then err truncated_literals
    else ok (drop lit_len rest, out ++ take lit_len rest)

-- The offset and the match length behind a sequence's literals.
match_part : ℕ → Bytes → Bytes → Outcome Error (Bytes × Bytes)
unfolding copy_match read_length
match_part tok [] out = err truncated_offset
match_part tok (lo ∷ []) out = err truncated_offset
match_part tok (lo ∷ hi ∷ rest) out =
    let off = lo + 256 * hi in
    if leb off 0 || ltb (length out) off then err invalid_offset else (do
      (match_len, rest') ← extended_length truncated_match_length (tok % 16) (tok % 16 + 4) rest
      out' ← copy_match match_len (length out - off) out
      ok (rest', out'))

-- The loop; the second part of a round is skipped where the literals end the input.
decompress_loop : ℕ → Bytes → Bytes → Outcome Error Bytes
decompress_loop fuel [] out = ok out
decompress_loop zero (tok ∷ rest) out = err out_of_fuel
decompress_loop (suc fuel) (tok ∷ rest) out = do
  (lit_len, rest₁) ← extended_length truncated_literal_length (tok / 16) (tok / 16) rest
  (rest₂, out₁) ← copy_literals lit_len rest₁ out
  elim rest₂ [
    | [] ↦ ok out₁
    | b ∷ bs ↦ match_part tok (b ∷ bs) out₁ >>= λ (rest₃, out₂). decompress_loop fuel rest₃ out₂
  ]

-- Each round takes a byte at least, so `len(data)` rounds are enough.
unfoldable pub lz4_decompress : Bytes → Outcome Error Bytes
unfolding decompress_loop copy_literals match_part
lz4_decompress content = decompress_loop (length content) content []
