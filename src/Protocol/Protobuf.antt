-- ===== src/Protocol/Protobuf.antt =====
-- internal/protocol/bytes.go: `pbLen`, `pbVar` and `pbParse`. The position in `data` is the suffix
-- that is still to be read, as in `Varint`; `size` is `len(data)`. An `int` has 64 bits.
pub mod RoundTrip
pub mod Safety
mod Tests
use Prim.Native.Nat.{bit_or}
use yyb_go.Prelude.{
  ℕ, zero, suc, ◌+◌, ◌-◌, ◌*◌, ◌/◌, ◌%◌, ◌^◌, List, [], ◌∷◌, ◌++◌, Bytes, ltb, ◌==◌, if◌then◌else◌,
  length, take, drop,
}
use yyb_go.Prelude.Outcome.{Outcome, ok, err, panic}
use yyb_go.Prelude.Map.{insert, nat_eq}
use yyb_go.Protocol.Varint.{varint, read_varint}

-- `byte((field << 3) | wire)`
abbrev pub tag_byte : ℕ → ℕ → ℕ
tag_byte field wire = bit_or (field * 8) wire % 256

unfoldable pub pb_len : ℕ → Bytes → Bytes
pb_len field content = tag_byte field 2 ∷ (varint (length content % 2 ^ 64) ++ content)

unfoldable pub pb_var : ℕ → ℕ → Bytes
pb_var field n = tag_byte field 0 ∷ varint n

-- The dynamic type of a parsed field: an int64, kept as its 64-bit pattern, or a byte slice.
pub data Value : Type 0 where
  int64 : ℕ → Value
  bytes : Bytes → Value

abbrev pub Fields : Type 0
Fields = List (ℕ × Value)

-- `if i+int(ln) > len(data) { … }`, and then the slice `data[i : i+int(ln)]` and what follows it.
-- The sum wraps around as an int; slicing to a point before `i`, or below 0, is a run-time panic.
pub data Slice : Type 0 where
  beyond : Slice
  invalid : Slice
  part : Bytes → Bytes → Slice

unfoldable pub slice_of : ℕ → Bytes → ℕ → Slice
slice_of size rest ln =
    let i = size - length rest in
    let end = (i + ln) % 2 ^ 64 in
    if ltb end (2 ^ 63)
    then (if ltb size end
        then beyond
        else if ltb end i
        then invalid
        else part (take (end - i) rest) (drop (end - i) rest))
    else invalid

-- One round of the loop behind its tag: `return out`, the next round, or a panic.
pub data Round : Type 0 where
  return : Fields → Round
  continue : Bytes → Fields → Round
  panics : Round

var_round : ℕ → Bytes → Fields → Round
var_round fn rest out = elim (read_varint rest) [
  | ok (v, rest') ↦ continue rest' (insert fn (int64 v) out)
  | err _ ↦ return out
  | panic ↦ panics
]

len_round : ℕ → ℕ → Bytes → Fields → Round
len_round size fn rest out = elim (read_varint rest) [
  | ok (ln, rest') ↦ elim (slice_of size rest' ln) [
    | beyond ↦ return out
    | invalid ↦ panics
    | part raw rest'' ↦ continue rest'' (insert fn (bytes raw) out)
  ]
  | err _ ↦ return out
  | panic ↦ panics
]

pb_round : ℕ → ℕ → Bytes → Fields → Round
unfolding var_round len_round
pb_round size tag rest out =
    if tag % 8 == 0
    then var_round (tag / 8) rest out
    else if tag % 8 == 2
    then len_round size (tag / 8) rest out
    else return out

-- `out_of_fuel` is no Go value; `pb_parse` never returns it.
pub data Stuck : Type 0 where
  out_of_fuel : Stuck

pb_loop : ℕ → ℕ → Bytes → Fields → Outcome Stuck Fields
pb_loop fuel size [] out = ok out
pb_loop zero size (b ∷ rest) out = err out_of_fuel
pb_loop (suc fuel) size (b ∷ rest) out = elim (read_varint (b ∷ rest)) [
  | ok (tag, rest') ↦ elim (pb_round size tag rest' out) [
    | return out' ↦ ok out'
    | continue rest'' out' ↦ pb_loop fuel size rest'' out'
    | panics ↦ panic
  ]
  | err _ ↦ ok out
  | panic ↦ panic
]

-- Each round takes a byte at least, so `len(data)` rounds are enough.
unfoldable pub pb_parse : Bytes → Outcome Stuck Fields
unfolding pb_loop pb_round
pb_parse content = pb_loop (length content) (length content) content []
