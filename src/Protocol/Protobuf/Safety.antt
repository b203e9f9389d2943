-- ===== src/Protocol/Protobuf/Safety.antt =====
-- `pbParse` on any input.
use yyb_go.Prelude.{
  ℕ, zero, suc, ◌+◌, ◌-◌, ◌*◌, ◌/◌, ◌%◌, ◌^◌, ◌≤◌, ◌<◌, ◌≡◌, refl, ◌≢◌, ◌⊎◌, inl, inr, [], ◌∷◌,
  ◌++◌, arith, Bytes, ◌==◌, length, length-append, length-drop, Bool-cases,
}
use yyb_go.Prelude.Outcome.{Outcome, ok, err, panic}
use yyb_go.Prelude.Bits.{bit_or-two}
use yyb_go.Protocol.Varint.{IsU64, varint, read_varint, Error}
use yyb_go.Protocol.Varint.Encode.{varint_shape}
use yyb_go.Protocol.Varint.Decode.{read_varint-varint, read_small}
use yyb_go.Protocol.Varint.Bounds.{read_varint_takes, read_varint-ne-panic}
use yyb_go.Protocol.Protobuf.{
  Fields, Slice, beyond, invalid, part, slice_of, Round, return, continue, panics, var_round,
  len_round, pb_round, Stuck, out_of_fuel, pb_loop, pb_parse, tag_byte,
}

pub read_varint_cases :
    (content : Bytes)
    → ((v : ℕ) × (rest : Bytes) × (read_varint content ≡ ok (v, rest))
        × IsU64 v
        × (length rest < length content))
      ⊎ ((e : Error) × (read_varint content ≡ err e))
read_varint_cases content = go (read_varint content) refl
  where
    go :
        (r : Outcome Error (ℕ × Bytes))
        → read_varint content ≡ r
        → ((v : ℕ) × (rest : Bytes) × (read_varint content ≡ ok (v, rest))
            × IsU64 v
            × (length rest < length content))
          ⊎ ((e : Error) × (read_varint content ≡ err e))
    go (ok (v, rest)) e =
        let takes = read_varint_takes content v rest e in inl (v, rest, e, takes.0, takes.1)
    go (err x) e = inr (x, e)
    go panic e = absurd (read_varint-ne-panic content e)

-- A slice that is cut is no longer than what it is cut from.
slice_of_shorter :
    (size : ℕ) (rest : Bytes) (ln : ℕ) {raw rest' : Bytes}
    → slice_of size rest ln ≡ part raw rest'
    → length rest' ≤ length rest
unfolding slice_of
slice_of_shorter size rest ln e =
    ground (arith, length-drop ((size - length rest + ln) % 2 ^ 64 - (size - length rest)) rest)

-- A number that the parser reads as a length and that reaches past 2 ^ 63 from the position.
pub HugeLength : ℕ → Type 0
HugeLength size =
    (rest : Bytes) × (ln : ℕ) × (rest' : Bytes) × (read_varint rest ≡ ok (ln, rest'))
    × (2 ^ 63 ≤ size + ln)

slice_of_invalid :
    (size : ℕ) (rest : Bytes) (ln : ℕ)
    → slice_of size rest ln ≡ invalid
    → length rest ≤ size
    → 2 ^ 63 ≤ size + ln
unfolding slice_of
slice_of_invalid size rest ln e h = ground arith

-- What a round can do: return, go on with less input, or panic at a huge length.
abbrev Sound : ℕ → Bytes → Round → Type 0
Sound size rest (return out) = Unit
Sound size rest (continue rest' out) = length rest' ≤ length rest
Sound size rest panics = HugeLength size

var_round-Sound :
    (size fn : ℕ) (rest : Bytes) (out : Fields) → Sound size rest (var_round fn rest out)
unfolding var_round
var_round-Sound size fn rest out = elim (read_varint_cases rest) [
  | inl (v, rest', r, _, shorter) ↦ rw (r, var_round) (omega arith)
  | inr (e, r) ↦ rw (r, var_round) tt
]

slice_round-Sound :
    (size fn ln : ℕ) (rest rest' : Bytes) (out : Fields)
    → read_varint rest ≡ ok (ln, rest')
    → length rest' < length rest
    → length rest ≤ size
    → (s : Slice) → slice_of size rest' ln ≡ s
    → Sound size rest (len_round size fn rest out)
unfolding len_round
slice_round-Sound size fn ln rest rest' out r shorter h beyond e = rw (r, len_round, e) tt
slice_round-Sound size fn ln rest rest' out r shorter h invalid e =
    rw (r, len_round, e)
      (unfold HugeLength in (rest, ln, rest', r, slice_of_invalid size rest' ln e (omega arith)))
slice_round-Sound size fn ln rest rest' out r shorter h (part raw rest'') e =
    rw (r, len_round, e) (omega (arith, slice_of_shorter size rest' ln e))

len_round-Sound :
    (size fn : ℕ) (rest : Bytes) (out : Fields)
    → length rest ≤ size
    → Sound size rest (len_round size fn rest out)
unfolding len_round
len_round-Sound size fn rest out h = elim (read_varint_cases rest) [
  | inl (ln, rest', r, _, shorter) ↦
      slice_round-Sound size fn ln rest rest' out r shorter h (slice_of size rest' ln) refl
  | inr (e, r) ↦ rw (r, len_round) tt
]

pb_round-Sound :
    (size tag : ℕ) (rest : Bytes) (out : Fields)
    → length rest ≤ size
    → Sound size rest (pb_round size tag rest out)
unfolding pb_round
pb_round-Sound size tag rest out h = elim (Bool-cases (tag % 8 == 0)) [
  | inl e ↦ rw e (var_round-Sound size (tag / 8) rest out)
  | inr e ↦ elim (Bool-cases (tag % 8 == 2)) [
    | inl e' ↦ rw (e, e') (len_round-Sound size (tag / 8) rest out h)
    | inr e' ↦ rw (e, e') tt
  ]
]

-- Every run ends with a map, or panics at a huge length.
abbrev Ends : ℕ → Outcome Stuck Fields → Type 0
Ends size (ok out) = Unit
Ends size (err e) = ⊥
Ends size panic = HugeLength size

pb_loop-Ends :
    (fuel size : ℕ) (rest : Bytes) (out : Fields)
    → length rest ≤ fuel
    → length rest ≤ size
    → Ends size (pb_loop fuel size rest out)
unfolding pb_loop
pb_loop-Ends zero size [] out hf hs = tt
pb_loop-Ends (suc fuel) size [] out hf hs = tt
pb_loop-Ends zero size (b ∷ rest) out hf hs = absurd (omega arith)
pb_loop-Ends (suc fuel) size (b ∷ rest) out hf hs = elim (read_varint_cases (b ∷ rest)) [
  | inl (tag, rest', r, _, shorter) ↦
      rw (r, pb_loop)
        (after rest' (pb_round size tag rest' out) (pb_round-Sound size tag rest' out (omega arith))
          λ rest'' out' h. pb_loop-Ends fuel size rest'' out' (omega arith) (omega arith))
  | inr (e, r) ↦ rw (r, pb_loop) tt
]
  where
    after :
        (rest' : Bytes) (x : Round)
        → Sound size rest' x
        → ((rest'' : Bytes) (out' : Fields)
            → length rest'' ≤ length rest'
            → Ends size (pb_loop fuel size rest'' out'))
        → Ends size (elim x [
          | return out' ↦ ok out'
          | continue rest'' out' ↦ pb_loop fuel size rest'' out'
          | panics ↦ panic
        ])
    after rest' (return out') h next = tt
    after rest' (continue rest'' out') h next = next rest'' out' h
    after rest' panics h next = h

-- `pbParse` ends on every input: the fuel, the length of the input, is never used up.
pub pb_parse-ne-out_of_fuel : (content : Bytes) → pb_parse content ≢ err out_of_fuel
unfolding pb_parse
pb_parse-ne-out_of_fuel content e =
    let ends =
      pb_loop-Ends (length content) (length content) content [] (omega arith) (omega arith) in
    rw e at ends

-- If `pbParse` panics, it has read a length that reaches 2 ^ 63 together with the input's length.
pub pb_parse_panics : (content : Bytes) → pb_parse content ≡ panic → HugeLength (length content)
unfolding pb_parse
pb_parse_panics content e =
    let ends =
      pb_loop-Ends (length content) (length content) content [] (omega arith) (omega arith) in
    rw e at ends

slice_of_huge :
    (size : ℕ) (rest : Bytes) (ln : ℕ)
    → size < 2 ^ 63
    → 2 ^ 63 ≤ ln
    → ln < 2 ^ 64
    → slice_of size rest ln ≡ invalid
unfolding slice_of
slice_of_huge size rest ln small lo hi = ground arith

huge_round :
    (size f ln : ℕ) (rest : Bytes)
    → size < 2 ^ 63
    → 2 ^ 63 ≤ ln
    → ln < 2 ^ 64
    → pb_round size (f * 8 + 2) (varint ln ++ rest) [] ≡ panics
unfolding pb_round len_round
huge_round size f ln rest small lo hi =
    let wire : (f * 8 + 2) % 8 ≡ 2 = omega arith in
    rw (wire, read_varint-varint ln rest hi, len_round, slice_of_huge size rest ln small lo hi)

-- A message that starts with a length-delimited field whose length, as a uint64, is 2 ^ 63 or more
-- makes `pbParse` panic: the test on `i+int(ln)` lets a negative length pass. The field's number is
-- below 16 and the rest of the message is shorter than 2 ^ 62 bytes.
pub pb_parse-huge_length :
    (f ln : ℕ) (rest : Bytes)
    → f < 16
    → 2 ^ 63 ≤ ln
    → ln < 2 ^ 64
    → length rest < 2 ^ 62
    → pb_parse (tag_byte f 2 ∷ (varint ln ++ rest)) ≡ panic
unfolding pb_parse pb_loop
pb_parse-huge_length f ln rest hf lo hi small =
    let e : tag_byte f 2 ≡ f * 8 + 2 = omega (arith, bit_or-two f) in
    let size = suc (length (varint ln ++ rest)) in
    let fits : size < 2 ^ 63 = omega (arith, length-append (varint ln) rest, varint_shape ln hi) in
    rw (
      e,
      read_small (f * 8 + 2) (varint ln ++ rest) (omega arith),
      pb_loop,
      huge_round size f ln rest fits lo hi,
    )
