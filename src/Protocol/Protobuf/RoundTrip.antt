-- ===== src/Protocol/Protobuf/RoundTrip.antt =====
-- `pbParse` on what `pbVar` and `pbLen` write.
use yyb_go.Prelude.{
  ℕ, zero, suc, ◌+◌, ◌-◌, ◌*◌, ◌/◌, ◌%◌, ◌^◌, ◌≤◌, ◌<◌, ◌≡◌, refl, ◌∙◌, List, [], ◌∷◌, ◌++◌,
  append_assoc, arith, Bytes, length, length-append, take-length-append, drop-length-append, All,
  take, drop,
}
use yyb_go.Prelude.Outcome.{ok}
use yyb_go.Prelude.Map.{insert, nat_eq}
use yyb_go.Prelude.Bits.{bit_or-two, bit_or-zero}
use yyb_go.Protocol.Varint.{IsU64, varint, read_varint}
use yyb_go.Protocol.Varint.Decode.{read_varint-varint, read_small}
use yyb_go.Protocol.Protobuf.{
  pb_len, pb_var, int64, bytes, Fields, part, slice_of, continue, var_round, len_round, pb_round,
  pb_loop, pb_parse, tag_byte,
}

-- A field as the callers write it.
pub data Field : Type 0 where
  var_field : ℕ → ℕ → Field
  len_field : ℕ → Bytes → Field

unfoldable pub encode_field : Field → Bytes
encode_field (var_field f n) = pb_var f n
encode_field (len_field f content) = pb_len f content

unfoldable pub encode : List Field → Bytes
encode [] = []
encode (f ∷ fs) = encode_field f ++ encode fs

-- The map that the fields stand for: a later field of the same number replaces an earlier one.
unfoldable pub store : Field → Fields → Fields
store (var_field f n) out = insert f (int64 n) out
store (len_field f content) out = insert f (bytes content) out

unfoldable pub store_all : List Field → Fields → Fields
store_all [] out = out
store_all (f ∷ fs) out = store_all fs (store f out)

-- Field numbers up to 15 have a tag of one byte; a number is a uint64.
abbrev pub IsField : Field → Type 0
IsField (var_field f n) = (f < 16) × IsU64 n
IsField (len_field f content) = f < 16

pub slice_of_part :
    (size : ℕ) (raw rest : Bytes)
    → length (raw ++ rest) ≤ size
    → size < 2 ^ 63
    → slice_of size (raw ++ rest) (length raw) ≡ part raw rest
unfolding slice_of
slice_of_part size raw rest h small = ground (arith, exact, fits, cut)
  where
    i : ℕ
    i = size - length (raw ++ rest)

    fits : i + length raw ≤ size
    fits = omega (arith, length-append raw rest)

    exact : (i + length raw) % 2 ^ 64 ≡ i + length raw
    exact = omega (arith, length-append raw rest)

    cut :
        part (take (i + length raw - i) (raw ++ rest)) (drop (i + length raw - i) (raw ++ rest))
        ≡ part raw rest
    cut = rw (
      take-length-append (i + length raw - i) raw rest (omega arith),
      drop-length-append (i + length raw - i) raw rest (omega arith),
    )

var_round_step :
    (f n : ℕ) (rest : Bytes) (out : Fields)
    → IsU64 n
    → var_round f (varint n ++ rest) out ≡ continue rest (insert f (int64 n) out)
unfolding var_round
var_round_step f n rest out h = rw (read_varint-varint n rest h, var_round)

len_round_step :
    (size f : ℕ) (content rest : Bytes) (out : Fields)
    → length (content ++ rest) ≤ size
    → size < 2 ^ 63
    → len_round size f (varint (length content % 2 ^ 64) ++ (content ++ rest)) out
      ≡ continue rest (insert f (bytes content) out)
unfolding len_round
len_round_step size f content rest out h small =
    let e : length content % 2 ^ 64 ≡ length content = omega (arith, length-append content rest) in
    rw (
      e,
      read_varint-varint (length content) (content ++ rest)
          (omega (arith, length-append content rest)),
      len_round,
      slice_of_part size content rest h small,
    )

-- A tag that is read and a round that goes on.
loop_next :
    (fuel size b tag : ℕ) (rest rest' rest'' : Bytes) (out out' : Fields)
    → read_varint (b ∷ rest) ≡ ok (tag, rest')
    → pb_round size tag rest' out ≡ continue rest'' out'
    → pb_loop (suc fuel) size (b ∷ rest) out ≡ pb_loop fuel size rest'' out'
unfolding pb_loop
loop_next fuel size b tag rest rest' rest'' out out' r c = rw (r, pb_loop, c)

-- One round of the loop reads one field back.
loop_step :
    (fd : Field) (fuel size : ℕ) (rest : Bytes) (out : Fields)
    → IsField fd
    → length (encode_field fd ++ rest) ≤ size
    → size < 2 ^ 63
    → pb_loop (suc fuel) size (encode_field fd ++ rest) out ≡ pb_loop fuel size rest (store fd out)
unfolding encode_field store pb_var pb_len pb_round
loop_step (var_field f n) fuel size rest out (hf, hn) h small =
    let e : tag_byte f 0 ≡ f * 8 = omega (arith, bit_or-zero f) in
    rw e (
      loop_next fuel size (f * 8) (f * 8) _ _ _ out _
        (read_small (f * 8) (varint n ++ rest) (omega arith)) round)
  where
    round : pb_round size (f * 8) (varint n ++ rest) out ≡ continue rest (insert f (int64 n) out)
    round = ground (arith, same, var_round_step f n rest out hn)
      where
        same : f * 8 / 8 ≡ f
        same = omega arith
loop_step (len_field f content) fuel size rest out hf h small =
    let e : tag_byte f 2 ≡ f * 8 + 2 = omega (arith, bit_or-two f) in
    rw (e, append_assoc)
      (loop_next fuel size (f * 8 + 2) (f * 8 + 2) _ _ _ out _
        (read_small (f * 8 + 2) _ (omega arith)) round)
  where
    tail : Bytes
    tail = varint (length content % 2 ^ 64) ++ (content ++ rest)

    fits : length (content ++ rest) ≤ size
    fits = omega (
      arith,
      length-append (varint (length content % 2 ^ 64)) content,
      length-append content rest,
      length-append (varint (length content % 2 ^ 64) ++ content) rest,
    )

    round : pb_round size (f * 8 + 2) tail out ≡ continue rest (insert f (bytes content) out)
    round = ground (arith, same, len_round_step size f content rest out fits small)
      where
        same : (f * 8 + 2) / 8 ≡ f
        same = omega arith

encode_field-ne-nil : (fd : Field) → 0 < length (encode_field fd)
unfolding encode_field pb_var pb_len
encode_field-ne-nil (var_field f n) = omega arith
encode_field-ne-nil (len_field f content) = omega arith

pb_loop-encode :
    (fs : List Field) (fuel size : ℕ) (out : Fields)
    → All IsField fs
    → length (encode fs) ≤ fuel
    → length (encode fs) ≤ size
    → size < 2 ^ 63
    → pb_loop fuel size (encode fs) out ≡ ok (store_all fs out)
unfolding encode store_all
pb_loop-encode [] zero size out h hf hs small = unfold pb_loop in refl
pb_loop-encode [] (suc fuel) size out h hf hs small = unfold pb_loop in refl
pb_loop-encode (fd ∷ fs) zero size out h hf hs small =
    absurd (omega (arith, length-append (encode_field fd) (encode fs), encode_field-ne-nil fd))
pb_loop-encode (fd ∷ fs) (suc fuel) size out (hd, h) hf hs small =
    loop_step fd fuel size (encode fs) out hd hs small
    ∙ pb_loop-encode fs fuel size (store fd out) h
        (omega (arith, length-append (encode_field fd) (encode fs), encode_field-ne-nil fd))
        (omega (arith, length-append (encode_field fd) (encode fs), encode_field-ne-nil fd)) small

-- `pbParse` returns the map of the fields that `pbVar` and `pbLen` wrote one after the other, with
-- the last field of a number where several have it. The field numbers are below 16, the numbers are
-- uint64s, and the message is shorter than 2 ^ 63 bytes.
pub pb_parse-encode :
    (fs : List Field)
    → All IsField fs
    → length (encode fs) < 2 ^ 63
    → pb_parse (encode fs) ≡ ok (store_all fs [])
unfolding pb_parse
pb_parse-encode fs h small =
    pb_loop-encode fs (length (encode fs)) (length (encode fs)) [] h (omega arith) (omega arith)
      small
