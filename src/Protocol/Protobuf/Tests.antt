-- ===== src/Protocol/Protobuf/Tests.antt =====
-- Runs of the field codec, and the theorems at concrete inputs.
use yyb_go.Prelude.{◌-◌, ◌^◌, ◌≡◌, refl, ◌≢◌, List, [], ◌∷◌, ◌++◌, arith, Bytes, codes}
use yyb_go.Prelude.Outcome.{ok, err, panic}
use yyb_go.Prelude.Map.{insert, nat_eq}
use yyb_go.Protocol.Varint.{varint, read_varint}
use yyb_go.Protocol.Protobuf.{
  pb_len, pb_var, int64, bytes, pb_parse, pb_loop, slice_of, tag_byte, out_of_fuel,
}
use yyb_go.Protocol.Protobuf.RoundTrip.{
  Field, var_field, len_field, encode_field, encode, store_all, pb_parse-encode,
}
use yyb_go.Protocol.Protobuf.Safety.{
  HugeLength, pb_parse-ne-out_of_fuel, pb_parse_panics, pb_parse-huge_length,
}

abbrev two_fields : List Field
two_fields = var_field 1 300 ∷ len_field 2 (codes "wx") ∷ []

parse_two :
    pb_parse (0x08 ∷ 0xac ∷ 0x02 ∷ 0x12 ∷ 2 ∷ codes "wx")
    ≡ ok ((1, int64 300) ∷ (2, bytes (codes "wx")) ∷ [])
unfolding pb_parse pb_loop read_varint slice_of insert
parse_two = refl

pb_parse-encode_example : pb_parse (encode two_fields) ≡ ok (store_all two_fields [])
unfolding encode encode_field pb_len pb_var varint
pb_parse-encode_example = pb_parse-encode two_fields (omega arith) (omega arith)

pb_parse-ne-out_of_fuel_example : pb_parse (0x12 ∷ 9 ∷ []) ≢ err out_of_fuel
pb_parse-ne-out_of_fuel_example = pb_parse-ne-out_of_fuel (0x12 ∷ 9 ∷ [])

-- A length of 2 ^ 64 - 1, as an int -1.
abbrev minus_one : Bytes
minus_one = 0xff ∷ 0xff ∷ 0xff ∷ 0xff ∷ 0xff ∷ 0xff ∷ 0xff ∷ 0xff ∷ 0xff ∷ 1 ∷ []

negative_length : pb_parse (0x0a ∷ minus_one) ≡ panic
unfolding pb_parse pb_loop read_varint slice_of
negative_length = refl

pb_parse_panics_example : HugeLength 11
pb_parse_panics_example = pb_parse_panics (0x0a ∷ minus_one) negative_length

pb_parse-huge_length_example : pb_parse (tag_byte 1 2 ∷ (varint (2 ^ 64 - 1) ++ [])) ≡ panic
pb_parse-huge_length_example =
    pb_parse-huge_length 1 (2 ^ 64 - 1) [] (omega arith) (omega arith) (omega arith) (omega arith)
