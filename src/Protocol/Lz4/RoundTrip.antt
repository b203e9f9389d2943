-- ===== src/Protocol/Lz4/RoundTrip.antt =====
-- `lz4Decompress` on what `lz4AllLiteral` writes.
use yyb_go.Prelude.{
  ℕ, zero, suc, ◌+◌, ◌-◌, ◌*◌, ◌/◌, ◌<◌, ◌≡◌, ◌∙◌, ap, [], ◌∷◌, ◌++◌, arith, Bytes, length, inl,
  inr, Bool-cases, ltb, take-length, drop-length,
}
use yyb_go.Prelude.Outcome.{ok}
use yyb_go.Protocol.Lz4.{
  Error, length_bytes, lz4_all_literal, read_length, copy_literals, extended_length,
  truncated_literal_length, decompress_loop, lz4_decompress,
}

-- The extended length is read back, and the byte that ends it is below 255.
read_length-length_bytes :
    (cut : Error) (fuel rem n : ℕ) (rest : Bytes)
    → rem < 255 + 255 * fuel
    → read_length cut (length_bytes fuel rem ++ rest) n ≡ ok (n + rem, rest)
unfolding read_length length_bytes
read_length-length_bytes cut zero rem n rest h = ground arith
read_length-length_bytes cut (suc fuel) rem n rest h =
    ground (arith, read_length-length_bytes cut fuel (rem - 255) (n + 255) rest)

copy_literals-all : (content : Bytes) → copy_literals (length content) content [] ≡ ok ([], content)
unfolding copy_literals
copy_literals-all content = rw (take-length content, drop-length content) (ground arith)

-- A block of one literal run is its literals.
literal_round :
    (fuel tok : ℕ) (rest content : Bytes)
    → extended_length truncated_literal_length (tok / 16) (tok / 16) rest
      ≡ ok (length content, content)
    → decompress_loop (suc fuel) (tok ∷ rest) [] ≡ ok content
unfolding decompress_loop
literal_round fuel tok rest content e = rw (e, copy_literals-all content)

-- Every byte string is compressed to a block that is decompressed to itself.
pub lz4_decompress-lz4_all_literal :
    (content : Bytes) → lz4_decompress (lz4_all_literal content) ≡ ok content
unfolding lz4_decompress lz4_all_literal
lz4_decompress-lz4_all_literal content = elim (Bool-cases (ltb (length content) 15)) [
  | inl small ↦ rw small (literal_round _ _ content content (ground arith))
  | inr large ↦ rw large (
      literal_round (length (ext ++ content)) 0xf0 (ext ++ content) content (
        read_length-length_bytes truncated_literal_length (length content) (length content - 15) 15
          content (omega arith)
        ∙ ap (λ (n : ℕ). ok (n, content)) (ground arith)))
]
  where
    ext : Bytes
    ext = length_bytes (length content) (length content - 15)
