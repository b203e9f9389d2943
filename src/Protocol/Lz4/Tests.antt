-- ===== src/Protocol/Lz4/Tests.antt =====
-- Runs of the LZ4 block codec, and the theorems at concrete inputs.
use yyb_go.Prelude.{◌≡◌, refl, [], ◌∷◌, ◌++◌, Bytes, codes, length, arith}
use yyb_go.Prelude.Outcome.{ok, err}
use yyb_go.Protocol.Lz4.{lz4_all_literal, lz4_decompress, copy_match, invalid_offset}
use yyb_go.Protocol.Lz4.RoundTrip.{lz4_decompress-lz4_all_literal}
use yyb_go.Protocol.Lz4.Safety.{Repeats, copy_match_lem, Good, lz4_decompress-Good}

-- Two literals, a match of four bytes at offset 1 that overlaps what it writes, and no more.
abbrev overlapping : Bytes
overlapping = 0x20 ∷ b'a' ∷ b'b' ∷ 1 ∷ 0 ∷ []

overlapping_run : lz4_decompress overlapping ≡ ok (codes "abbbbb")
unfolding lz4_decompress
overlapping_run = refl

offset_too_far : lz4_decompress (0x20 ∷ b'a' ∷ b'b' ∷ 3 ∷ 0 ∷ []) ≡ err invalid_offset
unfolding lz4_decompress
offset_too_far = refl

lz4_decompress-lz4_all_literal_example :
    lz4_decompress (lz4_all_literal (codes "0123456789abcdef")) ≡ ok (codes "0123456789abcdef")
lz4_decompress-lz4_all_literal_example = lz4_decompress-lz4_all_literal (codes "0123456789abcdef")

copy_match_lem_example :
    (ext : Bytes) × (copy_match 5 1 (codes "ab") ≡ ok (codes "ab" ++ ext))
    × (length ext ≡ 5)
    × Repeats 1 (codes "ab") ext
copy_match_lem_example = copy_match_lem 5 1 (codes "ab") (omega arith)

lz4_decompress-Good_example : Good 1275 (lz4_decompress overlapping)
lz4_decompress-Good_example = lz4_decompress-Good overlapping (omega arith)
