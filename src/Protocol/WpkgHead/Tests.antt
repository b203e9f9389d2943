-- ===== src/Protocol/WpkgHead/Tests.antt =====
-- Runs of the head of a package, and the theorem at a concrete input.
use yyb_go.Prelude.{ℕ, ◌≡◌, refl, List, [], ◌∷◌, ◌++◌, arith, length, Bytes, codes}
use yyb_go.Prelude.Map.{lookup, nat_eq, IsMap}
use yyb_go.Prelude.Outcome.{ok}
use yyb_go.Protocol.WpkgHead.{wpkg_head, decode_wpkg_head}
use yyb_go.Protocol.WpkgHead.RoundTrip.{decode_wpkg_head-wpkg_head}

abbrev ints : List (ℕ × ℕ)
ints = (5, 300) ∷ (2, 0) ∷ []

abbrev byts : List (ℕ × Bytes)
byts = (24, codes "id") ∷ (14, []) ∷ []

ints-IsMap : IsMap ints
unfolding lookup
ints-IsMap = (refl, (refl, tt))

byts-IsMap : IsMap byts
unfolding lookup
byts-IsMap = (refl, (refl, tt))

short_input : length (wpkg_head ints byts ++ codes "rest") ≡ 19
unfolding wpkg_head yyb_go.Protocol.Varint.varint yyb_go.Protocol.WpkgHead.sorted
    yyb_go.Protocol.WpkgHead.write_ints yyb_go.Protocol.WpkgHead.write_byts
    yyb_go.Protocol.WpkgHead.wpkg_prefix
short_input = refl

decode_wpkg_head-wpkg_head_example :
    (ints' : List (ℕ × ℕ)) × (byts' : List (ℕ × Bytes)) × (decode_wpkg_head
        (wpkg_head ints byts ++ codes "rest")
      ≡ ok (ints', byts', length (wpkg_head ints byts)))
    × ((k : ℕ) → lookup k ints' ≡ lookup k ints)
    × ((k : ℕ) → lookup k byts' ≡ lookup k byts)
decode_wpkg_head-wpkg_head_example =
    decode_wpkg_head-wpkg_head ints byts (codes "rest") ints-IsMap
      ((omega arith, omega arith, omega arith), ((omega arith, omega arith, omega arith), tt))
      byts-IsMap ((omega arith, omega arith), ((omega arith, omega arith), tt))
      (omega (arith, short_input))
