-- ===== src/Protocol/Shortlink/Tests.antt =====
-- Runs of the short link packets, and the theorems at concrete inputs.
use yyb_go.Prelude.{◌≡◌, ◌↔◌, ◌<◌, [], ◌∷◌, ◌++◌, arith, codes}
use yyb_go.Prelude.Outcome.{ok, panic}
use yyb_go.Protocol.BigEndian.{uint32}
use yyb_go.Protocol.Shortlink.{build_shortlink, parse_shortlink, shortlink_magic, default_ver}
use yyb_go.Protocol.Shortlink.Packets.{parse_shortlink-panics, parse_shortlink-build_shortlink}

parse_shortlink-build_shortlink_example :
    parse_shortlink (build_shortlink 0x0d7d 7 (codes "ab") 0 ++ codes "c")
    ≡ ok (record {
      total_len = 18;
      magic = shortlink_magic;
      ver = default_ver;
      cmd = 0x0d7d;
      seq = 7;
      body = codes "ab";
    })
parse_shortlink-build_shortlink_example =
    parse_shortlink-build_shortlink 0x0d7d 7 0 (codes "ab") (codes "c") (omega arith) (omega arith)
      (omega arith) (omega arith)

parse_shortlink-panics_example :
    (parse_shortlink (0 ∷ 0 ∷ 0 ∷ 4 ∷ 17 ∷ 16 ∷ 7 ∷ 109 ∷ 0 ∷ 0 ∷ 0 ∷ 1 ∷ 0 ∷ 0 ∷ 0 ∷ 2 ∷ [])
      ≡ panic)
    ↔ (uint32 0 0 0 4 < 16)
parse_shortlink-panics_example = parse_shortlink-panics 0 0 0 4 17 16 7 109 0 0 0 1 0 0 0 2 []
