-- ===== src/Protocol/Shortlink.antt =====
-- internal/protocol/mmtls_protocol.go: `buildShortlink` and `parseShortlink`.
pub mod Packets
mod Tests
use yyb_go.Prelude.{
  ℕ, ◌+◌, ◌-◌, ◌^◌, ◌%◌, List, [], ◌∷◌, ◌++◌, ltb, ◌==◌, if◌then◌else◌, length, take, Bytes,
}
use yyb_go.Prelude.Outcome.{Outcome, ok, err, panic}
use yyb_go.Protocol.BigEndian.{put_uint16, uint16, put_uint32, uint32}

abbrev pub shortlink_magic : ℕ
shortlink_magic = 0x1110

abbrev pub default_ver : ℕ
default_ver = 0x076d

-- `uint32(total)` wraps around in `put_uint32`.
unfoldable pub build_shortlink : ℕ → ℕ → Bytes → ℕ → Bytes
build_shortlink cmd seq body ver =
    put_uint32 (16 + length body)
    ++ (put_uint16 shortlink_magic
        ++ (put_uint16 (if ver == 0 then default_ver else ver)
            ++ (put_uint32 cmd ++ (put_uint32 seq ++ body))))

pub record ShortlinkPacket : Type 0 where
  pub total_len : ℕ
  pub magic : ℕ
  pub ver : ℕ
  pub cmd : ℕ
  pub seq : ℕ
  pub body : Bytes

pub data Error : Type 0 where
  too_short truncated : Error

-- `pkt[16:total]`, where the bytes from 16 on are `rest`: the run time checks that 16 <= total.
unfoldable pub body_part : ℕ → Bytes → Outcome Error Bytes
body_part total rest = if ltb total 16 then panic else ok (take (total - 16) rest)

abbrev pub packet_with : ℕ → ℕ → ℕ → ℕ → ℕ → Outcome Error Bytes → Outcome Error ShortlinkPacket
packet_with total magic ver cmd seq (ok body) =
    ok (record { total_len = total; magic = magic; ver = ver; cmd = cmd; seq = seq; body = body })
packet_with total magic ver cmd seq (err e) = err e
packet_with total magic ver cmd seq panic = panic

-- The header's numbers, and the bytes behind the header.
unfoldable pub parse_header : ℕ → ℕ → ℕ → ℕ → ℕ → Bytes → Outcome Error ShortlinkPacket
unfolding body_part
parse_header total magic ver cmd seq rest =
    if ltb (16 + length rest) total
    then err truncated
    else packet_with total magic ver cmd seq (body_part total rest)

unfoldable pub parse_shortlink : Bytes → Outcome Error ShortlinkPacket
parse_shortlink
      (t3 ∷ t2 ∷ t1 ∷ t0 ∷ m1 ∷ m0 ∷ v1 ∷ v0 ∷ c3 ∷ c2 ∷ c1 ∷ c0 ∷ s3 ∷ s2 ∷ s1 ∷ s0 ∷ rest) =
    parse_header (uint32 t3 t2 t1 t0) (uint16 m1 m0) (uint16 v1 v0) (uint32 c3 c2 c1 c0)
      (uint32 s3 s2 s1 s0) rest
parse_shortlink _ = err too_short
