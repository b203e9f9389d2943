-- ===== src/Protocol/Shortlink/Packets.antt =====
-- internal/protocol/mmtls_protocol.go: `parseShortlink` on what `buildShortlink` writes, and on any
-- packet with a whole header.
use yyb_go.Prelude.{
  ℕ, ◌+◌, ◌-◌, ◌^◌, ◌≤◌, ◌<◌, ◌≡◌, refl, ap, ◌∙◌, ◌↔◌, inl, inr, true, false, ◌∷◌, ◌++◌, arith, ltb,
  ◌==◌, if◌then◌else◌, Bool-cases, if-both, length, take, take-length-append, length-append, Bytes,
}
use yyb_go.Prelude.Outcome.{ok, panic}
use yyb_go.Protocol.BigEndian.{uint16, uint32, uint16-put, uint32-put}
use yyb_go.Protocol.Shortlink.{
  parse_header, packet_with, build_shortlink, parse_shortlink, shortlink_magic, default_ver,
}

module _ (magic ver cmd seq : ℕ) (rest : Bytes) where
  parse_header-whole :
      (total : ℕ)
      → 16 ≤ total
      → total ≤ 16 + length rest
      → parse_header total magic ver cmd seq rest
        ≡ packet_with total magic ver cmd seq (ok (take (total - 16) rest))
  unfolding parse_header
  parse_header-whole total low high =
      let fits : ltb (16 + length rest) total ≡ false = ground arith in
      let over : ltb total 16 ≡ false = ground arith in rw (fits, over) refl

  parse_header-below : (total : ℕ) → total < 16 → parse_header total magic ver cmd seq rest ≡ panic
  unfolding parse_header
  parse_header-below total low =
      let fits : ltb (16 + length rest) total ≡ false = ground arith in
      let below : ltb total 16 ≡ true = ground arith in rw (fits, below) refl

  parse_header-panics : (total : ℕ) → parse_header total magic ver cmd seq rest ≡ panic → total < 16
  unfolding parse_header
  parse_header-panics total =
      if-both (λ result. result ≡ panic → total < 16) (ltb (16 + length rest) total)
        (λ _ e. absurd (cc))
        (λ _. elim (Bool-cases (ltb total 16)) [
          | inl below ↦ λ _. ground arith
          | inr over ↦ rw over (λ e. absurd (cc))
        ])

-- On a packet with a whole header `parseShortlink` panics exactly if the length that the header
-- announces is below 16, the header's own.
pub parse_shortlink-panics :
    (t3 t2 t1 t0 m1 m0 v1 v0 c3 c2 c1 c0 s3 s2 s1 s0 : ℕ) (rest : Bytes)
    → (parse_shortlink
          (t3 ∷ t2 ∷ t1 ∷ t0 ∷ m1 ∷ m0 ∷ v1 ∷ v0 ∷ c3 ∷ c2 ∷ c1 ∷ c0 ∷ s3 ∷ s2 ∷ s1 ∷ s0 ∷ rest)
        ≡ panic)
      ↔ (uint32 t3 t2 t1 t0 < 16)
unfolding parse_shortlink
parse_shortlink-panics t3 t2 t1 t0 m1 m0 v1 v0 c3 c2 c1 c0 s3 s2 s1 s0 rest = (
  parse_header-panics (uint16 m1 m0) (uint16 v1 v0) (uint32 c3 c2 c1 c0) (uint32 s3 s2 s1 s0) rest
      (uint32 t3 t2 t1 t0),
  parse_header-below (uint16 m1 m0) (uint16 v1 v0) (uint32 c3 c2 c1 c0) (uint32 s3 s2 s1 s0) rest
      (uint32 t3 t2 t1 t0),
)

-- A packet that `buildShortlink` wrote is parsed to its parts, whatever follows it; version 0 stands
-- for the default. The numbers fit their fields, and the packet is shorter than 2 ^ 32 bytes.
pub parse_shortlink-build_shortlink :
    (cmd seq ver : ℕ) (body rest : Bytes)
    → cmd < 2 ^ 32
    → seq < 2 ^ 32
    → ver < 2 ^ 16
    → 16 + length body < 2 ^ 32
    → parse_shortlink (build_shortlink cmd seq body ver ++ rest)
      ≡ ok (record {
        total_len = 16 + length body;
        magic = shortlink_magic;
        ver = if ver == 0 then default_ver else ver;
        cmd = cmd;
        seq = seq;
        body = body;
      })
unfolding build_shortlink parse_shortlink
parse_shortlink-build_shortlink cmd seq ver body rest hc hs hv hb =
    let sent = if ver == 0 then default_ver else ver in
    let sent_fits : sent < 2 ^ 16 = ground arith in
    rw
      (
        uint32-put (16 + length body) hb,
        uint16-put sent sent_fits,
        uint32-put cmd hc,
        uint32-put seq hs,
      )
      (parse_header-whole shortlink_magic sent cmd seq (body ++ rest) (16 + length body)
          (omega arith) (omega (arith, length-append body rest))
        ∙ ap (λ b. packet_with (16 + length body) shortlink_magic sent cmd seq (ok b))
            (take-length-append (16 + length body - 16) body rest (omega arith)))
