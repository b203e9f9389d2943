-- ===== src/Protocol/Hello.antt =====
-- internal/protocol/mmtls_protocol.go: the hello messages of the handshake. A slice beyond its end panics.
pub mod Read
pub mod Tests
use yyb_go.Prelude.{
  ℕ, zero, suc, ◌+◌, not, ◌&&◌, ◌||◌, List, [], ◌∷◌, ◌++◌, ltb, ◌==◌, if◌then◌else◌, length, take,
  drop, Bytes,
}
use yyb_go.Prelude.Outcome.{Outcome, ok, err, panic, ◌>>=◌}
use yyb_go.Protocol.BigEndian.{put_uint16, uint16, put_uint32, uint32}
use yyb_go.Protocol.Handshake.{build_handshake}

pub data Error : Type 0 where
  bad_key_length bad_random too_short extension_truncated share_truncated key_truncated : Error

abbrev pub hs_client_hello : ℕ
hs_client_hello = 0x01

abbrev pub cipher_ecdhe : ℕ
cipher_ecdhe = 0xc02b

abbrev pub cipher_psk : ℕ
cipher_psk = 0x00a8

abbrev pub ext_key_share : ℕ
ext_key_share = 0x01

abbrev pub group_sec_p256r1 : ℕ
group_sec_p256r1 = 0x01

abbrev pub group2 : ℕ
group2 = 0x02

abbrev pub key_len : ℕ
key_len = 65

abbrev pub with_length : Bytes → Bytes
with_length bs = put_uint32 (length bs) ++ bs

-- One offer, with its length in front.
abbrev pub offer : ℕ → Bytes → Bytes
offer group key = with_length (put_uint32 group ++ (put_uint16 key_len ++ key))

abbrev pub hello_body : ℕ → Bytes → ℕ → Bytes → Bytes
hello_body cipher client_random timestamp ext =
    0x03
    ∷ 0xf1
    ∷ 1
    ∷ (put_uint16 cipher
        ++ (client_random
            ++ (put_uint32 timestamp ++ with_length (ext_key_share ∷ with_length ext))))

unfoldable pub build_client_hello : Bytes → ℕ → Bytes → Bytes → Outcome Error Bytes
build_client_hello client_random timestamp g1_pub g2_pub =
    if not (length client_random == 32)
      || (not (length g1_pub == key_len) || not (length g2_pub == key_len))
    then err bad_key_length
    else ok (
        build_handshake hs_client_hello (
          hello_body cipher_ecdhe client_random timestamp (
            0x00
            ∷ 0x10
            ∷ 2
            ∷ (offer group_sec_p256r1 g1_pub ++ (offer group2 g2_pub ++ 0 ∷ 0 ∷ 0 ∷ 1 ∷ [])))))

unfoldable pub build_psk_client_hello : Bytes → ℕ → Bytes → Outcome Error Bytes
build_psk_client_hello client_random timestamp ticket_entry =
    if not (length client_random == 32)
    then err bad_random
    else ok (
        build_handshake hs_client_hello (
          hello_body cipher_psk client_random timestamp
            (0x00 ∷ 0x0f ∷ 1 ∷ with_length ticket_entry)))

pub record ServerHello : Type 0 where
  pub server_random : Bytes
  pub cipher : ℕ
  pub server_group : ℕ
  pub server_pub_key : Bytes

-- What is read, and what is behind it.
unfoldable pub take_bytes : ℕ → Bytes → Outcome Error (Bytes × Bytes)
take_bytes n bs = if ltb (length bs) n then panic else ok (take n bs, drop n bs)

unfoldable pub read_uint16 : Bytes → Outcome Error (ℕ × Bytes)
read_uint16 (b1 ∷ b0 ∷ rest) = ok (uint16 b1 b0, rest)
read_uint16 _ = panic

unfoldable pub read_uint32 : Bytes → Outcome Error (ℕ × Bytes)
read_uint32 (b3 ∷ b2 ∷ b1 ∷ b0 ∷ rest) = ok (uint32 b3 b2 b1 b0, rest)
read_uint32 _ = panic

-- The keys that stand anywhere in the bytes: 65 bytes from a 4 on, with 0x0041 in front. Each round
-- takes a byte or more.
unfoldable pub keys_loop : ℕ → Bytes → List Bytes
keys_loop zero blob = []
keys_loop (suc fuel) (a ∷ b ∷ c ∷ rest) =
    let found = keys_loop fuel (drop 64 rest) in
    let further = keys_loop fuel (b ∷ c ∷ rest) in
    if ltb (3 + length rest) 67
    then []
    else if a == 0x00 && (b == 0x41 && c == 0x04)
    then take 65 (c ∷ rest) ∷ found
    else further
keys_loop (suc fuel) _ = []

unfoldable pub extract_key_shares : Bytes → List Bytes
extract_key_shares blob = keys_loop (length blob) blob

abbrev pub first_key : List Bytes → Bytes
first_key [] = []
first_key (key ∷ keys) = key

abbrev pub with_key : ServerHello → ℕ × Bytes → Outcome Error ServerHello
with_key out (klen, rest) =
    if ltb (length rest) klen
    then err key_truncated
    else ok (record out { server_pub_key = take klen rest })

-- The key share behind its type: its length and two more bytes are passed over.
unfoldable pub read_share : ServerHello → Bytes → Outcome Error ServerHello
read_share out rest =
    if ltb (length rest) 4
    then err share_truncated
    else if ltb (length rest) 12
    then err share_truncated
    else (read_uint32 (drop 6 rest) >>= λ (group, behind).
        read_uint16 behind >>= with_key (record out { server_group = group }))

unfoldable pub read_extension : ServerHello → Bytes → Outcome Error ServerHello
read_extension out [] = ok (record out { server_pub_key = first_key (extract_key_shares []) })
read_extension out (t ∷ rest) =
    if t == ext_key_share
    then read_share out rest
    else ok (record out { server_pub_key = first_key (extract_key_shares (t ∷ rest)) })

unfoldable pub with_extension : ℕ → Bytes → ℕ × Bytes → Outcome Error ServerHello
with_extension cipher random (ext_len, rest) =
    if ltb (length rest) ext_len
    then err extension_truncated
    else read_extension
        (record {
          server_random = random;
          cipher = cipher;
          server_group = group_sec_p256r1;
          server_pub_key = [];
        })
        (take ext_len rest)

unfoldable pub parse_server_hello : Bytes → Outcome Error ServerHello
parse_server_hello body =
    if ltb (length body) (2 + 2 + 32 + 4)
    then err too_short
    else (take_bytes 2 body >>= λ (version, behind_version).
        read_uint16 behind_version >>= λ (cipher, behind_cipher).
        take_bytes 32 behind_cipher >>= λ (random, behind_random).
        read_uint32 behind_random >>= with_extension cipher random)
