-- ===== src/Protocol/Hello/Tests.antt =====
-- internal/protocol/mmtls_protocol.go: hello messages.
use yyb_go.Prelude.{ℕ, ◌≡◌, refl, arith, [], ◌∷◌, ◌++◌, length, replicate, Bytes, codes}
use yyb_go.Prelude.Outcome.{Outcome, ok, err}
use yyb_go.Protocol.Handshake.{build_handshake}
use yyb_go.Protocol.Hello.{
  build_client_hello, build_psk_client_hello, parse_server_hello, bad_random, extract_key_shares,
  keys_loop,
}
use yyb_go.Protocol.Hello.Read.{
  IsSane, parse_server_hello-IsSane, encode_hello, key_share, parse_server_hello-encode_hello,
}

abbrev key : Bytes
key = 4 ∷ 5 ∷ 6 ∷ []

abbrev random : Bytes
random = replicate 32 7

abbrev hello : Bytes
hello = encode_hello (0x03 ∷ 0xf1 ∷ []) 0xc02b random (key_share (replicate 6 0) 2 key)

parse_server_hello-encode_hello_example :
    parse_server_hello (hello ++ codes "rest")
    ≡ ok
        (record { server_random = random; cipher = 0xc02b; server_group = 2; server_pub_key = key })
parse_server_hello-encode_hello_example =
    parse_server_hello-encode_hello (0x03 ∷ 0xf1 ∷ []) 0xc02b random (replicate 6 0) 2 key
      (codes "rest") refl (omega arith) refl refl (omega arith) (omega arith)

parse_server_hello-IsSane_example : IsSane (parse_server_hello (hello ++ codes "rest"))
parse_server_hello-IsSane_example = parse_server_hello-IsSane (hello ++ codes "rest")

short_random : build_psk_client_hello (codes "short") 1 [] ≡ err bad_random
unfolding build_psk_client_hello
short_random = refl

-- A key in the middle of other bytes.
found_key :
    extract_key_shares (9 ∷ 0x00 ∷ 0x41 ∷ 0x04 ∷ (replicate 64 1 ++ 8 ∷ []))
    ≡ (0x04 ∷ replicate 64 1) ∷ []
unfolding extract_key_shares keys_loop
found_key = refl

abbrev size_of : {E : Type 0} → Outcome E Bytes → ℕ
size_of (ok bs) = length bs
size_of _ = 0

client_hello_size : size_of (build_client_hello random 1 (replicate 65 2) (replicate 65 3)) ≡ 212
unfolding build_client_hello build_handshake
client_hello_size = refl
