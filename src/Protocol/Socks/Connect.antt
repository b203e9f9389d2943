-- ===== src/Protocol/Socks/Connect.antt =====
-- internal/protocol/transport.go: socks5Connect with a proxy that grants the connection.
use yyb_go.Prelude.{
  ℕ, ◌+◌, ◌^◌, ◌<◌, ◌≡◌, refl, sym, ap, ◌∙◌, true, false, ◌&&◌, [], ◌∷◌, ◌++◌, Option, none, some,
  Bytes, length, take, drop, ltb, ◌==◌, if◌then◌else◌, arith, length-append,
}
use yyb_go.Prelude.Outcome.{ok}
use yyb_go.Prelude.Text.{text_eq}
use yyb_go.Protocol.BigEndian.{put_uint16, uint16, uint16-put}
use yyb_go.Protocol.Socks.{
  Conn, Done, done, Call, and_then, ◌>>=◌, read_full, discard, discard_domain, request, greeting,
  discard_address, with_method, with_head, socks5_connect,
}

-- What a proxy says it is bound to (RFC 1928).
pub data Bound : Type 0 where
  ipv4 domain ipv6 : Bytes → Bound

abbrev pub Fits : Bound → Type 0
Fits (ipv4 address) = length address ≡ 4
Fits (domain name) = length name < 256
Fits (ipv6 address) = length address ≡ 16

abbrev pub encode_bound : Bound → Bytes
encode_bound (ipv4 address) = 1 ∷ address
encode_bound (domain name) = 3 ∷ length name ∷ name
encode_bound (ipv6 address) = 4 ∷ address

-- The choice of no authentication, and the reply that grants the connection.
abbrev pub answers : Bound → ℕ → Bytes
answers bound port = 5 ∷ 0 ∷ 5 ∷ 0 ∷ 0 ∷ (encode_bound bound ++ put_uint16 port)

abbrev read_port : Bytes → Bytes → Option (Bytes × ℕ)
read_port host (a ∷ b ∷ []) = some (host, uint16 a b)
read_port host [] = none
read_port host (a ∷ []) = none
read_port host (a ∷ b ∷ c ∷ s) = none

-- How a proxy reads a request to connect to a name.
unfoldable pub requested : Bytes → Option (Bytes × ℕ)
requested (version ∷ command ∷ reserved ∷ kind ∷ n ∷ s) =
    if version == 5 && (command == 1 && (reserved == 0 && kind == 3))
    then read_port (take n s) (drop n s)
    else none
requested [] = none
requested (_ ∷ []) = none
requested (_ ∷ _ ∷ []) = none
requested (_ ∷ _ ∷ _ ∷ []) = none
requested (_ ∷ _ ∷ _ ∷ _ ∷ []) = none

pub take-front : (xs ys : Bytes) → take (length xs) (xs ++ ys) ≡ xs
take-front [] ys = refl
take-front (x ∷ xs) ys = ap (◌∷◌ x) (take-front xs ys)

pub drop-front : (xs ys : Bytes) → drop (length xs) (xs ++ ys) ≡ ys
drop-front [] ys = refl
drop-front (x ∷ xs) ys = drop-front xs ys

requested-request :
    (host : Bytes) (port : ℕ) → port < 2 ^ 16 → requested (request host port) ≡ some (host, port)
unfolding requested
requested-request host port h =
    rw (take-front host (put_uint16 port), drop-front host (put_uint16 port), uint16-put port h)
      refl

abbrev pub after : Bytes → Bytes → Conn
after left w = record { incoming = left; written = w; faults = [] }

read_full-front :
    (xs ys w : Bytes) (n : ℕ)
    → length xs ≡ n
    → read_full n (after (xs ++ ys) w) ≡ (ok xs, after ys w)
unfolding read_full
read_full-front xs ys w n e = rw (sym e, ltb-front xs ys, take-front xs ys, drop-front xs ys) refl
  where
    ltb-front : (xs ys : Bytes) → ltb (length (xs ++ ys)) (length xs) ≡ false
    ltb-front xs ys = ground (arith, length-append xs ys)

read_full-then :
    {A : Type 0} (xs ys w : Bytes) (n : ℕ) (k : Bytes → Call A)
    → length xs ≡ n
    → (read_full n >>= k) (after (xs ++ ys) w) ≡ k xs (after ys w)
read_full-then xs ys w n k e = ap (λ r. and_then r k) (read_full-front xs ys w n e)

abbrev finish : Bytes → Call Done
finish _ conn = (ok done, conn)

-- An address of its length and the two bytes of the port are read, and nothing else.
discard-address :
    (address rest w : Bytes) (port n : ℕ)
    → length address + 2 ≡ n
    → discard n (after ((address ++ put_uint16 port) ++ rest) w) ≡ (ok done, after rest w)
discard-address address rest w port n e =
    read_full-then (address ++ put_uint16 port) rest w n finish
      (length-append address (put_uint16 port) ∙ e)

abbrev kind_of : Bound → ℕ
kind_of (ipv4 _) = 1
kind_of (domain _) = 3
kind_of (ipv6 _) = 4

abbrev behind_kind : Bound → Bytes
behind_kind (ipv4 address) = address
behind_kind (domain name) = length name ∷ name
behind_kind (ipv6 address) = address

discard_address-Bound :
    (bound : Bound) (port : ℕ) (rest w : Bytes)
    → Fits bound
    → discard_address (kind_of bound) (after ((behind_kind bound ++ put_uint16 port) ++ rest) w)
      ≡ (ok done, after rest w)
unfolding discard_address
discard_address-Bound (ipv4 address) port rest w fits =
    discard-address address rest w port 6 (omega arith)
discard_address-Bound (domain name) port rest w fits =
    read_full-then (length name ∷ []) ((name ++ put_uint16 port) ++ rest) w 1 discard_domain refl
    ∙ discard-address name rest w port (length name + 2) refl
discard_address-Bound (ipv6 address) port rest w fits =
    discard-address address rest w port 18 (omega arith)

socks5_connect-reads :
    (host : Bytes) (port : ℕ) (bound : Bound) (bound_port : ℕ) (rest w : Bytes)
    → length host < 256
    → socks5_connect host port (
        after
          (5
            ∷ 0
            ∷ 5
            ∷ 0
            ∷ 0
            ∷ kind_of bound
            ∷ ((behind_kind bound ++ put_uint16 bound_port) ++ rest))
          w)
      ≡ discard_address (kind_of bound) (
          after
            ((behind_kind bound ++ put_uint16 bound_port) ++ rest)
            ((w ++ greeting) ++ request host port))
unfolding socks5_connect text_eq
socks5_connect-reads host port bound bound_port rest w h =
    let tail_bytes = (behind_kind bound ++ put_uint16 bound_port) ++ rest in
    let fits : ltb (length host) 256 ≡ true = ground arith in
    read_full-then (5 ∷ 0 ∷ []) (5 ∷ 0 ∷ 0 ∷ kind_of bound ∷ tail_bytes) (w ++ greeting) 2
      (with_method host port) refl
    ∙ rw fits (
        read_full-then (5 ∷ 0 ∷ 0 ∷ kind_of bound ∷ []) tail_bytes
          ((w ++ greeting) ++ request host port) 4 with_head refl)

answers-kind :
    (bound : Bound) (port : ℕ) (rest : Bytes)
    → answers bound port ++ rest
      ≡ 5 ∷ 0 ∷ 5 ∷ 0 ∷ 0 ∷ kind_of bound ∷ ((behind_kind bound ++ put_uint16 port) ++ rest)
answers-kind (ipv4 address) port rest = refl
answers-kind (domain name) port rest = refl
answers-kind (ipv6 address) port rest = refl

-- Through a proxy that grants the connection, with an address of any type, socks5Connect succeeds: it
-- has written the greeting and a request which reads as the host and the port, and has read the answers
-- of the proxy and no byte of what follows them. The host has less than 256 bytes, the port fits in 16
-- bits, and no write fails.
pub socks5_connect-Connects :
    (host : Bytes) (port : ℕ) (bound : Bound) (bound_port : ℕ) (rest w : Bytes)
    → length host < 256
    → port < 2 ^ 16
    → Fits bound
    → (sent : Bytes) × (socks5_connect host port (after (answers bound bound_port ++ rest) w)
        ≡ (ok done, after rest ((w ++ greeting) ++ sent)))
      × (requested sent ≡ some (host, port))
socks5_connect-Connects host port bound bound_port rest w short small fits = (
  request host port,
  ap (λ s. socks5_connect host port (after s w)) (answers-kind bound bound_port rest)
      ∙ socks5_connect-reads host port bound bound_port rest w short
      ∙ discard_address-Bound bound bound_port rest ((w ++ greeting) ++ request host port) fits,
  requested-request host port small,
)
