-- ===== src/Protocol/Socks.antt =====
-- internal/protocol/transport.go: socks5Connect, over the bytes that a connection gives and takes.
pub mod Connect
mod Tests
use yyb_go.Prelude.{
  ℕ, ◌+◌, Bool, true, false, not, ◌&&◌, List, [], ◌∷◌, ◌++◌, Option, none, some, Bytes, length,
  take, drop, ltb, ◌==◌, if◌then◌else◌,
}
use yyb_go.Prelude.Outcome.{Outcome, ok, err, panic}
use yyb_go.Prelude.Text.{text_eq}
use yyb_go.Protocol.BigEndian.{put_uint16}

-- A connection: the bytes that the other side sends before it closes, those written so far, and whether
-- each of the next writes fails; the writes behind the end of that list succeed.
pub record Conn : Type 0 where
  pub incoming : Bytes
  pub written : Bytes
  pub faults : List Bool

pub data Error : Type 0 where
  write_failed short_read negotiation_failed host_too_long connect_failed : Error
  unsupported_address : Error

-- The result of a call that only returns an error.
pub data Done : Type 0 where
  done : Done

-- A call on a connection: what it returns, and the connection behind it.
abbrev pub Call : Type 0 → Type 0
Call A = Conn → Outcome Error A × Conn

module _ {A B : Type 0} where
  abbrev pub and_then : Outcome Error A × Conn → (A → Call B) → Outcome Error B × Conn
  and_then (ok a, conn) k = k a conn
  and_then (err e, conn) k = (err e, conn)
  and_then (panic, conn) k = (panic, conn)

  infixl 5 ◌>>=◌ ◌>>◌
  abbrev pub ◌>>=◌ : Call A → (A → Call B) → Call B
  m >>= k = λ conn. and_then (m conn) k

  abbrev pub ◌>>◌ : Call A → Call B → Call B
  m >> n = m >>= λ _. n

abbrev write_on : List Bool → Bytes → Call Done
write_on [] data_bytes conn =
    (ok done, record conn { written = conn.written ++ data_bytes; faults = [] })
write_on (true ∷ faults) data_bytes conn = (err write_failed, record conn { faults = faults })
write_on (false ∷ faults) data_bytes conn =
    (ok done, record conn { written = conn.written ++ data_bytes; faults = faults })

abbrev pub write : Bytes → Call Done
write data_bytes conn = write_on conn.faults data_bytes conn

-- io.ReadFull of so many bytes; all that was left is gone where there are fewer. io.CopyN to io.Discard
-- is the same without the bytes.
unfoldable pub read_full : ℕ → Call Bytes
read_full n conn =
    if ltb (length conn.incoming) n
    then (err short_read, record conn { incoming = [] })
    else (ok (take n conn.incoming), record conn { incoming = drop n conn.incoming })

abbrev pub discard : ℕ → Call Done
discard n = read_full n >>= λ _ conn. (ok done, conn)

abbrev pub require : Bool → Error → Call Done
require true e conn = (ok done, conn)
require false e conn = (err e, conn)

-- The greeting: version 5, and one method, which is none.
abbrev pub greeting : Bytes
greeting = 5 ∷ 1 ∷ 0 ∷ []

-- The length is a byte, and the port is cut to 16 bits.
abbrev pub request : Bytes → ℕ → Bytes
request host port = 5 ∷ 1 ∷ 0 ∷ 3 ∷ length host ∷ (host ++ put_uint16 port)

-- Four bytes: the version, the reply, a reserved byte, and the type of the address.
abbrev pub is_granted : Bytes → Bool
is_granted [] = false
is_granted (version ∷ []) = false
is_granted (version ∷ reply ∷ _) = version == 5 && reply == 0

abbrev pub address_type : Bytes → Outcome Error ℕ
address_type (_ ∷ _ ∷ _ ∷ kind ∷ _) = ok kind
address_type (_ ∷ _ ∷ _ ∷ []) = panic
address_type (_ ∷ _ ∷ []) = panic
address_type (_ ∷ []) = panic
address_type [] = panic

-- `ln[0]`
abbrev pub discard_domain : Bytes → Call Done
discard_domain [] conn = (panic, conn)
discard_domain (n ∷ _) conn = discard (n + 2) conn

-- The address that the proxy is bound to, and its port.
unfoldable pub discard_address : ℕ → Call Done
discard_address kind conn =
    if kind == 1
    then discard 6 conn
    else if kind == 3
    then (read_full 1 >>= discard_domain) conn
    else if kind == 4
    then discard 18 conn
    else (err unsupported_address, conn)

-- What follows the head of the reply.
abbrev pub with_head : Bytes → Call Done
with_head head = do
  require (is_granted head) connect_failed
  kind ← (λ conn. (address_type head, conn))
  discard_address kind

-- What follows the answer to the greeting.
abbrev pub with_method : Bytes → ℕ → Bytes → Call Done
with_method host port buf = do
  require (text_eq buf (5 ∷ 0 ∷ [])) negotiation_failed
  require (ltb (length host) 256) host_too_long
  write (request host port)
  head ← read_full 4
  with_head head

unfoldable pub socks5_connect : Bytes → ℕ → Call Done
unfolding read_full discard_address
socks5_connect host port = do write greeting; buf ← read_full 2; with_method host port buf
