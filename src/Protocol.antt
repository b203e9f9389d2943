-- ===== src/Protocol.antt =====
-- internal/protocol: the wire formats, the mmtls channel and the session pool.
pub mod Varint
pub mod Protobuf
pub mod Lz4
pub mod BigEndian
pub mod Record
pub mod Shortlink
pub mod Handshake
pub mod WpkgHead
pub mod Values
pub mod LoginBuffer
pub mod Json
pub mod Pool
pub mod NewDns
pub mod Hello
pub mod Socks
