-- ===== src/Packet.antt =====
-- wlms/packet/packet.go: the wire format. A packet is a two-byte big-endian length, which counts
-- itself, and strings that end in a zero byte. A stream is the list of the bytes that will come.
mod Decimal
pub mod Decode
pub mod RoundTrip
pub mod Numbers
unfoldable pub use Decimal.*
unfoldable pub use Decode.*
