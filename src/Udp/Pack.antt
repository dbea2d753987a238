-- ===== src/Udp/Pack.antt =====
-- swimprotocol/udp/pack.py: `UdpPack`, the packets as signed byte strings.
mod Defs
pub mod RoundTrip
pub mod Codec
mod Tests
unfoldable pub use Defs.{init, struct_pack, struct_unpack, xor_zip, pack, unpack_parts, unpack}
pub use Defs.{Pickle, UdpPack}
