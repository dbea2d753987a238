-- ===== src/Address.antt =====
-- swimprotocol/address.py: `Address` and `AddressParser`.
mod Defs
pub mod RoundTrip
pub mod Samples
mod Tests
unfoldable pub use Defs.{str, rpartition, parse}
pub use Defs.{Address, AddressParser, Integer}
