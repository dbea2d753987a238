-- ===== src/Demo.antt =====
-- swimprotocol/demo/: what the demo does to the metadata of its local member.
mod Defs
pub mod Items
pub mod Keys
pub mod Typed
pub mod Fresh
pub mod Configured
pub mod Token
mod Tests
unfoldable pub use Defs.{
  is_printable, update_item, set_typed, press, presses, randomize, randomize_local,
}
pub use Defs.{ℤ, pos, negsuc, Screen}
