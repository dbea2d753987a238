-- ===== src/Member.antt =====
-- swimprotocol/members.py: `Member`, one node of the cluster as this process sees it.
mod Defs
pub mod Update
pub mod Kept
pub mod Gossip
pub mod Given
pub mod Items
mod Tests
unfoldable pub use Defs.{
  snapshot, new, source, same_items, needs_gossip, set_clock, set_status, set_metadata, save,
  update,
}
pub use Defs.{Member, MemberSnapshot, is_some, if_given, metadata_of}
