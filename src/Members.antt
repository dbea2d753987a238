-- ===== src/Members.antt =====
-- swimprotocol/members.py: `Members`, the registry of the cluster.
mod Defs
pub mod Statuses
pub mod Valid
pub mod Keeps
pub mod Grows
pub mod History
pub mod LocalName
pub mod Known
pub mod Sources
pub mod Runs
pub mod Moves
pub mod Local
pub mod Dissemination
pub mod Quiet
mod Sized
pub mod Find
pub mod Samples
mod Tests
unfoldable pub use Defs.{
  refresh_loop, refresh_statuses, enrol_loop, get, update_from, update, apply, init, count_in,
  get_all, find_loop, find, gossip_among, get_gossip, ack_gossip,
}
pub use Defs.{Members, Config, put, finish, check_validity}
