-- ===== src/Status.antt =====
-- swimprotocol/status.py: the flags of `Status`, aggregates included, and `transition`.
mod Defs
pub mod Transition
mod Tests
unfoldable pub use Defs.{status_discrete, transition}
pub use Defs.{
  Status, flags, online, offline, suspect, available, unavailable, all, flag_or, flag_and, is_set,
  all_statuses,
}
