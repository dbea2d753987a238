-- ===== src/Sync.antt =====
-- swimprotocol/sync.py: the directories of the statuses, kept for the members by the callback of the
-- listener.
pub mod Defs
pub mod Statuses
pub mod Files
pub mod Contents
pub mod Cleanup
mod Emptied
mod Cleared
mod Local
mod Samples
mod Tests
