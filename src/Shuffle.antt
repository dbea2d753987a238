-- ===== src/Shuffle.antt =====
-- swimprotocol/shuffle.py: `WeakShuffle`.
mod Defs
pub mod Content
pub mod Draws
pub mod Choice
pub mod History
mod Tests
unfoldable pub use Defs.{
  remove_at, mem, without, index_of, pop_index, finalize, contains, len, add, discard, init, choice,
}
pub use Defs.{Shuffle, empty}
