-- ===== src/Cluster.antt =====
-- Nodes that run swimprotocol/worker.py each, and the network between them.
mod Defs
pub mod Packets
pub mod Reach
mod Tests
unfoldable pub use Defs.{join, deliver, step, run}
pub use Defs.{Cluster, Move, joins, acts, delivers, empty}
