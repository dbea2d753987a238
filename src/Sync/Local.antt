-- ===== src/Sync/Local.antt =====
-- What `_read_local` of swimprotocol/sync.py reads, and what `_write_member` of another node makes of it.
use swim_protocol.Result.{Result}
use swim_protocol.Member.{Member}
