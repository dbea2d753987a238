-- ===== src/Packet.antt =====
-- swimprotocol/packet.py: the packets of the protocol. The subclasses of `Packet` are the
-- constructors, each with the `source` that every packet has.
use swim_protocol.Prelude.{ℕ, Text, Bytes, List, Option}
use swim_protocol.Status.{Status}

-- A `Mapping[str, bytes]`, with each key once.
abbrev pub Metadata : Type 0
Metadata = List (Text × Bytes)

pub record Source : Type 0 where
  pub name : Text
  pub validity : Bytes

pub data Packet : Type 0 where
  ping : Source → Packet
  ping_req : Source → Text → Packet
  ack : Source → Packet
  gossip : Source → Text → ℕ → Status → Option Metadata → Packet
  gossip_ack : Source → Text → ℕ → Packet

unfoldable pub source_of : Packet → Source
source_of (ping s) = s
source_of (ping_req s target) = s
source_of (ack s) = s
source_of (gossip s name clock status metadata) = s
source_of (gossip_ack s name clock) = s
