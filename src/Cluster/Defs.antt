-- ===== src/Cluster/Defs.antt =====
-- Nodes that run swimprotocol/worker.py each. What a node has sent may arrive at its target later, any
-- number of times, in any order or never, as with datagrams; and a node may stop at any time, since
-- no node has to act.
use swim_protocol.Prelude.{
  ℕ, Text, Bytes, text_discrete, List, [], ◌∷◌, Option, none, some, ite, get_elem?,
}
use swim_protocol.Packet.{Packet}
use swim_protocol.Members.{Config}
use swim_protocol.Members
use swim_protocol.Worker
use swim_protocol.Worker.Schedule.{World, Action, receives, start}
use swim_protocol.Worker.Schedule

-- The nodes by name.
pub record Cluster : Type 0 where
  pub nodes : Text → Option World

abbrev pub empty : Cluster
empty = record { nodes = λ name. none }

-- A node starts; it does something by itself; a packet that it has sent arrives.
pub data Move : Type 0 where
  joins : Config → (Text → Bytes) → ℕ → Move
  acts : Text → Action → Move
  delivers : Text → ℕ → Move

abbrev pub put : Text → World → Cluster → Cluster
put name w c = record { nodes = λ j. ite (text_discrete name j) (some w) (c.nodes j) }

-- `Members(config)` and `Worker(config, members)`. Nothing is left of a node that had the name before.
unfoldable pub join : Config → (Text → Bytes) → ℕ → Cluster → Cluster
join config random now c =
    put config.local_name (start (Worker.init (Members.init config random now).1)) c

-- The packet is put into the queue of its target.
unfoldable pub receive : Text → Packet → Cluster → Cluster
receive target packet c = elim (c.nodes target) [
  | none ↦ c
  | some w ↦ put target (Schedule.step (receives packet) w) c
]

-- The packet at a place of the node's queue of sent packets arrives.
unfoldable pub deliver : Text → ℕ → Cluster → Cluster
deliver name i c = elim (c.nodes name) [
  | none ↦ c
  | some w ↦ (elim (get_elem? w.worker.send_queue i) [
    | none ↦ c
    | some (target, packet) ↦ receive target packet c
  ])
]

unfoldable pub step : Move → Cluster → Cluster
step (joins config random now) c = join config random now c
step (acts name a) c = elim (c.nodes name) [ none ↦ c | some w ↦ put name (Schedule.step a w) c ]
step (delivers name i) c = deliver name i c

unfoldable pub run : List Move → Cluster → Cluster
run [] c = c
run (m ∷ moves) c = run moves (step m c)
