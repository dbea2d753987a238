-- ===== src/Lib.antt =====
-- swim-protocol: a library for cluster membership by the SWIM protocol, in Python. Every node keeps a
-- registry of the members of the cluster, detects failures by ping packets and spreads changes by
-- gossip. This library models the parts that decide what a node believes of the cluster, and the way
-- from a packet to bytes and back.
--
-- The parts, each with the file of the program that it is about:
-- - Status: swimprotocol/status.py. A status is a set of three bits; `transition` is the guard of
--   every change of status.
-- - Shuffle: swimprotocol/shuffle.py, `WeakShuffle`: the elements, the dictionary of indexes and the
--   list of values that `choice` draws from. Shuffle/Content is about the set, Shuffle/Draws and
--   Shuffle/Choice about the list, Shuffle/History about sequences of operations.
-- - Packet: swimprotocol/packet.py.
-- - Listener: swimprotocol/listener.py. A `poll` is two steps, up to its wait and after it.
--   Listener/Callback is `CallbackPoll`, with its turns between the calls of `notify`.
-- - Tasks: swimprotocol/tasks.py. A task is a number.
-- - Member: swimprotocol/members.py, `Member` with its pending changes. `update` is the sequence of
--   `_set_clock`, `_set_status`, `_set_metadata` and `_save` that `Members._update` calls. A method that
--   raises keeps what it had assigned, so that a call returns the member beside its result.
-- - Members: swimprotocol/members.py, `Members`. A member object is shared by the registry and the
--   shuffles; it stands once in the model, under its name, and every other place holds the name.
--   Members/Valid has the invariant, Members/History and Members/Runs the histories of calls, and
--   Members/Sized counts the names that `find` wants.
-- - Worker: swimprotocol/worker.py. Worker/Defs has the handler of packets, the tasks that wait before a
--   suspect is taken for offline, and `disseminate`; Worker/Checks has `check`, cut where it waits;
--   Worker/Schedule runs such parts of tasks in any order, as one action each. An action has the time
--   and the random bytes and draws that it uses. Worker/Reach has the invariant of all schedules,
--   Worker/Sends and Worker/Steps what an action sends and takes from the queues.
-- - Cluster: nodes side by side, as `run` of swimprotocol/demo/__init__.py starts them, and the packets
--   between them. A packet stays in the queue of its sender and may arrive at any time and any number
--   of times, as with datagrams. What arrives was sent by a node. A node may start under any name; that
--   no name is used again is a condition of the theorem, not of the model.
-- - Sign: swimprotocol/sign.py. Udp/Pack: swimprotocol/udp/pack.py. Address: swimprotocol/address.py.
-- - Udp/Transfer: swimprotocol/udp/send.py and swimprotocol/udp/protocol.py, from a packet that is
--   sent to the queue of the receiving node.
-- - Config: swimprotocol/config.py. Keyword arguments are a record with an option for each key;
--   Config/Rstrip and Config/Split are about the text of the environment.
-- - Udp/Config: swimprotocol/udp/config.py, with the discovery of peers, and what the transport of
--   swimprotocol/udp/__init__.py binds to.
-- - Sync: swimprotocol/sync.py, how `_write_member` keeps the directories of the statuses and, in
--   Sync/Files, the files of the metadata in the directory of the member, which `_read_local` reads;
--   Sync/Cleanup is `_cleanup`.
-- - Demo: swimprotocol/demo/screen.py, the keys that are typed into the metadata of the local member, and
--   swimprotocol/demo/changes.py, the random token there. Demo/Configured is about the metadata of a
--   configuration from arguments, Demo/Fresh about those of a new registry.
-- Prelude and Result are the helpers that the parts share: lists over native numbers, text as lists of
-- numbers, and exceptions as values.
--
-- `Worker` calls `Members` and keeps its own state beside it; `Members` calls `Member.update`,
-- `Status.transition` through it, the shuffles and the listener; `Sync` calls `Members`; `Udp.Pack` calls
-- `Sign`, and packs what `Packet` declares; `Udp.Transfer` calls `Udp.Pack` and
-- `Address`; `Udp.Config` calls `Config` and `Address`.
--
-- Parameters: the digest and the comparison of hmac, pickle, `int` and `str` on integers, random bytes,
-- the time, the random draws, the environment and its files, the answers of the resolver and of a
-- socket, the calls of `os` on links and files (those on files with laws for names that a file can
-- have, since a key of the metadata need not be one), and the order of a set. Each has the documented laws
-- that the proofs use. Clocks, times and lengths are natural numbers. The one loop without a bound, in
-- `Members.find`, takes the list of its draws and returns none when they run out; once
-- every index was drawn, in any order, it returns. Of a WeakSet of events, and of a set of members, the
-- model takes the order of insertion.
--
-- Not modelled: asyncio itself, the sockets and the set-up of the transports, the start and the end of
-- the process in swimprotocol/sync.py, and what the demo draws. Members are never collected, since the
-- registry holds them.
pub mod Prelude
pub mod Result
pub mod Status
pub mod Shuffle
pub mod Packet
pub mod Sign
pub mod Udp
pub mod Listener
pub mod Member
pub mod Members
pub mod Address
pub mod Worker
pub mod Config
pub mod Tasks
pub mod Sync
pub mod Cluster
pub mod Demo
