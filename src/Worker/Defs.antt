-- ===== src/Worker/Defs.antt =====
-- swimprotocol/worker.py: the state of a `Worker`, its handler of packets, the tasks that wait
-- before a suspect is taken for offline, and the spreading of gossip. Members are their names, as in
-- the registry.
use swim_protocol.Prelude.{
  ℕ, suc, Bool, true, false, Text, Bytes, text_discrete, ℕ_discrete, List, [], ◌∷◌, ◌++◌, Option,
  none, some, ite, if◌then◌else◌,
}
use swim_protocol.Result.{Result, ok, and_then}
use swim_protocol.Status.{Status, offline, suspect, status_discrete}
use swim_protocol.Packet.{
  Metadata, Source, Packet, ping, ping_req, ack, gossip, gossip_ack, source_of,
}
use swim_protocol.Shuffle.{mem}
use swim_protocol.Member.{Member}
use swim_protocol.Member
use swim_protocol.Members.{Members}
use swim_protocol.Members

-- Objects are numbered as they are made: `is_set` tells which events are set, and `sleeping` which
-- tasks of `_suspect_wait` still sleep, each with its target. An event that no call of `_wait` holds
-- any longer stays in `waiting` here, where nobody asks for it.
pub record Worker : Type 0 where
  pub members : Members
  pub recv_queue : List Packet
  pub send_queue : List (Text × Packet)
  pub waiting : Text → Option (List ℕ)
  pub listening : Text → Option (List Text)
  pub suspects : Text → Option ℕ
  pub is_set : ℕ → Bool
  pub sleeping : ℕ → Option Text
  pub next_event : ℕ
  pub next_task : ℕ

-- `Worker(config, members)`
unfoldable pub init : Members → Worker
init members = record {
  members = members;
  recv_queue = [];
  send_queue = [];
  waiting = λ _. none;
  listening = λ _. none;
  suspects = λ _. none;
  is_set = λ _. false;
  sleeping = λ _. none;
  next_event = 0;
  next_task = 0;
}

-- `d[name] = value`, or `d.pop(name, None)` for none.
abbrev pub assign {ℓ} : {A : Type ℓ} → Text → Option A → (Text → Option A) → Text → Option A
assign name value d j = ite (text_discrete name j) value (d j)

abbrev pub assign_nth {ℓ} : {A : Type ℓ} → ℕ → A → (ℕ → A) → ℕ → A
assign_nth n value d j = ite (ℕ_discrete n j) value (d j)

-- `s.add(x)`, on a new set if there is none.
abbrev pub added : {A : Type 0} → Discrete A → A → Option (List A) → List A
added dec x none = x ∷ []
added dec x (some l) = if mem dec x l then l else l ++ x ∷ []

-- `member.source` of the member with a name.
abbrev pub source_or : Text → Option Member → Source
source_or name none = record { name = name; validity = [] }
source_or name (some m) = Member.source m

abbrev pub source_named : Text → Members → Source
source_named name s = source_or name (s.members name)

abbrev pub local_source : Members → Source
local_source s = source_named s.local s

unfoldable pub send : Text → Packet → Worker → Worker
send target packet w = record w { send_queue = w.send_queue ++ (target, packet) ∷ [] }

unfoldable pub add_waiting : Text → ℕ → Worker → Worker
add_waiting member event w = record w {
  waiting = assign member (some (added ℕ_discrete event (w.waiting member))) w.waiting;
}

unfoldable pub add_listening : Text → Text → Worker → Worker
add_listening member target w = record w {
  listening = assign target (some (added text_discrete member (w.listening target))) w.listening;
}

unfoldable pub set_all : List ℕ → (ℕ → Bool) → ℕ → Bool
set_all [] is_set = is_set
set_all (event ∷ events) is_set = set_all events (assign_nth event true is_set)

unfoldable pub notify_waiting : Text → Worker → Worker
notify_waiting member w = elim (w.waiting member) [
  | none ↦ w
  | some events ↦ record w { is_set = set_all events w.is_set }
]

-- `_get_listening(member)`, in the order in which they came.
unfoldable pub get_listening : Text → Worker → List Text × Worker
get_listening member w = (
  elim (w.listening member) [ none ↦ [] | some targets ↦ targets ],
  record w { listening = assign member none w.listening },
)

unfoldable pub build_gossip : Source → Member → Packet
build_gossip local m = gossip local m.name m.clock m.status m.metadata_dict

-- `asyncio.create_task(self._suspect_wait(target))`, and `suspect_task.cancel()`: a task that is
-- cancelled never wakes.
abbrev pub start_suspect : Text → Worker → Worker
start_suspect target w = record w {
  suspects = assign target (some w.next_task) w.suspects;
  sleeping = assign_nth w.next_task (some target) w.sleeping;
  next_task = suc w.next_task;
}

abbrev pub cancel : Text → ℕ → Worker → Worker
cancel target task w = record w {
  suspects = assign target none w.suspects;
  sleeping = assign_nth task none w.sleeping;
}

unfoldable pub handle_status : Text → Status → Worker → Worker
handle_status target status w =
    ite (status_discrete status suspect)
      (elim (w.suspects target) [ none ↦ start_suspect target w | some task ↦ w ])
      (elim (w.suspects target) [ none ↦ w | some task ↦ cancel target task w ])

-- A method of the registry, called on the registry of the worker.
abbrev pub on_members {ℓ} : {A : Type ℓ} → Result A × Members → Worker → Result A × Worker
on_members (r, s) w = (r, record w { members = s })

abbrev pub get_member : Text → Option Bytes → (Text → Bytes) → ℕ → Worker → Worker
get_member name validity random now w = record w {
  members = Members.get name validity (random name) now w.members;
}

-- `_suspect_wait(target)` from the end of its sleep on, if it has not been cancelled.
unfoldable pub suspect_wait_end : ℕ → ℕ → Worker → Result (Unit {0}) × Worker
suspect_wait_end task now w = elim (w.sleeping task) [
  | none ↦ (ok tt, w)
  | some target ↦
      and_then
        (on_members (Members.update target (some offline) none now w.members)
          (record w { sleeping = assign_nth task none w.sleeping }))
        λ _ w1. (ok tt, record w1 { suspects = assign target none w1.suspects })
]

unfoldable pub apply_gossip :
    Text → Text → ℕ → Status → Option Metadata → ℕ → Worker → Result Packet × Worker
apply_gossip source name clock status metadata now w =
    let w1 = handle_status name status w in
    and_then (on_members (Members.apply name source clock status metadata now w1.members) w1)
      λ _ w2. (ok (gossip_ack (local_source w2.members) name clock), w2)

unfoldable pub send_acks : Source → List Text → Worker → Worker
send_acks source [] w = w
send_acks source (target ∷ targets) w = send_acks source targets (send target (ack source) w)

-- The loop body of `_run_handler`, for every packet and then by its class.
unfoldable pub arrive : Source → (Text → Bytes) → ℕ → Worker → Worker
arrive source random now w =
    let w1 =
      notify_waiting source.name (get_member source.name (some source.validity) random now w) in
    let (targets, w2) = get_listening source.name w1 in
    send_acks (source_named source.name w2.members) targets w2

unfoldable pub dispatch : Packet → (Text → Bytes) → ℕ → Worker → Result (Unit {0}) × Worker
dispatch (ping source) random now w = (ok tt, send source.name (ack (local_source w.members)) w)
dispatch (ping_req source target) random now w =
    let w1 = get_member target none random now w in
    (ok tt, add_listening source.name target (send target (ping (local_source w1.members)) w1))
dispatch (ack source) random now w = (ok tt, w)
dispatch (gossip source name clock status metadata) random now w =
    and_then
      (apply_gossip source.name name clock status metadata now (get_member name none random now w))
      λ answer w1. (ok tt, send source.name answer w1)
dispatch (gossip_ack source name clock) random now w =
    let w1 = get_member name none random now w in
    on_members (Members.ack_gossip name source.name clock w1.members) w1

unfoldable pub handle : Packet → (Text → Bytes) → ℕ → Worker → Result (Unit {0}) × Worker
handle packet random now w = dispatch packet random now (arrive (source_of packet) random now w)

-- `disseminate(target)`: the gossip for the members with these names.
unfoldable pub send_gossip : Text → List Text → Worker → Worker
send_gossip target [] w = w
send_gossip target (name ∷ names) w = elim (w.members.members name) [
  | none ↦ send_gossip target names w
  | some m ↦ send_gossip target names (send target (build_gossip (local_source w.members) m) w)
]

unfoldable pub disseminate : Text → Worker → Worker
disseminate target w = elim (w.members.members target) [
  | none ↦ w
  | some m ↦ send_gossip target (Members.get_gossip m w.members) w
]
