-- ===== src/Worker/Answers.antt =====
-- The packets that the handler of swimprotocol/worker.py sends for each packet that it handles.
use mathlib.Core.List.{append_assoc, append-nil}
use swim_protocol.Prelude.{
  ℕ, ◌≡◌, ◌≢◌, ◌∙◌, refl, sym, ap, subst, true, Text, Bytes, List, [], ◌∷◌, ◌++◌, Option, none,
  some, arith,
}
use swim_protocol.Result.{Result, ok, raise, and_then}
use swim_protocol.Status.{Status}
use swim_protocol.Status.Transition.{IsReal}
use swim_protocol.Packet.{
  Packet, Source, Metadata, ping, ping_req, ack, gossip, gossip_ack, source_of,
}
use swim_protocol.Member.{Member}
use swim_protocol.Members.{Members}
use swim_protocol.Members
use swim_protocol.Members.Valid
use swim_protocol.Members.History.{gets, step}
use swim_protocol.Members.LocalName.{local-step}
use swim_protocol.Members.Known.{has, has-get_self, apply_accepted}
use swim_protocol.Members.Sources.{
  source_at, source_at-update_from, source_at-get, source_at-get_new,
}
use swim_protocol.Members.Sources
use swim_protocol.Worker.Defs.{
  Worker, source_or, source_named, local_source, send, add_listening, notify_waiting, get_listening,
  handle_status, get_member, apply_gossip, send_acks, arrive, dispatch, handle,
}
use swim_protocol.Worker.Valid.{
  IsValid, handle_status-IsValid, members-handle_status, get_member-IsValid,
}
use swim_protocol.Worker.Handled.{IsRealPacket, members-arrive, arrive-IsValid}

abbrev pub acks : Source → List Text → List (Text × Packet)
acks source [] = []
acks source (target ∷ targets) = (target, ack source) ∷ acks source targets

-- Who waits to hear from a member.
abbrev pub or_nobody : Option (List Text) → List Text
or_nobody none = []
or_nobody (some targets) = targets

abbrev pub listeners : Worker → Text → List Text
listeners w name = or_nobody (w.listening name)

abbrev pub answers : Source → Packet → List (Text × Packet)
answers local (ping source) = (source.name, ack local) ∷ []
answers local (ping_req source target) = (target, ping local) ∷ []
answers local (ack source) = []
answers local (gossip source name clock status metadata) =
    (source.name, gossip_ack local name clock) ∷ []
answers local (gossip_ack source name clock) = []

source_or_same :
    (name : Text) (o o' : Option Member)
    → Sources.source_of o ≡ Sources.source_of o'
    → source_or name o ≡ source_or name o'
source_or_same name none none e = refl
source_or_same name none (some m) e = cc
source_or_same name (some m) none e = cc
source_or_same name (some m) (some m') e = cc

source_or_lem :
    (name : Text) (o : Option Member) (source : Source)
    → Sources.source_of o ≡ some source
    → source_or name o ≡ source
source_or_lem name none source e = cc
source_or_lem name (some m) source e = cc

-- The source of the local member stays the same.
local_source-get :
    (name : Text) (validity : Option Bytes) (random : Bytes) (now : ℕ) (s : Members)
    → Valid.IsValid s
    → local_source (Members.get name validity random now s) ≡ local_source s
unfolding step
local_source-get name validity random now s v =
    let s' = Members.get name validity random now s in
    let same = local-step (gets name validity random now) s in
    subst (λ l. source_or l (s'.members l) ≡ local_source s) (sym same)
      (source_or_same s.local (s'.members s.local) (s.members s.local)
        (source_at-get name validity random now s v))

local_source-apply :
    (name source : Text) (clock : ℕ) (status : Status) (metadata : Option Metadata) (now : ℕ)
    (s : Members)
    → local_source (Members.apply name source clock status metadata now s).1 ≡ local_source s
unfolding step Members.apply
local_source-apply name source clock status metadata now s =
    let s' = (Members.apply name source clock status metadata now s).1 in
    let same = local-step (Members.History.applies name source clock status metadata now) s in
    subst (λ l. source_or l (s'.members l) ≡ local_source s) (sym same)
      (source_or_same s.local (s'.members s.local) (s.members s.local)
        (source_at-update_from name (some source) clock (some status) metadata now s s.local))

sent-send_acks :
    (source : Source) (targets : List Text) (w : Worker)
    → (send_acks source targets w).send_queue ≡ w.send_queue ++ acks source targets
unfolding send_acks send
sent-send_acks source [] w = sym (append-nil w.send_queue)
sent-send_acks source (target ∷ targets) w =
    sent-send_acks source targets (send target (ack source) w)
    ∙ append_assoc w.send_queue ((target, ack source) ∷ []) (acks source targets)

sent-notify_waiting :
    (name : Text) (w : Worker)
    → ((notify_waiting name w).send_queue ≡ w.send_queue)
      × ((notify_waiting name w).listening ≡ w.listening)
      × ((notify_waiting name w).members ≡ w.members)
unfolding notify_waiting
sent-notify_waiting name w = (ground arith, ground arith, ground arith)

-- What every packet of another member sends first.
sent-arrive :
    (source : Source) (random : Text → Bytes) (now : ℕ) (w : Worker)
    → IsValid w
    → source.name ≢ w.members.local
    → (arrive source random now w).send_queue
      ≡ w.send_queue ++ acks source (listeners w source.name)
unfolding arrive get_listening
sent-arrive source random now w v other =
    let w1 = get_member source.name (some source.validity) random now w in
    let (queued, heard, known) = sent-notify_waiting source.name w1 in
    let new : source_named source.name (notify_waiting source.name w1).members ≡ source =
      ap (source_named source.name) known
      ∙ source_or_lem source.name (w1.members.members source.name) source (
          source_at-get_new source.name source.validity (random source.name) now w.members
            v.registry other) in
    let heard_by : listeners (notify_waiting source.name w1) source.name ≡ listeners w source.name =
      ap (λ (l : Text → Option (List Text)). or_nobody (l source.name)) heard in
    let w2 = notify_waiting source.name w1 in
    let told = source_named source.name w2.members in
    let targets = listeners w2 source.name in
    sent-send_acks told targets (get_listening source.name w2).1
    ∙ ap (λ (q : List (Text × Packet)). q ++ acks told targets) queued
    ∙ ap (λ (f : Source). w.send_queue ++ acks f targets) new
    ∙ ap (λ (l : List Text). w.send_queue ++ acks source l) heard_by

sent-handle_status :
    (target : Text) (status : Status) (w : Worker)
    → (handle_status target status w).send_queue ≡ w.send_queue
unfolding handle_status
sent-handle_status target status w = ground arith

-- Gossip with a real status about a member of the registry is applied, and answered.
answered :
    (source name : Text) (clock : ℕ) (status : Status) (metadata : Option Metadata) (now : ℕ)
    (w : Worker)
    → IsReal status
    → has w.members name ≡ true
    → IsValid w
    → ((apply_gossip source name clock status metadata now w).0
        ≡ ok (gossip_ack (local_source w.members) name clock))
      × ((apply_gossip source name clock status metadata now w).1.send_queue ≡ w.send_queue)
unfolding apply_gossip
answered source name clock status metadata now w real there v =
    let w1 = handle_status name status w in
    let same = members-handle_status name status w in
    let v1 = handle_status-IsValid name status w there v in
    let there1 : has w1.members name ≡ true = subst (λ s. has s name ≡ true) (sym same) there in
    let local : local_source (Members.apply name source clock status metadata now w1.members).1
        ≡ local_source w.members =
      local_source-apply name source clock status metadata now w1.members
      ∙ ap (λ (s : Members). local_source s) same in
    rw (apply_accepted name source clock status metadata now w1.members v1.registry real there1)
      (ap (λ (f : Source). ok (gossip_ack f name clock)) local, sent-handle_status name status w)

sent-answer :
    (target : Text) (answer : Packet) (r : Result Packet × Worker)
    → r.0 ≡ ok answer
    → (and_then r (λ p w. (ok tt, send target p w))).1.send_queue
      ≡ r.1.send_queue ++ (target, answer) ∷ []
unfolding send
sent-answer target answer (ok p, w) e =
    let same : p ≡ answer = cc in ap (λ (q : Packet). w.send_queue ++ (target, q) ∷ []) same
sent-answer target answer (raise x, w) e = cc

sent-dispatch :
    (packet : Packet) (random : Text → Bytes) (now : ℕ) (w : Worker)
    → IsRealPacket packet
    → IsValid w
    → (dispatch packet random now w).1.send_queue
      ≡ w.send_queue ++ answers (local_source w.members) packet
unfolding dispatch send add_listening
sent-dispatch (ping source) random now w real v = refl
sent-dispatch (ping_req source target) random now w real v =
    ap (λ (f : Source). w.send_queue ++ (target, ping f) ∷ [])
      (local_source-get target none (random target) now w.members v.registry)
sent-dispatch (ack source) random now w real v = sym (append-nil w.send_queue)
sent-dispatch (gossip source name clock status metadata) random now w real v =
    let w1 = get_member name none random now w in
    let (told, kept) =
      answered source.name name clock status metadata now w1 real
        (has-get_self name none (random name) now w.members)
        (get_member-IsValid name none random now w v) in
    sent-answer source.name (gossip_ack (local_source w1.members) name clock)
      (apply_gossip source.name name clock status metadata now w1) told
    ∙ ap
        (λ (q : List (Text × Packet)).
          q ++ (source.name, gossip_ack (local_source w1.members) name clock) ∷ [])
        kept
    ∙ ap (λ (f : Source). w.send_queue ++ (source.name, gossip_ack f name clock) ∷ [])
        (local_source-get name none (random name) now w.members v.registry)
sent-dispatch (gossip_ack source name clock) random now w real v = sym (append-nil w.send_queue)

-- In a valid worker the handling of a packet of another member, whose status, if any, is real, sends
-- an `Ack` with the packet's source to everyone who listens to that member, and then the answer to the
-- packet: an `Ack` for a `Ping`, a `Ping` of the target for a `PingReq`, a `GossipAck` of the same
-- name and clock for a `Gossip`, and nothing else; each answer has the local member as its source.
pub sent-handle :
    (packet : Packet) (random : Text → Bytes) (now : ℕ) (w : Worker)
    → IsRealPacket packet
    → IsValid w
    → (source_of packet).name ≢ w.members.local
    → (handle packet random now w).1.send_queue
      ≡ w.send_queue
        ++ (acks (source_of packet) (listeners w (source_of packet).name)
            ++ answers (local_source w.members) packet)
unfolding handle
sent-handle packet random now w real v other =
    let source = source_of packet in
    let w1 = arrive source random now w in
    let local : local_source w1.members ≡ local_source w.members =
      ap (λ (s : Members). local_source s) (members-arrive source random now w)
      ∙ local_source-get source.name (some source.validity) (random source.name) now w.members
          v.registry in
    sent-dispatch packet random now w1 real (arrive-IsValid source random now w v)
    ∙ ap (λ (q : List (Text × Packet)). q ++ answers (local_source w1.members) packet)
        (sent-arrive source random now w v other)
    ∙ append_assoc w.send_queue (acks source (listeners w source.name)) _
    ∙ ap
        (λ (f : Source).
          w.send_queue ++ (acks source (listeners w source.name) ++ answers f packet))
        local
