-- ===== src/Worker/Dissemination.antt =====
-- What `disseminate` of swimprotocol/worker.py sends.
use mathlib.Core.List.{append_assoc, append-nil}
use swim_protocol.Prelude.{
  ◌≡◌, ◌∙◌, refl, sym, ap, subst, Bool, true, false, ◌&&◌, ite, if◌then◌else◌, arith, Text,
  text_discrete, List, [], ◌∷◌, ◌++◌, Option, none, some, Option-cases, inl, inr,
}
use swim_protocol.Packet.{Packet, Source, ping, ping_req, ack, gossip, gossip_ack}
use swim_protocol.Shuffle.{mem}
use swim_protocol.Shuffle.Content.{IsDistinct}
use swim_protocol.Member.{Member}
use swim_protocol.Members.{Members}
use swim_protocol.Members
use swim_protocol.Members.Dissemination.{is_due, mem-get_gossip}
use swim_protocol.Worker.Defs.{Worker, local_source, send, build_gossip, send_gossip, disseminate}
use swim_protocol.Worker.Valid.{IsValid}

-- One packet for each of the names that has a member.
abbrev pub gossips : Source → Text → (Text → Option Member) → List Text → List (Text × Packet)
gossips local target members [] = []
gossips local target members (name ∷ names) = elim (members name) [
  | none ↦ gossips local target members names
  | some m ↦
      (target, gossip local m.name m.clock m.status m.metadata_dict)
      ∷ gossips local target members names
]

pub sent-send_gossip :
    (target : Text) (names : List Text) (w : Worker)
    → (send_gossip target names w).send_queue
      ≡ w.send_queue ++ gossips (local_source w.members) target w.members.members names
unfolding send_gossip send build_gossip
sent-send_gossip target [] w = sym (append-nil w.send_queue)
sent-send_gossip target (name ∷ names) w = elim (Option-cases (w.members.members name)) [
  | inl unknown ↦ rw (unknown, send_gossip, gossips) (sent-send_gossip target names w)
  | inr (m, found) ↦
      let w1 = send target (build_gossip (local_source w.members) m) w in
      rw (found, send_gossip, gossips)
        (sent-send_gossip target names w1 ∙ append_assoc w.send_queue _ _)
]

-- The packets of a queue that are gossip about a name.
abbrev pub about : Text → List (Text × Packet) → List (Text × Packet)
about n [] = []
about n ((target, gossip from name clock status metadata) ∷ queue) =
    ite (text_discrete name n) ((target, gossip from name clock status metadata) ∷ about n queue)
      (about n queue)
about n ((target, ping from) ∷ queue) = about n queue
about n ((target, ping_req from name) ∷ queue) = about n queue
about n ((target, ack from) ∷ queue) = about n queue
about n ((target, gossip_ack from name clock) ∷ queue) = about n queue

abbrev pub is_gossip : Packet → Bool
is_gossip (gossip from name clock status metadata) = true
is_gossip (ping from) = false
is_gossip (ping_req from name) = false
is_gossip (ack from) = false
is_gossip (gossip_ack from name clock) = false

abbrev pub all_gossip : List (Text × Packet) → Bool
all_gossip [] = true
all_gossip ((target, packet) ∷ queue) = is_gossip packet && all_gossip queue

-- What a target is told of the member under a name, if it is to be told.
abbrev told : Source → Text → Text → Option Member → Bool → List (Text × Packet)
told local target n none due = []
told local target n (some k) due =
    if due then (target, gossip local n k.clock k.status k.metadata_dict) ∷ [] else []

module _ (local : Source) (target : Text) (members : Text → Option Member)
    (named : (n : Text) (k : Member) → members n ≡ some k → k.name ≡ n) where
  all_gossip-gossips : (names : List Text) → all_gossip (gossips local target members names) ≡ true
  all_gossip-gossips [] = refl
  all_gossip-gossips (name ∷ names) = elim (Option-cases (members name)) [
    | inl unknown ↦ rw (unknown, gossips) (all_gossip-gossips names)
    | inr (m, found) ↦ rw (found, gossips) (all_gossip-gossips names)
  ]

  abbrev here : Text → Member → Text × Packet
  here name m = (target, gossip local name m.clock m.status m.metadata_dict)

  none_told : (n : Text) (o : Option Member) → [] ≡ told local target n o false
  none_told n none = refl
  none_told n (some k) = refl

  about-gossips :
      (n : Text) (names : List Text)
      → IsDistinct text_discrete names
      → about n (gossips local target members names)
        ≡ told local target n (members n) (mem text_discrete n names)
  unfolding mem
  about-gossips n [] d = none_told n (members n)
  about-gossips n (name ∷ names) (fresh, d) = elim (Option-cases (members name)) [
    | inl unknown ↦
        rw (unknown, gossips)
          (about-gossips n names d ∙ elim (text_discrete name n) [
            | yes e ↦ let gone = ap members (sym e) ∙ unknown in ground arith
            | no ne ↦ ground arith
          ])
    | inr (m, found) ↦
        rw (found, gossips, named name m found)
          (elim (text_discrete name n) [
            | yes e ↦
                subst
                  (λ (k : Text).
                    about k (here name m ∷ gossips local target members names)
                    ≡ told local target k (members k)
                        (ite (text_discrete name k) true (mem text_discrete k names)))
                  e (ground (arith, about-gossips name names d, fresh, found))
            | no ne ↦ ground (arith, about-gossips n names d)
          ])
  ]

-- What a target, which is the member `m`, is to be told of the member under a name: its clock, its
-- status, and its metadata.
abbrev pub due_gossip : Source → Text → Member → Text → Option Member → List (Text × Packet)
due_gossip local target m n none = []
due_gossip local target m n (some k) =
    if is_due m n k then (target, gossip local n k.clock k.status k.metadata_dict) ∷ [] else []

-- `disseminate` of a valid worker to a member of its registry puts only packets `Gossip` on the queue:
-- of them exactly one is about a member of which something is known and of which the target has
-- acknowledged no clock, or last one below its clock, and it is sent to the target with the clock, the
-- status and the metadata of the member; and none is about any other name.
pub sent-disseminate :
    (target : Text) (m : Member) (w : Worker)
    → IsValid w
    → w.members.members target ≡ some m
    → (out : List (Text × Packet)) × ((disseminate target w).send_queue ≡ w.send_queue ++ out)
      × (all_gossip out ≡ true)
      × ((n : Text)
          → about n out ≡ due_gossip (local_source w.members) target m n (w.members.members n))
unfolding disseminate
sent-disseminate target m w v found =
    let names = Members.get_gossip m w.members in
    let local = local_source w.members in
    let named =
      λ (n : Text) (k : Member) (h : w.members.members n ≡ some k). (v.registry.each n k h).named in
    let once = (mem-get_gossip m w.members target m v.registry found).0 in
    (
      gossips local target w.members.members names,
      rw (found, disseminate) (sent-send_gossip target names w),
      all_gossip-gossips local target w.members.members named names,
      λ n.
          about-gossips local target w.members.members named n names once
          ∙ elim (Option-cases (w.members.members n)) [
            | inl unknown ↦ rw unknown refl
            | inr (k, there) ↦ rw (there, (mem-get_gossip m w.members n k v.registry there).1) refl
          ],
    )
