-- ===== src/Worker/Quiet.antt =====
-- That `disseminate` of swimprotocol/worker.py sends nothing more when all that it sent is acknowledged.
use swim_protocol.Prelude.{
  ℕ, ◌≡◌, ◌∙◌, refl, sym, ap, subst, Text, Bytes, List, [], ◌∷◌, ◌++◌, none, some, arith,
  Option-cases, inl, inr,
}
use swim_protocol.Packet.{Packet, Source, source_of, ping, ping_req, ack, gossip, gossip_ack}
use swim_protocol.Member.{Member}
use swim_protocol.Members.{Members, put}
use swim_protocol.Members
use swim_protocol.Members.Valid
use swim_protocol.Members.Quiet.{
  AllCurrent, AllCurrent-same, ack_all, ack_all-Acked, acks_for, acks_for-AllCurrent,
  get_gossip-ack_all,
}
use swim_protocol.Worker.Defs.{
  Worker, handle, dispatch, arrive, send, send_gossip, disseminate, local_source, get_member,
}
use swim_protocol.Worker.Valid.{IsValid}
use swim_protocol.Worker.Handled.{members-arrive}
use swim_protocol.Worker.Dissemination.{gossips, sent-send_gossip}

-- What its target answers to a `Gossip`.
abbrev pub replies : Source → List (Text × Packet) → List Packet
replies source [] = []
replies source ((target, gossip from name clock status metadata) ∷ queue) =
    gossip_ack source name clock ∷ replies source queue
replies source ((target, ping from) ∷ queue) = replies source queue
replies source ((target, ping_req from name) ∷ queue) = replies source queue
replies source ((target, ack from) ∷ queue) = replies source queue
replies source ((target, gossip_ack from name clock) ∷ queue) = replies source queue

-- The packets are handled one after the other.
abbrev pub handle_all : List Packet → (Text → Bytes) → ℕ → Worker → Worker
handle_all [] random now w = w
handle_all (packet ∷ packets) random now w =
    handle_all packets random now (handle packet random now w).1

put_same :
    (name : Text) (m k : Member) (s : Members)
    → k ≡ m
    → s.members name ≡ some m
    → record s { members = put name k s.members } ≡ s
put_same name m k s e h = λ i. record s { members = λ j. at j i }
  where
    at : (j : Text) → put name k s.members j ≡ s.members j
    at j = ground arith

check_validity_same : (m : Member) → Members.check_validity (some m.validity) m ≡ m
check_validity_same m = ground arith

get_same :
    (name : Text) (m : Member) (random : Bytes) (now : ℕ) (s : Members)
    → s.members name ≡ some m
    → (Members.get name none random now s ≡ s)
      × (Members.get name (some m.validity) random now s ≡ s)
unfolding Members.get
get_same name m random now s h = (
  rw (h, Members.get) (put_same name m m s refl h),
  rw (h, Members.get)
      (put_same name m (Members.check_validity (some m.validity) m) s (check_validity_same m) h),
)

abbrev to_packets : Source → List (Text × ℕ) → List Packet
to_packets source [] = []
to_packets source ((name, clock) ∷ acks) = gossip_ack source name clock ∷ to_packets source acks

members-handle :
    (source : Source) (name : Text) (clock : ℕ) (random : Text → Bytes) (now : ℕ) (w : Worker)
    (m k : Member)
    → w.members.members source.name ≡ some m
    → m.validity ≡ source.validity
    → w.members.members name ≡ some k
    → (handle (gossip_ack source name clock) random now w).1.members
      ≡ (Members.ack_gossip name source.name clock w.members).1
unfolding handle dispatch source_of
members-handle source name clock random now w m k there valid known =
    let w1 = arrive source random now w in
    let e1 : w1.members ≡ w.members =
      members-arrive source random now w
      ∙ subst (λ b. Members.get source.name (some b) (random source.name) now w.members ≡ w.members)
          valid (get_same source.name m (random source.name) now w.members there).1 in
    let e2 : (get_member name none random now w1).members ≡ w.members =
      ap (λ (s : Members). Members.get name none (random name) now s) e1
      ∙ (get_same name k (random name) now w.members known).0 in
    ap (λ (s : Members). (Members.ack_gossip name source.name clock s).1) e2

members-handle_all :
    (source : Source) (acks : List (Text × ℕ)) (random : Text → Bytes) (now : ℕ) (w : Worker)
    (m : Member)
    → Valid.IsValid w.members
    → w.members.members source.name ≡ some m
    → m.validity ≡ source.validity
    → AllCurrent acks w.members
    → (handle_all (to_packets source acks) random now w).members
      ≡ ack_all source.name acks w.members
unfolding ack_all
members-handle_all source [] random now w m v there valid h = refl
members-handle_all source ((n, clock) ∷ acks) random now w m v there valid
      ((k, found, current), h) =
    let w1 = (handle (gossip_ack source n clock) random now w).1 in
    let e = members-handle source n clock random now w m k there valid found in
    let a =
      ack_all-Acked source.name ((n, clock) ∷ []) m w.members v there ((k, found, current), tt) in
    members-handle_all source acks random now w1 a.target (subst Valid.IsValid (sym e) a.valid)
      (ap (λ (s : Members). s.members source.name) e ∙ a.there) (a.validity ∙ valid)
      (subst (AllCurrent acks) (sym e) (AllCurrent-same acks w.members _ a.same h))
    ∙ ap (ack_all source.name acks) e

replies-gossips :
    (source local : Source) (target : Text) (names : List Text) (s : Members)
    → Valid.IsValid s
    → replies source (gossips local target s.members names) ≡ to_packets source (acks_for names s)
replies-gossips source local target [] s v = refl
replies-gossips source local target (n ∷ names) s v = elim (Option-cases (s.members n)) [
  | inl unknown ↦ rw (unknown, gossips) (replies-gossips source local target names s v)
  | inr (k, found) ↦
      rw (found, gossips)
        (same_first k (v.each n k found).named (replies-gossips source local target names s v))
]
  where
    same_first :
        (k : Member) {xs ys : List Packet}
        → k.name ≡ n
        → xs ≡ ys
        → gossip_ack source k.name k.clock ∷ xs ≡ gossip_ack source n k.clock ∷ ys
    same_first k e f = cc

members-send_gossip :
    (target : Text) (names : List Text) (w : Worker)
    → (send_gossip target names w).members ≡ w.members
unfolding send_gossip send
members-send_gossip target [] w = refl
members-send_gossip target (n ∷ names) w = elim (Option-cases (w.members.members n)) [
  | inl unknown ↦ rw (unknown, send_gossip) (members-send_gossip target names w)
  | inr (k, found) ↦ rw (found, send_gossip) (members-send_gossip target names _)
]

members-disseminate : (target : Text) (w : Worker) → (disseminate target w).members ≡ w.members
unfolding disseminate
members-disseminate target w = elim (Option-cases (w.members.members target)) [
  | inl unknown ↦ rw (unknown, disseminate) refl
  | inr (m, found) ↦
      rw (found, disseminate) (members-send_gossip target (Members.get_gossip m w.members) w)
]

nothing_left :
    (target : Text) (m : Member) (w : Worker)
    → w.members.members target ≡ some m
    → Members.get_gossip m w.members ≡ []
    → disseminate target w ≡ w
unfolding disseminate send_gossip
nothing_left target m w found empty =
    rw (found, disseminate) (ap (λ names. send_gossip target names w) empty)

-- What `disseminate` sends to a member.
abbrev pub sent : Text → Member → Worker → List (Text × Packet)
sent target m w =
    gossips (local_source w.members) target w.members.members (Members.get_gossip m w.members)

module _ (target : Text) (m : Member) (random : Text → Bytes) (now : ℕ) (w : Worker) where
  -- The worker when its target has answered all that it was told.
  abbrev pub answered : Worker
  answered =
      handle_all (replies (record { name = target; validity = m.validity }) (sent target m w))
        random now (disseminate target w)

  -- A valid worker tells a member of its registry what `disseminate` sends; when it has handled an
  -- acknowledgement of each of these packets, from that member with the random bytes that it is
  -- known by, and nothing else in between, `disseminate` to that member changes nothing and so sends
  -- nothing.
  pub disseminate-answered :
      IsValid w
      → w.members.members target ≡ some m
      → ((disseminate target w).send_queue ≡ w.send_queue ++ sent target m w)
        × (disseminate target answered ≡ answered)
  unfolding disseminate
  disseminate-answered v there =
      let source : Source = record { name = target; validity = m.validity } in
      let names = Members.get_gossip m w.members in
      let e = members-disseminate target w in
      let packets =
        replies-gossips source (local_source w.members) target names w.members v.registry in
      let all : answered.members ≡ ack_all target (acks_for names w.members) w.members =
        ap (λ l. (handle_all l random now (disseminate target w)).members) packets
        ∙ members-handle_all source (acks_for names w.members) random now (disseminate target w) m
            (subst Valid.IsValid (sym e) v.registry)
            (ap (λ (s : Members). s.members target) e ∙ there) refl
            (subst (AllCurrent (acks_for names w.members)) (sym e)
              (acks_for-AllCurrent names w.members))
        ∙ ap (ack_all target (acks_for names w.members)) e in
      let (m1, found, empty) = get_gossip-ack_all target m w.members v.registry there in
      (
        sent_all there,
        nothing_left target m1 answered (ap (λ (s : Members). s.members target) all ∙ found)
            (ap (Members.get_gossip m1) all ∙ empty),
      )
    where
      sent_all :
          w.members.members target ≡ some m
          → (disseminate target w).send_queue ≡ w.send_queue ++ sent target m w
      sent_all there =
          rw (there, disseminate) (sent-send_gossip target (Members.get_gossip m w.members) w)
