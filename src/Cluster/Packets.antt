-- ===== src/Cluster/Packets.antt =====
-- What holds of every packet that a node of a cluster may send to another.
use swim_protocol.Prelude.{
  ℕ, zero, suc, ◌≤◌, ◌≡◌, ◌∙◌, sym, ap, subst, Text, List, [], ◌∷◌, ◌++◌, some, arith, get_elem?,
}
use swim_protocol.Status.Transition.{IsReal}
use swim_protocol.Packet.{Packet, ping, ping_req, ack, gossip, gossip_ack}
use swim_protocol.Member.{Member}
use swim_protocol.Member
use swim_protocol.Members.{Members}
use swim_protocol.Members.Valid
use swim_protocol.Worker.{build_gossip, source_or, local_source}
use swim_protocol.Worker.Handled.{IsRealPacket, IsLate}
use swim_protocol.Worker.Sends.{AllSent, Answerable, Tellable}
use swim_protocol.Worker.Steps.{IsHeard}

-- With the next clock of each node: a `Gossip` has a real status and a clock that its source has
-- reached, and a `GossipAck` a clock that its target has reached.
abbrev pub IsFine : (Text → ℕ) → Text → Packet → Type 0
IsFine clocks target (gossip source name clock status metadata) =
    IsReal status × (clock ≤ clocks source.name)
IsFine clocks target (gossip_ack source name clock) = clock ≤ clocks target
IsFine clocks target (ping source) = Unit {0}
IsFine clocks target (ping_req source name) = Unit {0}
IsFine clocks target (ack source) = Unit {0}

abbrev pub AllFine : (Text → ℕ) → Text → List Packet → Type 0
AllFine clocks target [] = Unit {0}
AllFine clocks target (packet ∷ packets) =
    IsFine clocks target packet × AllFine clocks target packets

module _ (before clocks : Text → ℕ) (grows : (n : Text) → before n ≤ clocks n) where
  IsFine-grows :
      (target : Text) (packet : Packet) → IsFine before target packet → IsFine clocks target packet
  IsFine-grows target (gossip source name clock status metadata) (real, h) =
      (real, omega (arith, grows source.name))
  IsFine-grows target (gossip_ack source name clock) h = omega (arith, grows target)
  IsFine-grows target (ping source) h = tt
  IsFine-grows target (ping_req source name) h = tt
  IsFine-grows target (ack source) h = tt

  pub AllFine-grows :
      (target : Text) (packets : List Packet)
      → AllFine before target packets
      → AllFine clocks target packets
  AllFine-grows target [] all = tt
  AllFine-grows target (packet ∷ packets) (h, all) =
      (IsFine-grows target packet h, AllFine-grows target packets all)

  pub AllSent-grows :
      (queue : List (Text × Packet)) → AllSent (IsFine before) queue → AllSent (IsFine clocks) queue
  AllSent-grows [] all = tt
  AllSent-grows ((target, packet) ∷ queue) (h, all) =
      (IsFine-grows target packet h, AllSent-grows queue all)

module _ (clocks : Text → ℕ) where
  pub AllFine-append :
      (target : Text) (packets : List Packet) (packet : Packet)
      → AllFine clocks target packets
      → IsFine clocks target packet
      → AllFine clocks target (packets ++ packet ∷ [])
  AllFine-append target [] packet all h = (h, tt)
  AllFine-append target (p ∷ packets) packet (q, all) h =
      (q, AllFine-append target packets packet all h)

  pub AllSent-get_elem? :
      (queue : List (Text × Packet)) (i : ℕ) (target : Text) (packet : Packet)
      → get_elem? queue i ≡ some (target, packet)
      → AllSent (IsFine clocks) queue
      → IsFine clocks target packet
  AllSent-get_elem? [] i target packet e all = cc
  AllSent-get_elem? ((t, p) ∷ queue) zero target packet e (h, all) =
      let same : t ≡ target = cc in
      let also : p ≡ packet = cc in
      subst (λ n. IsFine clocks n packet) same (subst (IsFine clocks t) also h)
  AllSent-get_elem? (first ∷ queue) (suc i) target packet e (h, all) =
      AllSent-get_elem? queue i target packet e all

  pub IsFine-real :
      (target : Text) (packet : Packet) → IsFine clocks target packet → IsRealPacket packet
  IsFine-real target (gossip source name clock status metadata) (real, h) = real
  IsFine-real target (gossip_ack source name clock) h = tt
  IsFine-real target (ping source) h = tt
  IsFine-real target (ping_req source name) h = tt
  IsFine-real target (ack source) h = tt

  -- A fine packet is not late at its target, and its answer is fine.
  timely :
      (target : Text) (packet : Packet)
      → IsFine clocks target packet
      → ¬ IsLate (clocks target) packet
  timely target (gossip source name clock status metadata) h = λ late. late
  timely target (gossip_ack source name clock) h = λ late. omega arith
  timely target (ping source) h = λ late. late
  timely target (ping_req source name) h = λ late. late
  timely target (ack source) h = λ late. late

  answered :
      (target : Text) (packet : Packet)
      → IsFine clocks target packet
      → Answerable (IsFine clocks) packet
  answered target (gossip source name clock status metadata) (real, h) = λ s. h
  answered target (gossip_ack source name clock) h = tt
  answered target (ping source) h = tt
  answered target (ping_req source name) h = tt
  answered target (ack source) h = tt

  pub AllFine-IsHeard :
      (target : Text) (packets : List Packet)
      → AllFine clocks target packets
      → IsHeard (IsFine clocks) (λ n s. tt) (λ n s name. tt) (λ n s. tt) (clocks target) packets
  AllFine-IsHeard target [] all = tt
  AllFine-IsHeard target (packet ∷ packets) (h, all) =
      (IsFine-real target packet h, answered target packet h, timely target packet h)

  named_there : (s : Members) → Valid.IsValid s → (local_source s).name ≡ s.local
  unfolding Member.source
  named_there s v =
      let (m, found) = v.local_there in
      ap (λ o. (source_or s.local o).name) found ∙ (v.each s.local m found).named

  -- What a valid registry tells of its members is fine.
  pub IsValid-Tellable :
      (s : Members) → Valid.IsValid s → s.next_clock ≤ clocks s.local → Tellable (IsFine clocks) s
  unfolding build_gossip Member.source
  IsValid-Tellable s v reached target name m found =
      let fits = v.each name m found in
      let behind = fits.behind in
      (fits.real, subst (λ n. m.clock ≤ clocks n) (sym (named_there s v)) (omega arith))
