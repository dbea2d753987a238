-- ===== src/Cluster/Tests.antt =====
-- Two nodes that meet, and the theorem on clusters there.
use swim_protocol.Prelude.{ℕ, text_discrete, ◌≡◌, refl, List, [], ◌∷◌, none, some, length}
use swim_protocol.Members.{Config}
use swim_protocol.Worker.Schedule.{Action, handles, spreads, changes}
use swim_protocol.Status.{transition, status_discrete}
use swim_protocol.Packet.{source_of}
use swim_protocol.Shuffle.{mem}
use swim_protocol.Shuffle
use swim_protocol.Listener
use swim_protocol.Member
use swim_protocol.Members
use swim_protocol.Worker
use swim_protocol.Cluster.Defs.{
  Cluster, Move, joins, acts, delivers, empty, join, receive, deliver, run,
}
use swim_protocol.Cluster.Defs
use swim_protocol.Cluster.Reach.{AllNodes, run-empty-AllNodes}

abbrev left : Config
left = record { local_name = 1 ∷ []; local_metadata = []; peers = (2 ∷ []) ∷ [] }

abbrev right : Config
right = record { local_name = 2 ∷ []; local_metadata = []; peers = [] }

-- `1` tells `2` of itself; `2` acknowledges, and the acknowledgement arrives twice.
abbrev moves : List Move
moves =
    joins left (λ name. name) 5
    ∷ joins right (λ name. name) 6
    ∷ acts (1 ∷ []) (spreads (2 ∷ []))
    ∷ delivers (1 ∷ []) 0
    ∷ acts (2 ∷ []) (handles (λ name. name) 7)
    ∷ delivers (2 ∷ []) 0
    ∷ delivers (2 ∷ []) 0
    ∷ acts (1 ∷ []) (handles (λ name. name) 8)
    ∷ acts (1 ∷ []) (handles (λ name. name) 9)
    ∷ acts (1 ∷ []) (spreads (2 ∷ []))
    ∷ acts (1 ∷ []) (changes [] 10)
    ∷ []

-- Both handlers run, and nothing is left to tell after the acknowledgement.
seen : Cluster → List ℕ
seen c = elim (c.nodes (1 ∷ [])) [ none ↦ [] | some w ↦ length w.worker.send_queue ∷ [] ]

run-empty-AllNodes_example : AllNodes (run moves empty)
unfolding mem text_discrete
run-empty-AllNodes_example =
    run-empty-AllNodes moves (refl, (refl, (tt, (tt, (tt, (tt, (tt, (tt, tt))))))))

seen-run : seen (run moves empty) ≡ 1 ∷ []
unfolding seen run Defs.step deliver join receive text_discrete Worker.Schedule.step
    Worker.Schedule.start status_discrete transition Listener.init Listener.notify Member.new
    Member.update Member.set_clock Member.set_status Member.needs_gossip Member.same_items
    Member.save Member.set_metadata Member.snapshot Member.source Members.ack_gossip Members.apply
    Members.get Members.init Members.get_gossip Members.update Members.update_from
    Members.gossip_among Members.refresh_statuses Members.refresh_loop Members.enrol_loop
    Shuffle.add Shuffle.contains Shuffle.discard Shuffle.len mem source_of Worker.apply_gossip
    Worker.arrive Worker.dispatch Worker.build_gossip Worker.get_listening Worker.handle
    Worker.handle_status Worker.notify_waiting Worker.send Worker.send_acks Worker.send_gossip
    Worker.disseminate Worker.init
seen-run = refl
