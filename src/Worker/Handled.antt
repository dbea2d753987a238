-- ===== src/Worker/Handled.antt =====
-- The handler of swimprotocol/worker.py and the tasks of suspects keep the invariant, and do not
-- raise where every status is real.
use swim_protocol.Prelude.{
  ℕ, ◌≡◌, ◌<◌, ◌↔◌, ◌∙◌, refl, sym, ap, subst, true, Text, Bytes, List, [], ◌∷◌, Option, none, some,
  arith, Option-cases, inl, inr,
}
use swim_protocol.Result.{Result, ok, raise, Error, assertion_error, and_then}
use swim_protocol.Status.{Status, offline}
use swim_protocol.Status.Transition.{IsReal}
use swim_protocol.Packet.{
  Packet, Source, Metadata, ping, ping_req, ack, gossip, gossip_ack, source_of,
}
use swim_protocol.Members.{Members}
use swim_protocol.Members
use swim_protocol.Members.History.{gets, updates, applies, acks, step}
use swim_protocol.Members.Known.{
  has, has-step, has-get_self, update_accepted, apply_accepted, ack_gossip-raise_iff,
  next_clock-get,
}
use swim_protocol.Worker.Defs.{
  Worker, send, send_acks, handle_status, local_source, get_member, get_listening, notify_waiting,
  source_named, suspect_wait_end, apply_gossip, arrive, dispatch, handle,
}
use swim_protocol.Worker.Timers.{cancel-IsTimed}
use swim_protocol.Worker.Valid.{
  IsValid, IsValid-step, send-IsValid, add_listening-IsValid, notify_waiting-IsValid,
  get_listening-IsValid, send_acks-IsValid, get_member-IsValid, handle_status-IsValid,
  members-handle_status,
}

-- The end of the wait of a task that sleeps.
wake :
    (task now : ℕ) (target : Text) (w : Worker)
    → IsValid w
    → w.sleeping task ≡ some target
    → ((suspect_wait_end task now w).0 ≡ ok tt) × IsValid (suspect_wait_end task now w).1
unfolding suspect_wait_end step
wake task now target w v asleep =
    let busy = v.timed.sleeps target task asleep in
    let accepted =
      update_accepted target (some offline) none now w.members v.registry (inr (inl refl))
        (v.known target task busy) in
    let after = IsValid-step (updates target (some offline) none now) w (inr (inl refl)) v in
    let stopped = cancel-IsTimed target task w busy v.timed in
    rw (asleep, suspect_wait_end, accepted)
      (
        refl,
        record {
          registry = after.registry;
          timed = record { held = stopped.held; sleeps = stopped.sleeps; fresh = stopped.fresh };
          known = λ n k h. ground (arith, after.known n k);
        },
      )

pub suspect_wait_end-IsValid :
    (task now : ℕ) (w : Worker)
    → IsValid w
    → ((suspect_wait_end task now w).0 ≡ ok tt) × IsValid (suspect_wait_end task now w).1
unfolding suspect_wait_end
suspect_wait_end-IsValid task now w v = elim (Option-cases (w.sleeping task)) [
  | inl gone ↦ rw (gone, suspect_wait_end) (refl, v)
  | inr (target, asleep) ↦ wake task now target w v asleep
]

-- Gossip about a member of the registry.
pub apply_gossip-IsValid :
    (source name : Text) (clock : ℕ) (status : Status) (metadata : Option Metadata) (now : ℕ)
    (w : Worker)
    → IsReal status
    → has w.members name ≡ true
    → IsValid w
    → ((s : Source) × ((apply_gossip source name clock status metadata now w).0
          ≡ ok (gossip_ack s name clock)))
      × IsValid (apply_gossip source name clock status metadata now w).1
unfolding apply_gossip step
apply_gossip-IsValid source name clock status metadata now w real there v =
    let w1 = handle_status name status w in
    let v1 = handle_status-IsValid name status w there v in
    let there1 : has w1.members name ≡ true =
      subst (λ s. has s name ≡ true) (sym (members-handle_status name status w)) there in
    let accepted =
      apply_accepted name source clock status metadata now w1.members v1.registry real there1 in
    let after = IsValid-step (applies name source clock status metadata now) w1 real v1 in
    rw accepted (
      (local_source (Members.apply name source clock status metadata now w1.members).1, refl),
      after,
    )

pub arrive-IsValid :
    (source : Source) (random : Text → Bytes) (now : ℕ) (w : Worker)
    → IsValid w
    → IsValid (arrive source random now w)
unfolding arrive
arrive-IsValid source random now w v =
    let known = get_member source.name (some source.validity) random now w in
    let (targets, w2) = get_listening source.name (notify_waiting source.name known) in
    send_acks-IsValid (source_named source.name w2.members) targets w2 (
      get_listening-IsValid source.name (notify_waiting source.name known) (
        notify_waiting-IsValid source.name known
          (get_member-IsValid source.name (some source.validity) random now w v)))

-- The status in a packet is real.
abbrev pub IsRealPacket : Packet → Type 0
IsRealPacket (gossip source name clock status metadata) = IsReal status
IsRealPacket (ping source) = Unit {0}
IsRealPacket (ping_req source target) = Unit {0}
IsRealPacket (ack source) = Unit {0}
IsRealPacket (gossip_ack source name clock) = Unit {0}

-- It acknowledges a clock that the cluster has not reached.
abbrev pub IsLate : ℕ → Packet → Type 0
IsLate next (gossip_ack source name clock) = next < clock
IsLate next (ping source) = ⊥
IsLate next (ping_req source target) = ⊥
IsLate next (ack source) = ⊥
IsLate next (gossip source name clock status metadata) = ⊥

abbrev Dispatched : Packet → ℕ → Result (Unit {0}) × Worker → Type 0
Dispatched packet next r =
    IsValid r.1 × ((e : Error) → (r.0 ≡ raise e) ↔ ((e ≡ assertion_error) × IsLate next packet))

answer-IsValid :
    (target name : Text) (clock : ℕ) (r : Result Packet × Worker)
    → ((s : Source) × (r.0 ≡ ok (gossip_ack s name clock)))
    → IsValid r.1
    → IsValid (and_then r (λ answer w1. (ok tt, send target answer w1))).1
      × ((and_then r (λ answer w1. (ok tt, send target answer w1))).0 ≡ ok tt)
answer-IsValid target name clock (ok answer, w) answered v = (send-IsValid target answer w v, refl)
answer-IsValid target name clock (raise e, w) answered v = cc answered.1

-- Nothing was raised.
fine :
    (r : Result (Unit {0}) × Worker) (e : Error) {P : Type 0}
    → r.0 ≡ ok tt
    → ¬ P
    → (r.0 ≡ raise e) ↔ ((e ≡ assertion_error) × P)
fine r e done no_p = (λ h. cc, λ h. absurd (no_p h.1))

dispatch-IsValid :
    (packet : Packet) (random : Text → Bytes) (now : ℕ) (w : Worker)
    → IsRealPacket packet
    → has w.members (source_of packet).name ≡ true
    → IsValid w
    → Dispatched packet w.members.next_clock (dispatch packet random now w)
unfolding dispatch source_of step
dispatch-IsValid (ping source) random now w real there v =
    (send-IsValid source.name _ w v, λ e. (λ h. cc, λ h. absurd h.1))
dispatch-IsValid (ping_req source target) random now w real there v = (
  add_listening-IsValid source.name target _
      (send-IsValid target _ _ (get_member-IsValid target none random now w v)),
  λ e. (λ h. cc, λ h. absurd h.1),
)
dispatch-IsValid (ack source) random now w real there v = (v, λ e. (λ h. cc, λ h. absurd h.1))
dispatch-IsValid (gossip source name clock status metadata) random now w real there v =
    let w1 = get_member name none random now w in
    let (answered, after) =
      apply_gossip-IsValid source.name name clock status metadata now w1 real
        (has-get_self name none (random name) now w.members)
        (get_member-IsValid name none random now w v) in
    let (sent, done) =
      answer-IsValid source.name name clock
        (apply_gossip source.name name clock status metadata now w1) answered after in
    (
      sent,
      λ e. fine (dispatch (gossip source name clock status metadata) random now w) e done (λ h. h),
    )
dispatch-IsValid (gossip_ack source name clock) random now w real there v =
    let known = get_member name none random now w in
    let after =
      IsValid-step (acks name source.name clock) known tt
        (get_member-IsValid name none random now w v) in
    let still = has-step (gets name none (random name) now) w.members source.name there in
    (
      after,
      λ e.
          subst
            (λ next.
              ((Members.ack_gossip name source.name clock known.members).0 ≡ raise e)
              ↔ ((e ≡ assertion_error) × (next < clock)))
            (next_clock-get name none (random name) now w.members)
            (ack_gossip-raise_iff name source.name clock known.members e still),
    )

members-send_acks :
    (source : Source) (targets : List Text) (w : Worker)
    → (send_acks source targets w).members ≡ w.members
unfolding send_acks send
members-send_acks source [] w = refl
members-send_acks source (target ∷ targets) w =
    members-send_acks source targets (send target (ack source) w)

members-notify_waiting : (name : Text) (w : Worker) → (notify_waiting name w).members ≡ w.members
unfolding notify_waiting
members-notify_waiting name w = ground arith

pub members-arrive :
    (source : Source) (random : Text → Bytes) (now : ℕ) (w : Worker)
    → (arrive source random now w).members
      ≡ Members.get source.name (some source.validity) (random source.name) now w.members
unfolding arrive get_listening
members-arrive source random now w =
    members-send_acks _ _ _
    ∙ members-notify_waiting source.name
        (get_member source.name (some source.validity) random now w)

-- In a valid worker the handling of a packet whose status, if any, is real leaves the worker valid. It
-- raises only AssertionError, exactly when the packet acknowledges a clock above the next one.
pub handle-IsValid :
    (packet : Packet) (random : Text → Bytes) (now : ℕ) (w : Worker)
    → IsRealPacket packet
    → IsValid w
    → IsValid (handle packet random now w).1
      × ((e : Error)
          → ((handle packet random now w).0 ≡ raise e)
            ↔ ((e ≡ assertion_error) × IsLate w.members.next_clock packet))
unfolding handle
handle-IsValid packet random now w real v =
    let source = source_of packet in
    let w1 = arrive source random now w in
    let same = members-arrive source random now w in
    let there : has w1.members source.name ≡ true =
      subst (λ s. has s source.name ≡ true) (sym same)
        (has-get_self source.name (some source.validity) (random source.name) now w.members) in
    let clocks : w1.members.next_clock ≡ w.members.next_clock =
      ap (λ (s : Members). s.next_clock) same
      ∙ next_clock-get source.name (some source.validity) (random source.name) now w.members in
    subst (λ next. Dispatched packet next (dispatch packet random now w1)) clocks
      (dispatch-IsValid packet random now w1 real there (arrive-IsValid source random now w v))
