-- ===== src/Worker/Stays.antt =====
-- What the operations of swimprotocol/worker.py do to the registry, and to the packets that arrive.
use swim_protocol.Prelude.{
  ℕ, ◌≡◌, ◌∙◌, refl, ap, Text, Bytes, List, [], ◌∷◌, Option, none, some, arith, Option-cases, inl,
  inr,
}
use swim_protocol.Result.{Result, ok, raise, and_then}
use swim_protocol.Status.{Status, offline}
use swim_protocol.Packet.{
  Packet, Source, Metadata, ping, ping_req, ack, gossip, gossip_ack, source_of,
}
use swim_protocol.Members.{Members}
use swim_protocol.Members
use swim_protocol.Members.History.{gets, updates, applies, acks, step}
use swim_protocol.Members.Runs.{Ran, Ran-eq, Ran-step, Ran-trans}
use swim_protocol.Worker.Defs.{
  Worker, assign_nth, send, add_listening, handle_status, on_members, get_member, suspect_wait_end,
  apply_gossip, arrive, dispatch, handle, assign, send_acks, notify_waiting, get_listening,
}
use swim_protocol.Worker.Valid.{members-handle_status}
use swim_protocol.Worker.Handled.{members-arrive}

-- What the calls after a step keep, the chain keeps.
pub kept-and_then {ℓ κ} :
    {A B : Type ℓ} {X : Type κ} (look : Worker → X) (r : Result A × Worker)
    (f : A → Worker → Result B × Worker)
    → ((a : A) (w : Worker) → look (f a w).1 ≡ look w)
    → look (and_then r f).1 ≡ look r.1
kept-and_then look (ok a, w) f same = same a w
kept-and_then look (raise e, w) f same = refl

abbrev members_of : Worker → Members
members_of w = w.members

-- The packets that arrive, and the events that are waited for.
abbrev pub Inbox : Type 0
Inbox = List Packet × ((Text → Option (List ℕ)) × ℕ)

abbrev pub inbox_of : Worker → Inbox
inbox_of w = (w.recv_queue, (w.waiting, w.next_event))

members-apply_gossip :
    (source name : Text) (clock : ℕ) (status : Status) (metadata : Option Metadata) (now : ℕ)
    (w : Worker)
    → (apply_gossip source name clock status metadata now w).1.members
      ≡ (Members.apply name source clock status metadata now w.members).1
unfolding apply_gossip
members-apply_gossip source name clock status metadata now w =
    kept-and_then members_of
      (on_members
        (Members.apply name source clock status metadata now (handle_status name status w).members)
        (handle_status name status w))
      _ (λ a w1. refl)
    ∙ ap (λ (s : Members). (Members.apply name source clock status metadata now s).1)
        (members-handle_status name status w)

-- Handling a packet is a run of calls on the registry.
dispatch-Ran :
    (packet : Packet) (random : Text → Bytes) (now : ℕ) (w : Worker)
    → Ran w.members (dispatch packet random now w).1.members
unfolding dispatch step send add_listening
dispatch-Ran (ping source) random now w = Ran-eq refl
dispatch-Ran (ping_req source target) random now w =
    Ran-step (gets target none (random target) now) w.members
dispatch-Ran (ack source) random now w = Ran-eq refl
dispatch-Ran (gossip source name clock status metadata) random now w =
    let w1 = get_member name none random now w in
    let same =
      kept-and_then members_of (apply_gossip source.name name clock status metadata now w1)
        (λ answer w2. (ok tt, send source.name answer w2)) (λ a w2. refl)
      ∙ members-apply_gossip source.name name clock status metadata now w1 in
    Ran-trans (Ran-step (gets name none (random name) now) w.members) (
      Ran-trans (Ran-step (applies name source.name clock status metadata now) w1.members)
        (Ran-eq same))
dispatch-Ran (gossip_ack source name clock) random now w =
    let w1 = get_member name none random now w in
    Ran-trans (Ran-step (gets name none (random name) now) w.members)
      (Ran-step (acks name source.name clock) w1.members)

pub handle-Ran :
    (packet : Packet) (random : Text → Bytes) (now : ℕ) (w : Worker)
    → Ran w.members (handle packet random now w).1.members
unfolding handle step
handle-Ran packet random now w =
    let source = source_of packet in
    Ran-trans
      (Ran-step (gets source.name (some source.validity) (random source.name) now) w.members)
      (Ran-trans (Ran-eq (members-arrive source random now w))
        (dispatch-Ran packet random now (arrive source random now w)))

pub suspect_wait_end-Ran :
    (task now : ℕ) (w : Worker) → Ran w.members (suspect_wait_end task now w).1.members
unfolding suspect_wait_end step
suspect_wait_end-Ran task now w = elim (Option-cases (w.sleeping task)) [
  | inl gone ↦ rw (gone, suspect_wait_end) (Ran-eq refl)
  | inr (target, asleep) ↦
      let same =
        kept-and_then members_of
          (on_members (Members.update target (some offline) none now w.members)
            (record w { sleeping = assign_nth task none w.sleeping }))
          (λ _ w1. (ok tt, record w1 { suspects = assign target none w1.suspects }))
          (λ a w1. refl) in
      rw (asleep, suspect_wait_end)
        (Ran-trans (Ran-step (updates target (some offline) none now) w.members) (Ran-eq same))
]

-- Nor does it change the packets that arrive, and the events that are waited for.
pub inbox-handle_status :
    (target : Text) (status : Status) (w : Worker)
    → inbox_of (handle_status target status w) ≡ inbox_of w
unfolding handle_status
inbox-handle_status target status w = ground arith

inbox-send_acks :
    (source : Source) (targets : List Text) (w : Worker)
    → inbox_of (send_acks source targets w) ≡ inbox_of w
unfolding send_acks send
inbox-send_acks source [] w = refl
inbox-send_acks source (target ∷ targets) w =
    inbox-send_acks source targets (send target (ack source) w)

inbox-notify_waiting : (name : Text) (w : Worker) → inbox_of (notify_waiting name w) ≡ inbox_of w
unfolding notify_waiting
inbox-notify_waiting name w = ground arith

inbox-arrive :
    (source : Source) (random : Text → Bytes) (now : ℕ) (w : Worker)
    → inbox_of (arrive source random now w) ≡ inbox_of w
unfolding arrive get_listening
inbox-arrive source random now w =
    inbox-send_acks _ _ _
    ∙ inbox-notify_waiting source.name (get_member source.name (some source.validity) random now w)

inbox-dispatch :
    (packet : Packet) (random : Text → Bytes) (now : ℕ) (w : Worker)
    → inbox_of (dispatch packet random now w).1 ≡ inbox_of w
unfolding dispatch send add_listening apply_gossip
inbox-dispatch (ping source) random now w = refl
inbox-dispatch (ping_req source target) random now w = refl
inbox-dispatch (ack source) random now w = refl
inbox-dispatch (gossip source name clock status metadata) random now w =
    let w1 = get_member name none random now w in
    kept-and_then inbox_of (apply_gossip source.name name clock status metadata now w1)
      (λ answer w2. (ok tt, send source.name answer w2)) (λ a w2. refl)
    ∙ kept-and_then inbox_of
        (on_members
          (Members.apply name source.name clock status metadata now
            (handle_status name status w1).members)
          (handle_status name status w1))
        _ (λ a w2. refl)
    ∙ inbox-handle_status name status w1
inbox-dispatch (gossip_ack source name clock) random now w = refl

pub inbox-handle :
    (packet : Packet) (random : Text → Bytes) (now : ℕ) (w : Worker)
    → inbox_of (handle packet random now w).1 ≡ inbox_of w
unfolding handle
inbox-handle packet random now w =
    inbox-dispatch packet random now _ ∙ inbox-arrive (source_of packet) random now w

pub inbox-suspect_wait_end :
    (task now : ℕ) (w : Worker) → inbox_of (suspect_wait_end task now w).1 ≡ inbox_of w
unfolding suspect_wait_end
inbox-suspect_wait_end task now w = elim (Option-cases (w.sleeping task)) [
  | inl gone ↦ rw (gone, suspect_wait_end) refl
  | inr (target, asleep) ↦
      rw (asleep, suspect_wait_end)
        (kept-and_then inbox_of
          (on_members (Members.update target (some offline) none now w.members)
            (record w { sleeping = assign_nth task none w.sleeping }))
          (λ _ w1. (ok tt, record w1 { suspects = assign target none w1.suspects })) (λ a w1. refl))
]
