-- ===== src/Worker/Sends.antt =====
-- What holds of all that a worker of swimprotocol/worker.py sends.
use swim_protocol.Prelude.{
  ℕ, ◌≡◌, ◌∙◌, refl, sym, subst, Bool, true, false, Text, Bytes, List, [], ◌∷◌, ◌++◌, Option, none,
  some, arith, Option-cases, Bool-cases, inl, inr, if◌then◌else◌,
}
use swim_protocol.Result.{Result, ok, raise, and_then}
use swim_protocol.Status.{Status, online, offline, suspect, available}
use swim_protocol.Packet.{Packet, Source, ping, ping_req, ack, gossip, gossip_ack, source_of}
use swim_protocol.Member.{Member}
use swim_protocol.Members.{Members}
use swim_protocol.Members
use swim_protocol.Worker.Defs.{
  Worker, assign, assign_nth, send, send_acks, add_waiting, add_listening, handle_status,
  on_members, get_member, get_listening, notify_waiting, local_source, suspect_wait_end,
  apply_gossip, arrive, dispatch, handle, build_gossip, send_gossip, disseminate,
}
use swim_protocol.Worker.Checks.{
  Phase, pinged, sending, asked, wait_start, check_start, check_end, check_indirects, check_pinged,
  check_sending, check_resume,
}
use swim_protocol.Worker.Stays.{kept-and_then}

abbrev queue_of : Worker → List (Text × Packet)
queue_of w = w.send_queue

queue-notify_waiting :
    (name : Text) (w : Worker) → (notify_waiting name w).send_queue ≡ w.send_queue
unfolding notify_waiting
queue-notify_waiting name w = ground arith

queue-handle_status :
    (name : Text) (status : Status) (w : Worker)
    → (handle_status name status w).send_queue ≡ w.send_queue
unfolding handle_status
queue-handle_status name status w = ground arith

pub queue-suspect_wait_end :
    (task now : ℕ) (w : Worker) → (suspect_wait_end task now w).1.send_queue ≡ w.send_queue
unfolding suspect_wait_end
queue-suspect_wait_end task now w = elim (Option-cases (w.sleeping task)) [
  | inl gone ↦ rw (gone, suspect_wait_end) refl
  | inr (target, asleep) ↦
      rw (asleep, suspect_wait_end)
        (kept-and_then queue_of
          (on_members (Members.update target (some offline) none now w.members)
            (record w { sleeping = assign_nth task none w.sleeping }))
          (λ _ w1. (ok tt, record w1 { suspects = assign target none w1.suspects })) (λ a w1. refl))
]

module _ (P : Text → Packet → Type 0) where
  -- Every packet that is sent, with its target.
  abbrev pub AllSent : List (Text × Packet) → Type 0
  AllSent [] = Unit {0}
  AllSent ((target, packet) ∷ queue) = P target packet × AllSent queue

  AllSent-append :
      (queue : List (Text × Packet)) (target : Text) (packet : Packet)
      → AllSent queue
      → P target packet
      → AllSent (queue ++ (target, packet) ∷ [])
  AllSent-append [] target packet all p = (p, tt)
  AllSent-append ((t, q) ∷ queue) target packet (r, all) p =
      (r, AllSent-append queue target packet all p)

  -- The answer to a packet.
  abbrev pub Answerable : Packet → Type 0
  Answerable (gossip source name clock status metadata) =
      (s : Source) → P source.name (gossip_ack s name clock)
  Answerable (ping source) = Unit {0}
  Answerable (ping_req source target) = Unit {0}
  Answerable (ack source) = Unit {0}
  Answerable (gossip_ack source name clock) = Unit {0}

  -- What the sender's registry tells of its members.
  abbrev pub Tellable : Members → Type 0
  Tellable s =
      (target name : Text) (m : Member)
      → s.members name ≡ some m
      → P target (build_gossip (local_source s) m)

  module _ (pings : (target : Text) (s : Source) → P target (ping s))
      (reqs : (target : Text) (s : Source) (name : Text) → P target (ping_req s name))
      (acks : (target : Text) (s : Source) → P target (ack s)) where
    AllSent-send_acks :
        (source : Source) (targets : List Text) (w : Worker)
        → AllSent w.send_queue
        → AllSent (send_acks source targets w).send_queue
    unfolding send_acks send
    AllSent-send_acks source [] w all = all
    AllSent-send_acks source (target ∷ targets) w all =
        AllSent-send_acks source targets (send target (ack source) w)
          (AllSent-append w.send_queue target (ack source) all (acks target source))

    AllSent-arrive :
        (source : Source) (random : Text → Bytes) (now : ℕ) (w : Worker)
        → AllSent w.send_queue
        → AllSent (arrive source random now w).send_queue
    unfolding arrive get_listening
    AllSent-arrive source random now w all = AllSent-send_acks _ _ _ (
        subst AllSent
          (sym (
            queue-notify_waiting source.name
              (get_member source.name (some source.validity) random now w)))
          all)

    AllSent-answer :
        (target name : Text) (clock : ℕ) (r : Result (Unit {0}) × Worker)
        → ((s : Source) → P target (gossip_ack s name clock))
        → AllSent r.1.send_queue
        → AllSent
            (and_then
              (and_then r (λ _ w2. (ok (gossip_ack (local_source w2.members) name clock), w2)))
              (λ answer w1. (ok tt, send target answer w1))).1.send_queue
    unfolding send
    AllSent-answer target name clock (raise e, w) p all = all
    AllSent-answer target name clock (ok u, w) p all =
        AllSent-append w.send_queue target _ all (p (local_source w.members))

    AllSent-dispatch :
        (packet : Packet) (random : Text → Bytes) (now : ℕ) (w : Worker)
        → Answerable packet
        → AllSent w.send_queue
        → AllSent (dispatch packet random now w).1.send_queue
    unfolding dispatch send add_listening apply_gossip
    AllSent-dispatch (ping source) random now w p all =
        AllSent-append w.send_queue _ _ all (acks _ _)
    AllSent-dispatch (ping_req source target) random now w p all =
        AllSent-append w.send_queue _ _ all (pings _ _)
    AllSent-dispatch (ack source) random now w p all = all
    AllSent-dispatch (gossip source name clock status metadata) random now w p all =
        let w1 = handle_status name status (get_member name none random now w) in
        AllSent-answer source.name name clock
          (on_members (Members.apply name source.name clock status metadata now w1.members) w1) p
          (subst AllSent (sym (queue-handle_status name status (get_member name none random now w)))
            all)
    AllSent-dispatch (gossip_ack source name clock) random now w p all = all

    pub AllSent-handle :
        (packet : Packet) (random : Text → Bytes) (now : ℕ) (w : Worker)
        → Answerable packet
        → AllSent w.send_queue
        → AllSent (handle packet random now w).1.send_queue
    unfolding handle
    AllSent-handle packet random now w p all =
        AllSent-dispatch packet random now (arrive (source_of packet) random now w) p
          (AllSent-arrive (source_of packet) random now w all)

    pub AllSent-check_start :
        (target : Text) (w : Worker)
        → AllSent w.send_queue
        → AllSent (check_start target w).1.send_queue
    unfolding check_start wait_start add_waiting send
    AllSent-check_start target w all = AllSent-append w.send_queue target _ all (pings target _)

    AllSent-check_end :
        (target : Text) (is_online : Bool) (now : ℕ) (w : Worker)
        → AllSent w.send_queue
        → AllSent (check_end target is_online now w).1.send_queue
    unfolding check_end
    AllSent-check_end target is_online now w all =
        let status = if is_online then online else suspect in
        let w1 = handle_status target status w in
        subst AllSent
          (sym (
            kept-and_then queue_of
              (on_members (Members.update target (some status) none now w1.members) w1)
              (λ _ w2. (ok none, w2)) (λ a w2. refl)
            ∙ queue-handle_status target status w))
          all

    -- A call of `check` that has gone on, if it could.
    abbrev pub AllSentIf : Option (Result (Option Phase) × Worker) → Type 0
    AllSentIf none = Unit {0}
    AllSentIf (some (r, w)) = AllSent w.send_queue

    AllSent-check_indirects :
        (target : Text) (now : ℕ) (found : Result (List Text)) (w : Worker)
        → AllSent w.send_queue
        → AllSent (check_indirects target now found w).1.send_queue
    AllSent-check_indirects target now (raise e) w all = all
    AllSent-check_indirects target now (ok []) w all = AllSent-check_end target false now w all
    AllSent-check_indirects target now (ok (name ∷ names)) w all = all

    AllSentIf-found :
        (target : Text) (now : ℕ) (found : Option (Result (List Text))) (w : Worker)
        → AllSent w.send_queue
        → AllSentIf (elim found [ none ↦ none | some r ↦ some (check_indirects target now r w) ])
    AllSentIf-found target now none w all = tt
    AllSentIf-found target now (some r) w all = AllSent-check_indirects target now r w all

    pub AllSentIf-check_resume :
        (target : Text) (phase : Phase) (count : ℕ) (draws : List ℕ) (now : ℕ) (w : Worker)
        → AllSent w.send_queue
        → AllSentIf (check_resume target phase count draws now w)
    unfolding check_resume check_pinged check_sending wait_start add_waiting send
    AllSentIf-check_resume target (pinged event) count draws now w all =
        elim (Bool-cases (w.is_set event)) [
          | inl set ↦ rw set (AllSent-check_end target true now w all)
          | inr unset ↦ rw unset (
              AllSentIf-found target now
                (Members.find count available (target ∷ []) draws w.members) w all)
        ]
    AllSentIf-check_resume target (sending []) count draws now w all = all
    AllSentIf-check_resume target (sending (name ∷ names)) count draws now w all =
        AllSent-append w.send_queue name _ all (reqs name _ target)
    AllSentIf-check_resume target (asked event) count draws now w all =
        AllSent-check_end target (w.is_set event) now w all

  AllSent-send_gossip :
      (target : Text) (names : List Text) (w : Worker)
      → Tellable w.members
      → AllSent w.send_queue
      → AllSent (send_gossip target names w).send_queue
  unfolding send_gossip send
  AllSent-send_gossip target [] w tell all = all
  AllSent-send_gossip target (name ∷ names) w tell all =
      elim (Option-cases (w.members.members name)) [
        | inl unknown ↦ rw (unknown, send_gossip) (AllSent-send_gossip target names w tell all)
        | inr (m, found) ↦
            rw (found, send_gossip)
              (AllSent-send_gossip target names
                (send target (build_gossip (local_source w.members) m) w) tell
                (AllSent-append w.send_queue target _ all (tell target name m found)))
      ]

  pub AllSent-disseminate :
      (target : Text) (w : Worker)
      → Tellable w.members
      → AllSent w.send_queue
      → AllSent (disseminate target w).send_queue
  unfolding disseminate
  AllSent-disseminate target w tell all = elim (Option-cases (w.members.members target)) [
    | inl unknown ↦ rw (unknown, disseminate) all
    | inr (m, found) ↦
        rw (found, disseminate)
          (AllSent-send_gossip target (Members.get_gossip m w.members) w tell all)
  ]
