-- ===== src/Worker/Steps.antt =====
-- What an action of a worker of swimprotocol/worker.py does to its registry, to its two queues, and to
-- `_run_handler`.
use swim_protocol.Prelude.{
  ℕ, ◌≡◌, ◌⊎◌, ◌∙◌, refl, sym, ap, subst, true, false, Text, Bytes, List, [], ◌∷◌, Option, none,
  some, Option-cases, inl, inr, if◌then◌else◌,
}
use swim_protocol.Result.{Result, ok, raise, Error}
use swim_protocol.Packet.{Packet, Source, ping, ping_req, ack}
use swim_protocol.Members.Runs.{Ran, Ran-eq, Ran-step}
use swim_protocol.Members.History as Calls
use swim_protocol.Worker.Defs.{Worker, handle}
use swim_protocol.Worker.Checks.{Phase, check_start, check_resume}
use swim_protocol.Worker.Schedule.{
  World, Action, receives, handles, wakes, checks, resumes, spreads, changes, handled, handle_first,
  go_on, step,
}
use swim_protocol.Worker.Valid.{IsValid, IsValid-queues}
use swim_protocol.Worker.Handled.{IsRealPacket, IsLate, handle-IsValid}
use swim_protocol.Worker.Stays.{
  Inbox, inbox-handle, inbox-suspect_wait_end, handle-Ran, suspect_wait_end-Ran,
}
use swim_protocol.Worker.Checked.{
  Resumed, check_start-Keeps, check_resume-Resumed, disseminate-Keeps,
}
use swim_protocol.Worker.Reach.{IsSound}
use swim_protocol.Worker.Sends.{
  AllSent, Answerable, Tellable, AllSent-handle, AllSent-check_start, AllSentIf,
  AllSentIf-check_resume, AllSent-disseminate, queue-suspect_wait_end,
}

-- Packets that arrive come from the network; all else a node does by itself.
abbrev pub IsOwn : Action → Type 0
IsOwn (receives packet) = ⊥
IsOwn (handles random now) = Unit {0}
IsOwn (wakes task now) = Unit {0}
IsOwn (checks target) = Unit {0}
IsOwn (resumes number count draws now) = Unit {0}
IsOwn (spreads target) = Unit {0}
IsOwn (changes metadata now) = Unit {0}

-- The queue of packets is as it was, or without its first.
abbrev pub IsTaken : List Packet → List Packet → Type 0
IsTaken before later = (later ≡ before) ⊎ ((packet : Packet) × (before ≡ packet ∷ later))

module _ (P : Text → Packet → Type 0) (pings : (target : Text) (s : Source) → P target (ping s))
    (reqs : (target : Text) (s : Source) (name : Text) → P target (ping_req s name))
    (acks : (target : Text) (s : Source) → P target (ack s)) where
  pub record Goes (s s' : World) : Type 0 where
    pub ran : Ran s.worker.members s'.worker.members
    pub taken : IsTaken s.worker.recv_queue s'.worker.recv_queue
    pub sent : AllSent P s'.worker.send_queue
    pub handling : s'.is_handling ≡ s.is_handling

  -- The first packet, if there is one, is real, not late, and its answer may be sent.
  abbrev pub IsHeard : ℕ → List Packet → Type 0
  IsHeard next [] = Unit {0}
  IsHeard next (packet ∷ packets) =
      IsRealPacket packet × Answerable P packet × (¬ IsLate next packet)

  stays : (s : World) → AllSent P s.worker.send_queue → Goes s s
  stays s all = record { ran = Ran-eq refl; taken = inl refl; sent = all; handling = refl }

  handled-Goes :
      (packet : Packet) (packets : List Packet) (r : Result (Unit {0}) × Worker) (s : World)
      → s.worker.recv_queue ≡ packet ∷ packets
      → r.1.recv_queue ≡ packets
      → Ran s.worker.members r.1.members
      → AllSent P r.1.send_queue
      → ((e : Error) → ¬ (r.0 ≡ raise e))
      → Goes s (handled r s)
  handled-Goes packet packets (ok u, w) s first rest ran all calm = record {
    ran = ran;
    taken = inr (packet, first ∙ ap (packet ∷◌) (sym rest));
    sent = all;
    handling = refl;
  }
  handled-Goes packet packets (raise e, w) s first rest ran all calm = absurd (calm e refl)

  handle_first-Goes :
      (packets : List Packet) (random : Text → Bytes) (now : ℕ) (s : World)
      → s.worker.recv_queue ≡ packets
      → IsHeard s.worker.members.next_clock packets
      → IsValid s.worker
      → AllSent P s.worker.send_queue
      → Goes s (handle_first packets random now s)
  handle_first-Goes [] random now s first heard v all = stays s all
  handle_first-Goes (packet ∷ packets) random now s first (real, answer, timely) v all =
      let w = record s.worker { recv_queue = packets } in
      let v1 =
        IsValid-queues s.worker packets s.worker.send_queue s.worker.waiting s.worker.listening
          s.worker.is_set s.worker.next_event v in
      let raised = (handle-IsValid packet random now w real v1).1 in
      handled-Goes packet packets (handle packet random now w) s first
        (ap (λ (i : Inbox). i.0) (inbox-handle packet random now w))
        (handle-Ran packet random now w)
        (AllSent-handle P pings reqs acks packet random now w answer all)
        (λ e h. timely ((raised e).0 h).1)

  go_on-Goes :
      (number : ℕ) (target : Text) (o : Option (Result (Option Phase) × Worker)) (s : World)
      → Resumed s.worker o
      → AllSentIf P pings reqs acks o
      → AllSent P s.worker.send_queue
      → Goes s (go_on number target o s)
  go_on-Goes number target none s k sent all = stays s all
  go_on-Goes number target (some (raise e, w)) s k sent all = record {
    ran = k.ran;
    taken = inl k.same_queue;
    sent = sent;
    handling = refl;
  }
  go_on-Goes number target (some (ok none, w)) s k sent all = record {
    ran = k.ran;
    taken = inl k.same_queue;
    sent = sent;
    handling = refl;
  }
  go_on-Goes number target (some (ok (some phase), w)) s k sent all = record {
    ran = k.ran;
    taken = inl k.same_queue;
    sent = sent;
    handling = refl;
  }

  -- An action of the node itself is a run of calls on its registry, takes at most the first packet,
  -- sends only what may be sent, and does not end `_run_handler`.
  pub step-Goes :
      (a : Action) (s : World)
      → IsOwn a
      → IsSound s
      → IsHeard s.worker.members.next_clock s.worker.recv_queue
      → Tellable P s.worker.members
      → AllSent P s.worker.send_queue
      → Goes s (step a s)
  unfolding step Calls.step
  step-Goes (receives packet) s own v heard tell all = absurd own
  step-Goes (handles random now) s own v heard tell all =
      elim s.is_handling
        as (λ on. Goes s (if on then handle_first s.worker.recv_queue random now s else s)) [
          | true ↦ handle_first-Goes s.worker.recv_queue random now s refl heard v.valid all
          | false ↦ stays s all
        ]
  step-Goes (wakes task now) s own v heard tell all = record {
    ran = suspect_wait_end-Ran task now s.worker;
    taken = inl (ap (λ (i : Inbox). i.0) (inbox-suspect_wait_end task now s.worker));
    sent = subst (AllSent P) (sym (queue-suspect_wait_end task now s.worker)) all;
    handling = refl;
  }
  step-Goes (checks target) s own v heard tell all =
      elim (Option-cases (s.worker.members.members target)) [
        | inl unknown ↦ rw (unknown, step) (stays s all)
        | inr (m, found) ↦
            let (phase, w) = check_start target s.worker in
            let k = check_start-Keeps target s.worker v.valid in
            rw (found, step)
              (record {
                ran = k.ran;
                taken = inl k.same_queue;
                sent = AllSent-check_start P pings reqs acks target s.worker all;
                handling = refl;
              })
      ]
  step-Goes (resumes number count draws now) s own v heard tell all =
      elim (Option-cases (s.checks number)) [
        | inl over ↦ rw (over, step) (stays s all)
        | inr ((target, phase), going) ↦
            rw (going, step)
              (go_on-Goes number target (check_resume target phase count draws now s.worker) s
                (check_resume-Resumed target phase count draws now s.worker
                  (v.checked number target phase going) v.valid)
                (AllSentIf-check_resume P pings reqs acks target phase count draws now s.worker all)
                all)
      ]
  step-Goes (spreads target) s own v heard tell all =
      let k = disseminate-Keeps target s.worker v.valid in
      record {
        ran = k.ran;
        taken = inl k.same_queue;
        sent = AllSent-disseminate P target s.worker tell all;
        handling = refl;
      }
  step-Goes (changes metadata now) s own v heard tell all = record {
    ran = Ran-step (Calls.updates s.worker.members.local none (some metadata) now) s.worker.members;
    taken = inl refl;
    sent = all;
    handling = refl;
  }
