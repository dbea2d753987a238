-- ===== src/Worker/Reach.antt =====
-- What holds of a worker of swimprotocol/worker.py after any actions in any order.
use swim_protocol.Prelude.{
  ℕ, ◌≡◌, refl, sym, ap, subst, true, false, Text, Bytes, ℕ_discrete, List, [], ◌∷◌, ◌++◌, Option,
  none, some, ite, arith, Option-cases, inl, inr, if◌then◌else◌,
}
use swim_protocol.Result.{Result, ok, raise}
use swim_protocol.Packet.{Packet}
use swim_protocol.Member.{is_some}
use swim_protocol.Members.{Members, Config}
use swim_protocol.Members
use swim_protocol.Members.Valid
use swim_protocol.Members.History.{updates, init-IsValid}
use swim_protocol.Members.History as Calls
use swim_protocol.Members.Known.{has}
use swim_protocol.Members.Runs.{Ran-has, Ran-step}
use swim_protocol.Worker.Defs.{Worker, handle, suspect_wait_end, disseminate, init}
use swim_protocol.Worker.Checks.{Phase, check_start, check_resume}
use swim_protocol.Worker.Schedule.{
  World, Action, receives, handles, wakes, checks, resumes, spreads, changes, handled, handle_first,
  go_on, step, run, start,
}
use swim_protocol.Worker.Events.{IsFresh}
use swim_protocol.Worker.Valid.{IsValid, IsValid-queues, IsValid-step}
use swim_protocol.Worker.Handled.{IsRealPacket, handle-IsValid, suspect_wait_end-IsValid}
use swim_protocol.Worker.Checked.{
  Keeps, Resumed, check_start-Keeps, check_resume-Resumed, disseminate-Keeps,
}
use swim_protocol.Worker.Stays.{
  handle-Ran, suspect_wait_end-Ran, inbox_of, Inbox, inbox-handle, inbox-suspect_wait_end,
}

abbrev pub AllReal : List Packet → Type 0
AllReal [] = Unit {0}
AllReal (packet ∷ packets) = IsRealPacket packet × AllReal packets

AllReal-append :
    (packets : List Packet) (packet : Packet)
    → AllReal packets
    → IsRealPacket packet
    → AllReal (packets ++ packet ∷ [])
AllReal-append [] packet all real = (real, tt)
AllReal-append (p ∷ packets) packet all real = (all.0, AllReal-append packets packet all.1 real)

-- The worker is valid, the packets that it has yet to handle carry real statuses, and the targets
-- of the checks are members, and the events that are waited for were made before.
pub record IsSound (s : World) : Type 0 where
  pub valid : IsValid s.worker
  pub received : AllReal s.worker.recv_queue
  pub checked :
      (number : ℕ) (target : Text) (phase : Phase)
      → s.checks number ≡ some (target, phase)
      → has s.worker.members target ≡ true
  pub fresh : IsFresh (inbox_of s.worker)

-- The packets that arrive carry real statuses.
abbrev pub IsRealAction : Action → Type 0
IsRealAction (receives packet) = IsRealPacket packet
IsRealAction (handles random now) = Unit {0}
IsRealAction (wakes task now) = Unit {0}
IsRealAction (checks target) = Unit {0}
IsRealAction (resumes number count draws now) = Unit {0}
IsRealAction (spreads target) = Unit {0}
IsRealAction (changes metadata now) = Unit {0}

abbrev pub AllRealActions : List Action → Type 0
AllRealActions [] = Unit {0}
AllRealActions (a ∷ actions) = IsRealAction a × AllRealActions actions

-- An operation of one task, on the rest of the world.
by_worker :
    (s : World) (w : Worker) → Keeps s.worker w → IsSound s → IsSound (record s { worker = w })
by_worker s w k v = record {
  valid = k.valid;
  received = subst AllReal (sym k.same_queue) v.received;
  checked = λ n t p h. Ran-has k.ran t (v.checked n t p h);
  fresh = k.fresh_kept v.fresh;
}

handled-IsSound :
    (packet : Packet) (packets : List Packet) (r : Result (Unit {0}) × Worker) (s : World)
    → Keeps (record s.worker { recv_queue = packets }) r.1
    → AllReal packets
    → IsSound s
    → IsSound (handled r s)
handled-IsSound packet packets (ok u, w) s k all v = record {
  valid = k.valid;
  received = subst AllReal (sym k.same_queue) all;
  checked = λ n t p h. Ran-has k.ran t (v.checked n t p h);
  fresh = k.fresh_kept v.fresh;
}
handled-IsSound packet packets (raise e, w) s k all v = record {
  valid = k.valid;
  received = subst AllReal (sym k.same_queue) all;
  checked = λ n t p h. Ran-has k.ran t (v.checked n t p h);
  fresh = k.fresh_kept v.fresh;
}

handle-Keeps :
    (packet : Packet) (random : Text → Bytes) (now : ℕ) (w : Worker)
    → IsRealPacket packet
    → IsValid w
    → Keeps w (handle packet random now w).1
handle-Keeps packet random now w real v = record {
  valid = (handle-IsValid packet random now w real v).0;
  ran = handle-Ran packet random now w;
  same_queue = ap (λ (i : Inbox). i.0) (inbox-handle packet random now w);
  fresh_kept = λ f. subst IsFresh (sym (inbox-handle packet random now w)) f;
}

handle_first-IsSound :
    (packets : List Packet) (random : Text → Bytes) (now : ℕ) (s : World)
    → AllReal packets
    → IsSound s
    → IsSound (handle_first packets random now s)
handle_first-IsSound [] random now s all v = v
handle_first-IsSound (packet ∷ packets) random now s all v =
    let w = record s.worker { recv_queue = packets } in
    handled-IsSound packet packets (handle packet random now w) s
      (handle-Keeps packet random now w all.0 (
        IsValid-queues s.worker packets s.worker.send_queue s.worker.waiting s.worker.listening
          s.worker.is_set s.worker.next_event v.valid))
      all.1 v

go_on-IsSound :
    (number : ℕ) (target : Text) (o : Option (Result (Option Phase) × Worker)) (s : World)
    → has s.worker.members target ≡ true
    → Resumed s.worker o
    → IsSound s
    → IsSound (go_on number target o s)
go_on-IsSound number target none s there k v = v
go_on-IsSound number target (some (raise e, w)) s there k v = record {
  valid = k.valid;
  received = subst AllReal (sym k.same_queue) v.received;
  checked = λ n t p h. Ran-has k.ran t (v.checked n t p (ground arith));
  fresh = k.fresh_kept v.fresh;
}
go_on-IsSound number target (some (ok none, w)) s there k v = record {
  valid = k.valid;
  received = subst AllReal (sym k.same_queue) v.received;
  checked = λ n t p h. Ran-has k.ran t (v.checked n t p (ground arith));
  fresh = k.fresh_kept v.fresh;
}
go_on-IsSound number target (some (ok (some phase), w)) s there k v = record {
  valid = k.valid;
  received = subst AllReal (sym k.same_queue) v.received;
  checked = λ n t p h. Ran-has k.ran t (numbered n t p (ℕ_discrete number n) h);
  fresh = k.fresh_kept v.fresh;
}
  where
    numbered :
        (n : ℕ) (t : Text) (p : Phase) (d : Dec (number ≡ n))
        → ite d (some (target, phase)) (s.checks n) ≡ some (t, p)
        → has s.worker.members t ≡ true
    numbered n t p (yes e) h =
        let same : target ≡ t = cc in subst (λ j. has s.worker.members j ≡ true) same there
    numbered n t p (no ne) h = v.checked n t p h

pub step-IsSound : (a : Action) (s : World) → IsRealAction a → IsSound s → IsSound (step a s)
unfolding step Calls.step
step-IsSound (receives packet) s real v = record {
  valid =
      IsValid-queues s.worker (s.worker.recv_queue ++ packet ∷ []) s.worker.send_queue
        s.worker.waiting s.worker.listening s.worker.is_set s.worker.next_event v.valid;
  received = AllReal-append s.worker.recv_queue packet v.received real;
  checked = v.checked;
  fresh = v.fresh;
}
step-IsSound (handles random now) s real v =
    elim s.is_handling
      as (λ on. IsSound (if on then handle_first s.worker.recv_queue random now s else s)) [
        | true ↦ handle_first-IsSound s.worker.recv_queue random now s v.received v
        | false ↦ v
      ]
step-IsSound (wakes task now) s real v =
    by_worker s (suspect_wait_end task now s.worker).1
      (record {
        valid = (suspect_wait_end-IsValid task now s.worker v.valid).1;
        ran = suspect_wait_end-Ran task now s.worker;
        same_queue = ap (λ (i : Inbox). i.0) (inbox-suspect_wait_end task now s.worker);
        fresh_kept = λ f. subst IsFresh (sym (inbox-suspect_wait_end task now s.worker)) f;
      })
      v
step-IsSound (checks target) s real v = elim (Option-cases (s.worker.members.members target)) [
  | inl unknown ↦ rw (unknown, step) v
  | inr (m, found) ↦
      let (phase, w) = check_start target s.worker in
      let k = check_start-Keeps target s.worker v.valid in
      let begun =
        go_on-IsSound s.next_check target (some (ok (some phase), w)) s (ap is_some found) k v in
      rw (found, step)
        (record {
          valid = begun.valid;
          received = begun.received;
          checked = begun.checked;
          fresh = begun.fresh;
        })
]
step-IsSound (resumes number count draws now) s real v = elim (Option-cases (s.checks number)) [
  | inl over ↦ rw (over, step) v
  | inr ((target, phase), going) ↦
      let there = v.checked number target phase going in
      rw (going, step)
        (go_on-IsSound number target (check_resume target phase count draws now s.worker) s there
          (check_resume-Resumed target phase count draws now s.worker there v.valid) v)
]
step-IsSound (spreads target) s real v =
    by_worker s (disseminate target s.worker) (disseminate-Keeps target s.worker v.valid) v
step-IsSound (changes metadata now) s real v =
    let w = s.worker in
    let call = updates w.members.local none (some metadata) now in
    by_worker s (record w { members = Calls.step call w.members })
      (record {
        valid = IsValid-step call w tt v.valid;
        ran = Ran-step call w.members;
        same_queue = refl;
        fresh_kept = λ f. f;
      })
      v

pub run-IsSound :
    (actions : List Action) (s : World)
    → AllRealActions actions
    → IsSound s
    → IsSound (run actions s)
unfolding run
run-IsSound [] s real v = v
run-IsSound (a ∷ actions) s real v =
    run-IsSound actions (step a s) real.1 (step-IsSound a s real.0 v)

pub start-IsSound : (members : Members) → Valid.IsValid members → IsSound (start (init members))
unfolding start init
start-IsSound members v = record {
  valid = record {
    registry = v;
    timed = record { held = λ n k h. cc; sleeps = λ n k h. cc; fresh = λ n k h. cc };
    known = λ n k h. cc;
  };
  received = tt;
  checked = λ n t p h. cc;
  fresh = λ n. tt;
}

-- A worker is started on a new registry, and packets with real statuses arrive and are handled, checks
-- begin and go on, tasks wake, gossip is sent
-- and the application changes the local metadata, in any order: the registry stays valid, and each
-- member has at most one task that waits to take it for offline, the one in `_suspect`, whose
-- member is in the registry; the targets of all checks are in it too, and the events that are waited
-- for were made before.
pub run-start-IsSound :
    (config : Config) (random : Text → Bytes) (now : ℕ) (actions : List Action)
    → AllRealActions actions
    → IsSound (run actions (start (init (Members.init config random now).1)))
run-start-IsSound config random now actions real =
    run-IsSound actions _ real (start-IsSound _ (init-IsValid config random now).1)
