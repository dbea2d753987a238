-- ===== src/Worker/Valid.antt =====
-- The invariant of the worker of swimprotocol/worker.py, and how its operations bear on it.
use swim_protocol.Prelude.{
  ℕ, ◌≡◌, sym, subst, Bool, true, Text, Bytes, List, [], ◌∷◌, Option, some, arith, Option-cases,
  inl, inr,
}
use swim_protocol.Status.{Status}
use swim_protocol.Packet.{Packet, Source, ack}
use swim_protocol.Members.Valid
use swim_protocol.Members.History.{Call, gets, step, IsRealCall, step-IsValid}
use swim_protocol.Members.Known.{has, has-step}
use swim_protocol.Worker.Defs.{
  Worker, send, add_listening, notify_waiting, get_listening, handle_status, get_member, send_acks,
}
use swim_protocol.Worker.Timers.{IsTimed, handle_status-IsTimed}

-- The registry is valid, the tasks are the ones that `_suspect` holds, and their members are in the
-- registry.
pub record IsValid (w : Worker) : Type 0 where
  pub registry : Valid.IsValid w.members
  pub timed : IsTimed w
  pub known : (name : Text) (task : ℕ) → w.suspects name ≡ some task → has w.members name ≡ true

-- The queues and the events do not bear on it.
pub IsValid-queues :
    (w : Worker) (received : List Packet) (sent : List (Text × Packet))
    (waiting : Text → Option (List ℕ)) (listening : Text → Option (List Text)) (is_set : ℕ → Bool)
    (next : ℕ)
    → IsValid w
    → IsValid (record w {
      recv_queue = received;
      send_queue = sent;
      waiting = waiting;
      listening = listening;
      is_set = is_set;
      next_event = next;
    })
IsValid-queues w received sent waiting listening is_set next v = record {
  registry = v.registry;
  timed = record { held = v.timed.held; sleeps = v.timed.sleeps; fresh = v.timed.fresh };
  known = v.known;
}

-- A call on the registry.
pub IsValid-step :
    (c : Call) (w : Worker)
    → IsRealCall c
    → IsValid w
    → IsValid (record w { members = step c w.members })
IsValid-step c w real v = record {
  registry = step-IsValid c w.members real v.registry;
  timed = record { held = v.timed.held; sleeps = v.timed.sleeps; fresh = v.timed.fresh };
  known = λ n k h. has-step c w.members n (v.known n k h);
}

-- The operations that only touch queues and events.
pub send-IsValid : (target : Text) (p : Packet) (w : Worker) → IsValid w → IsValid (send target p w)
unfolding send
send-IsValid target p w v =
    IsValid-queues w w.recv_queue _ w.waiting w.listening w.is_set w.next_event v

pub add_listening-IsValid :
    (member target : Text) (w : Worker) → IsValid w → IsValid (add_listening member target w)
unfolding add_listening
add_listening-IsValid member target w v =
    IsValid-queues w w.recv_queue w.send_queue w.waiting _ w.is_set w.next_event v

pub notify_waiting-IsValid :
    (member : Text) (w : Worker) → IsValid w → IsValid (notify_waiting member w)
unfolding notify_waiting
notify_waiting-IsValid member w v = elim (Option-cases (w.waiting member)) [
  | inl nobody ↦ rw (nobody, notify_waiting) v
  | inr (events, found) ↦
      rw (found, notify_waiting)
        (IsValid-queues w w.recv_queue w.send_queue w.waiting w.listening _ w.next_event v)
]

pub get_listening-IsValid :
    (member : Text) (w : Worker) → IsValid w → IsValid (get_listening member w).1
unfolding get_listening
get_listening-IsValid member w v =
    IsValid-queues w w.recv_queue w.send_queue w.waiting _ w.is_set w.next_event v

pub send_acks-IsValid :
    (source : Source) (targets : List Text) (w : Worker)
    → IsValid w
    → IsValid (send_acks source targets w)
unfolding send_acks
send_acks-IsValid source [] w v = v
send_acks-IsValid source (target ∷ targets) w v =
    send_acks-IsValid source targets _ (send-IsValid target (ack source) w v)

-- `get` on the registry.
pub get_member-IsValid :
    (name : Text) (validity : Option Bytes) (random : Text → Bytes) (now : ℕ) (w : Worker)
    → IsValid w
    → IsValid (get_member name validity random now w)
unfolding step
get_member-IsValid name validity random now w v =
    IsValid-step (gets name validity (random name) now) w tt v

-- The tasks.
known-handle_status :
    (target : Text) (status : Status) (w : Worker)
    → has w.members target ≡ true
    → ((n : Text) (k : ℕ) → w.suspects n ≡ some k → has w.members n ≡ true)
    → (n : Text) (k : ℕ) → (handle_status target status w).suspects n ≡ some k
    → has w.members n ≡ true
unfolding handle_status
known-handle_status target status w there known n k h = ground (arith, known n k)

pub members-handle_status :
    (target : Text) (status : Status) (w : Worker)
    → (handle_status target status w).members ≡ w.members
unfolding handle_status
members-handle_status target status w = ground arith

pub handle_status-IsValid :
    (target : Text) (status : Status) (w : Worker)
    → has w.members target ≡ true
    → IsValid w
    → IsValid (handle_status target status w)
handle_status-IsValid target status w there v =
    let same = members-handle_status target status w in
    record {
      registry = subst Valid.IsValid (sym same) v.registry;
      timed = handle_status-IsTimed target status w v.timed;
      known = λ n k h.
          subst (λ s. has s n ≡ true) (sym same)
            (known-handle_status target status w there v.known n k h);
    }
