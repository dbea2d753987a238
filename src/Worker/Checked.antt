-- ===== src/Worker/Checked.antt =====
-- The calls of `check` and `disseminate` of swimprotocol/worker.py keep the invariant.
use swim_protocol.Prelude.{
  ℕ, ◌≡◌, refl, sym, ap, subst, Bool, true, false, Text, List, [], ◌∷◌, Option, none, some,
  Option-cases, Bool-cases, inl, inr, if◌then◌else◌,
}
use swim_protocol.Result.{Result, ok, raise}
use swim_protocol.Status.{online, suspect, available}
use swim_protocol.Status.Transition.{IsReal}
use swim_protocol.Packet.{ping}
use swim_protocol.Members.{Members}
use swim_protocol.Members
use swim_protocol.Members.History.{updates, step}
use swim_protocol.Members.Known.{has, update_accepted}
use swim_protocol.Members.Runs.{Ran, Ran-eq, Ran-step, Ran-trans}
use swim_protocol.Worker.Defs.{
  Worker, send, add_waiting, handle_status, local_source, send_gossip, build_gossip, disseminate,
}
use swim_protocol.Worker.Checks.{
  Phase, pinged, sending, asked, wait_start, check_start, check_end, check_indirects, check_pinged,
  check_sending, check_resume,
}
use swim_protocol.Worker.Stays.{Inbox, inbox_of, inbox-handle_status}
use swim_protocol.Worker.Events.{IsFresh, wait_start-IsFresh}
use swim_protocol.Worker.Valid.{
  IsValid, IsValid-queues, IsValid-step, send-IsValid, handle_status-IsValid, members-handle_status,
}

-- What an operation keeps: the invariant, the registry but for calls on it, the packets that arrive,
-- and that the events that are waited for were made before.
pub record Keeps (w w' : Worker) : Type 0 where
  pub valid : IsValid w'
  pub ran : Ran w.members w'.members
  pub same_queue : w'.recv_queue ≡ w.recv_queue
  pub fresh_kept : IsFresh (inbox_of w) → IsFresh (inbox_of w')

pub Keeps-self : (w : Worker) → IsValid w → Keeps w w
Keeps-self w v = record { valid = v; ran = Ran-eq refl; same_queue = refl; fresh_kept = λ f. f }

wait_start-Keeps : (target : Text) (w : Worker) → IsValid w → Keeps w (wait_start target w).1
unfolding wait_start add_waiting
wait_start-Keeps target w v = record {
  valid = IsValid-queues w w.recv_queue w.send_queue _ w.listening _ _ v;
  ran = Ran-eq refl;
  same_queue = refl;
  fresh_kept = λ f. wait_start-IsFresh target w f;
}

pub check_start-Keeps : (target : Text) (w : Worker) → IsValid w → Keeps w (check_start target w).1
unfolding check_start send
check_start-Keeps target w v =
    let w1 = send target (ping (local_source w.members)) w in
    let k = wait_start-Keeps target w1 (send-IsValid target _ w v) in
    record { valid = k.valid; ran = k.ran; same_queue = k.same_queue; fresh_kept = k.fresh_kept }

pub check_end-Keeps :
    (target : Text) (is_online : Bool) (now : ℕ) (w : Worker)
    → has w.members target ≡ true
    → IsValid w
    → ((check_end target is_online now w).0 ≡ ok none)
      × Keeps w (check_end target is_online now w).1
unfolding check_end step
check_end-Keeps target is_online now w there v =
    let status = if is_online then online else suspect in
    let real : IsReal status = new_real is_online in
    let w1 = handle_status target status w in
    let same = members-handle_status target status w in
    let v1 = handle_status-IsValid target status w there v in
    let there1 : has w1.members target ≡ true = subst (λ s. has s target ≡ true) (sym same) there in
    rw (update_accepted target (some status) none now w1.members v1.registry real there1) (
      refl,
      record {
        valid = IsValid-step (updates target (some status) none now) w1 real v1;
        ran = Ran-trans (Ran-eq same) (Ran-step (updates target (some status) none now) w1.members);
        same_queue = ap (λ (i : Inbox). i.0) (inbox-handle_status target status w);
        fresh_kept = λ f. subst IsFresh (sym (inbox-handle_status target status w)) f;
      },
    )
  where
    new_real : (b : Bool) → IsReal (if b then online else suspect)
    new_real true = inl refl
    new_real false = inr (inr refl)

-- A call of `check` that has gone on, if it could.
abbrev pub Resumed : Worker → Option (Result (Option Phase) × Worker) → Type 0
Resumed w none = Unit {0}
Resumed w (some (r, w')) = Keeps w w'

check_indirects-Resumed :
    (target : Text) (now : ℕ) (found : Result (List Text)) (w : Worker)
    → has w.members target ≡ true
    → IsValid w
    → Keeps w (check_indirects target now found w).1
check_indirects-Resumed target now (raise e) w there v = Keeps-self w v
check_indirects-Resumed target now (ok []) w there v =
    (check_end-Keeps target false now w there v).1
check_indirects-Resumed target now (ok (name ∷ names)) w there v = Keeps-self w v

found-Resumed :
    (target : Text) (now : ℕ) (found : Option (Result (List Text))) (w : Worker)
    → has w.members target ≡ true
    → IsValid w
    → Resumed w (elim found [ none ↦ none | some r ↦ some (check_indirects target now r w) ])
found-Resumed target now none w there v = tt
found-Resumed target now (some r) w there v = check_indirects-Resumed target now r w there v

pub check_resume-Resumed :
    (target : Text) (phase : Phase) (count : ℕ) (draws : List ℕ) (now : ℕ) (w : Worker)
    → has w.members target ≡ true
    → IsValid w
    → Resumed w (check_resume target phase count draws now w)
unfolding check_resume check_pinged check_sending send
check_resume-Resumed target (pinged event) count draws now w there v =
    elim (Bool-cases (w.is_set event)) [
      | inl set ↦ rw set (check_end-Keeps target true now w there v).1
      | inr unset ↦ rw unset (
          found-Resumed target now (Members.find count available (target ∷ []) draws w.members) w
            there v)
    ]
check_resume-Resumed target (sending []) count draws now w there v = wait_start-Keeps target w v
check_resume-Resumed target (sending (name ∷ names)) count draws now w there v = record {
  valid = send-IsValid name _ w v;
  ran = Ran-eq refl;
  same_queue = refl;
  fresh_kept = λ f. f;
}
check_resume-Resumed target (asked event) count draws now w there v =
    (check_end-Keeps target (w.is_set event) now w there v).1

send_gossip-Keeps :
    (target : Text) (names : List Text) (w : Worker)
    → IsValid w
    → Keeps w (send_gossip target names w)
unfolding send_gossip send
send_gossip-Keeps target [] w v = Keeps-self w v
send_gossip-Keeps target (name ∷ names) w v = elim (Option-cases (w.members.members name)) [
  | inl unknown ↦ rw (unknown, send_gossip) (send_gossip-Keeps target names w v)
  | inr (m, found) ↦
      let w1 = send target (build_gossip (local_source w.members) m) w in
      let k = send_gossip-Keeps target names w1 (send-IsValid target _ w v) in
      rw (found, send_gossip)
        (record {
          valid = k.valid;
          ran = k.ran;
          same_queue = k.same_queue;
          fresh_kept = k.fresh_kept;
        })
]

pub disseminate-Keeps : (target : Text) (w : Worker) → IsValid w → Keeps w (disseminate target w)
unfolding disseminate
disseminate-Keeps target w v = elim (Option-cases (w.members.members target)) [
  | inl unknown ↦ rw (unknown, disseminate) (Keeps-self w v)
  | inr (m, found) ↦ rw (found, disseminate) (send_gossip-Keeps target _ w v)
]
