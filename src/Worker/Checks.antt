-- ===== src/Worker/Checks.antt =====
-- swimprotocol/worker.py: `check`, in the parts between its waits, and the choice of its targets.
use swim_protocol.Prelude.{
  ℕ, suc, Bool, true, false, Text, List, [], ◌∷◌, Option, none, some, if◌then◌else◌,
}
use swim_protocol.Result.{Result, ok, raise, assertion_error, and_then}
use swim_protocol.Status.{online, suspect, available, all}
use swim_protocol.Packet.{ping, ping_req}
use swim_protocol.Members.{Members}
use swim_protocol.Members
use swim_protocol.Worker.Defs.{
  Worker, assign_nth, local_source, on_members, send, add_waiting, handle_status,
}

-- Where a call of `check` stands: in its first `_wait`, among the tasks that send the `PingReq`s
-- that are left, or in its second `_wait`. The number is the event.
pub data Phase : Type 0 where
  pinged : ℕ → Phase
  sending : List Text → Phase
  asked : ℕ → Phase

-- `_wait(target, timeout)` up to its wait: the new event is not set.
unfoldable pub wait_start : Text → Worker → ℕ × Worker
wait_start target w =
    let event = w.next_event in
    (
      event,
      add_waiting target event
          (record w { is_set = assign_nth event false w.is_set; next_event = suc event }),
    )

unfoldable pub check_start : Text → Worker → Phase × Worker
check_start target w =
    let (event, w1) = wait_start target (send target (ping (local_source w.members)) w) in
    (pinged event, w1)

-- The end of `check`.
unfoldable pub check_end : Text → Bool → ℕ → Worker → Result (Option Phase) × Worker
check_end target is_online now w =
    let new_status = if is_online then online else suspect in
    let w1 = handle_status target new_status w in
    and_then (on_members (Members.update target (some new_status) none now w1.members) w1)
      λ _ w2. (ok none, w2)

-- From the end of the first wait, with the draws of `find`: `none` if the draws do not suffice.
abbrev pub check_indirects : Text → ℕ → Result (List Text) → Worker → Result (Option Phase) × Worker
check_indirects target now (raise e) w = (raise e, w)
check_indirects target now (ok []) w = check_end target false now w
check_indirects target now (ok (name ∷ names)) w = (ok (some (sending (name ∷ names))), w)

unfoldable pub check_pinged :
    Text → ℕ → ℕ → List ℕ → ℕ → Worker → Option (Result (Option Phase) × Worker)
check_pinged target event count draws now w =
    if w.is_set event
    then some (check_end target true now w)
    else (elim (Members.find count available (target ∷ []) draws w.members) [
      | none ↦ none
      | some found ↦ some (check_indirects target now found w)
    ])

-- One task sends its `PingReq`, or, when all have, the second wait begins.
unfoldable pub check_sending : Text → List Text → Worker → Phase × Worker
check_sending target [] w = let (event, w1) = wait_start target w in (asked event, w1)
check_sending target (name ∷ names) w =
    (sending names, send name (ping_req (local_source w.members) target) w)

-- A call of `check` goes on: its next phase, or the end. A wait goes on when its event is set or
-- its time is over.
unfoldable pub check_resume :
    Text → Phase → ℕ → List ℕ → ℕ → Worker → Option (Result (Option Phase) × Worker)
check_resume target (pinged event) count draws now w = check_pinged target event count draws now w
check_resume target (sending names) count draws now w =
    let (phase, w1) = check_sending target names w in some (ok (some phase), w1)
check_resume target (asked event) count draws now w = some (check_end target (w.is_set event) now w)

-- The members that a round of `run_failure_detection` checks.
unfoldable pub detect_targets : List ℕ → Worker → Option (Result (List Text))
detect_targets draws w = elim (Members.find 1 all [] draws w.members) [
  | none ↦ none
  | some (raise e) ↦ some (raise e)
  | some (ok []) ↦ some (raise assertion_error)
  | some (ok (name ∷ names)) ↦ some (ok (name ∷ names))
]

-- The members that a round of `run_dissemination` tells its gossip.
unfoldable pub dissemination_targets : List ℕ → Worker → Option (Result (List Text))
dissemination_targets draws w = Members.find 1 available [] draws w.members
