-- ===== src/Worker/Detection.antt =====
-- Failure detection by swimprotocol/worker.py: the end of `check`, the wait of a suspect, and what
-- gossip does to both.
use swim_protocol.Prelude.{
  ℕ, ◌≡◌, ◌≢◌, ◌<◌, ◌∙◌, refl, sym, ap, subst, Bool, true, false, Text, Option, none, some, ite,
  arith, Option-cases, inl, inr, if◌then◌else◌,
}
use swim_protocol.Result.{ok}
use swim_protocol.Status.{Status, online, offline, suspect, status_discrete, transition}
use swim_protocol.Status.Transition.{IsReal}
use swim_protocol.Packet.{Metadata}
use swim_protocol.Member.{Member, is_some}
use swim_protocol.Member.Gossip.{differs, known_after}
use swim_protocol.Members.{Members}
use swim_protocol.Members
use swim_protocol.Members.Known.{has, update_accepted, apply_accepted}
use swim_protocol.Members.Moves.{update_moves, apply_moves, apply_local}
use swim_protocol.Worker.Defs.{Worker, handle_status, suspect_wait_end, apply_gossip}
use swim_protocol.Worker.Checks.{check_end}
use swim_protocol.Worker.Valid.{IsValid, handle_status-IsValid, members-handle_status}
use swim_protocol.Worker.Handled.{apply_gossip-IsValid}
use swim_protocol.Worker.Checked.{check_end-Keeps}

-- A member stands under a name with a status.
abbrev pub Has : Worker → Text → Status → Type 0
Has w name status = (m : Member) × (w.members.members name ≡ some m) × (m.status ≡ status)

-- After `handle_status` a task waits for a suspect, and for no one else.
suspects-handle_status :
    (target : Text) (w : Worker)
    → (task : ℕ) × ((handle_status target suspect w).suspects target ≡ some task)
unfolding handle_status status_discrete
suspects-handle_status target w = elim (Option-cases (w.suspects target)) [
  | inl idle ↦ (w.next_task, rw (idle, handle_status) (ground arith))
  | inr (task, busy) ↦ (task, rw (busy, handle_status) busy)
]

calm-handle_status :
    (target : Text) (status : Status) (w : Worker)
    → status ≢ suspect
    → (handle_status target status w).suspects target ≡ none
unfolding handle_status
calm-handle_status target status w calm = ground arith

-- The end of a wait makes a member OFFLINE that is not ONLINE, and a suspect of one that is.
woken :
    (task now : ℕ) (target : Text) (status t : Status) (w : Worker)
    → IsValid w
    → w.suspects target ≡ some task
    → Has w target status
    → transition status offline ≡ ok t
    → Has (suspect_wait_end task now w).1 target t
      × ((suspect_wait_end task now w).1.suspects target ≡ none)
unfolding suspect_wait_end
woken task now target status t w v busy (m, found, at) moved =
    let asleep = v.timed.held target task busy in
    let there : has w.members target ≡ true = ap is_some found in
    let accepted =
      update_accepted target (some offline) none now w.members v.registry (inr (inl refl)) there in
    let led =
      update_moves target offline t now w.members m v.registry found (inr (inl refl))
        (ap (λ (k : Status). transition k offline) at ∙ moved) in
    rw (asleep, suspect_wait_end, accepted) (led, ground arith)

-- The end of `check`.
ended :
    (target : Text) (is_online : Bool) (now : ℕ) (m : Member) (t : Status) (w : Worker)
    → IsValid w
    → w.members.members target ≡ some m
    → transition m.status (if is_online then online else suspect) ≡ ok t
    → Has (check_end target is_online now w).1 target t
      × ((check_end target is_online now w).1.suspects target
          ≡ (handle_status target (if is_online then online else suspect) w).suspects target)
unfolding check_end
ended target is_online now m t w v found moved =
    let status = if is_online then online else suspect in
    let w1 = handle_status target status w in
    let same = members-handle_status target status w in
    let there : has w.members target ≡ true = ap is_some found in
    let v1 = handle_status-IsValid target status w there v in
    let found1 : w1.members.members target ≡ some m =
      ap (λ (s : Members). s.members target) same ∙ found in
    let real : IsReal status = is_real is_online in
    rw
      (update_accepted target (some status) none now w1.members v1.registry real
        (ap is_some found1))
      (update_moves target status t now w1.members m v1.registry found1 real moved, refl)
  where
    is_real : (b : Bool) → IsReal (if b then online else suspect)
    is_real true = inl refl
    is_real false = inr (inr refl)

-- OFFLINE stays, and everything else becomes SUSPECT.
abbrev pub checked_status : Status → Status
checked_status s = ite (status_discrete s offline) offline suspect

to_suspect :
    (s : Status)
    → IsReal s
    → (transition s suspect ≡ ok (checked_status s))
      × (transition (checked_status s) offline ≡ ok offline)
unfolding transition status_discrete
to_suspect s (inl e) = (ground arith, ground arith)
to_suspect s (inr (inl e)) = (ground arith, ground arith)
to_suspect s (inr (inr e)) = (ground arith, ground arith)

-- A check of a member of a valid worker that ends without a sign of it makes it SUSPECT, unless it was
-- OFFLINE, which it then stays, and holds a task for it; when that task wakes, with no word in between, the
-- member is OFFLINE and no task is held for it.
pub check_end-suspect :
    (target : Text) (now later : ℕ) (m : Member) (w : Worker)
    → IsValid w
    → w.members.members target ≡ some m
    → (task : ℕ) × Has (check_end target false now w).1 target (checked_status m.status)
      × ((check_end target false now w).1.suspects target ≡ some task)
      × Has (suspect_wait_end task later (check_end target false now w).1).1 target offline
      × ((suspect_wait_end task later (check_end target false now w).1).1.suspects target ≡ none)
check_end-suspect target now later m w v found =
    let fits = v.registry.each target m found in
    let t = checked_status m.status in
    let (moved, last) = to_suspect m.status fits.real in
    let (there, held) = ended target false now m t w v found moved in
    let (task, busy) = suspects-handle_status target w in
    let v1 = (check_end-Keeps target false now w (ap is_some found) v).1.valid in
    let holds = held ∙ busy in
    let (gone, free) =
      woken task later target t offline (check_end target false now w).1 v1 holds there last in
    (task, there, holds, gone, free)

to_online : (s : Status) → transition s online ≡ ok online
unfolding transition
to_online s = ground arith

-- A check of a member of a valid worker that ends with a sign of it makes it ONLINE, and no task is
-- held for it.
pub check_end-online :
    (target : Text) (now : ℕ) (m : Member) (w : Worker)
    → IsValid w
    → w.members.members target ≡ some m
    → Has (check_end target true now w).1 target online
      × ((check_end target true now w).1.suspects target ≡ none)
check_end-online target now m w v found =
    let (there, held) = ended target true now m online w v found (to_online m.status) in
    (there, held ∙ calm-handle_status target online w (λ e. cc))

-- What `_apply_gossip` does to the registry and the tasks.
gossiped :
    (source name : Text) (clock : ℕ) (status : Status) (metadata : Option Metadata) (now : ℕ)
    (w : Worker)
    → IsReal status
    → has w.members name ≡ true
    → IsValid w
    → ((apply_gossip source name clock status metadata now w).1.members
        ≡ (Members.apply name source clock status metadata now w.members).1)
      × ((apply_gossip source name clock status metadata now w).1.suspects
          ≡ (handle_status name status w).suspects)
unfolding apply_gossip
gossiped source name clock status metadata now w real there v =
    let w1 = handle_status name status w in
    let same = members-handle_status name status w in
    let v1 = handle_status-IsValid name status w there v in
    let there1 : has w1.members name ≡ true = subst (λ s. has s name ≡ true) (sym same) there in
    rw (apply_accepted name source clock status metadata now w1.members v1.registry real there1)
      (ap (λ (s : Members). (Members.apply name source clock status metadata now s).1) same, refl)

-- Newer gossip of a real status that `transition` accepts, about another member of a valid worker, is
-- taken over by `_apply_gossip`: where `transition` leads, with the metadata that it tells, and with its
-- clock if it tells anything new; and a task is held for the member exactly if it says SUSPECT.
pub apply_gossip_newer :
    (source name : Text) (clock : ℕ) (status t : Status) (metadata : Option Metadata) (now : ℕ)
    (m : Member) (w : Worker)
    → IsValid w
    → IsReal status
    → w.members.members name ≡ some m
    → name ≢ w.members.local
    → m.clock < clock
    → transition m.status status ≡ ok t
    → (m' : Member) × ((apply_gossip source name clock status metadata now w).1.members.members name
        ≡ some m')
      × (m'.status ≡ t)
      × (m'.metadata_dict ≡ known_after m metadata)
      × (m'.clock ≡ (if differs m t metadata then clock else m.clock))
      × (is_some ((apply_gossip source name clock status metadata now w).1.suspects name)
          ≡ ite (status_discrete status suspect) true false)
apply_gossip_newer source name clock status t metadata now m w v real found other newer moved =
    let (members, held) =
      gossiped source name clock status metadata now w real (ap is_some found) v in
    let (m', at, st, known, clocked) =
      apply_moves name source clock status t metadata now w.members m v.registry found other newer
        moved in
    (
      m',
      ap (λ (s : Members). s.members name) members ∙ at,
      st,
      known,
      clocked,
      ap (λ (f : Text → Option ℕ). is_some (f name)) held ∙ holds name status w,
    )
  where
    holds :
        (name : Text) (status : Status) (w : Worker)
        → is_some ((handle_status name status w).suspects name)
          ≡ ite (status_discrete status suspect) true false
    holds name status w =
        elim (status_discrete status suspect)
          as (λ d. is_some ((handle_status name status w).suspects name) ≡ ite d true false) [
            | yes e ↦
                let (task, busy) = suspects-handle_status name w in
                subst (λ (st : Status). is_some ((handle_status name st w).suspects name) ≡ true)
                  (sym e) (ap is_some busy)
            | no ne ↦ ap is_some (calm-handle_status name status w ne)
          ]

-- In a valid worker gossip that the ONLINE local member is a suspect leaves it ONLINE at first, but holds a task for it
-- like for any other; when that task wakes, the local member is SUSPECT.
pub apply_gossip_local :
    (source : Text) (clock : ℕ) (metadata : Option Metadata) (now later : ℕ) (w : Worker)
    → IsValid w
    → Has w w.members.local online
    → (task : ℕ) × Has
        (apply_gossip source w.members.local clock suspect metadata now w).1
        w.members.local
        online
      × ((apply_gossip source w.members.local clock suspect metadata now w).1.suspects
            w.members.local
          ≡ some task)
      × Has
          (suspect_wait_end task later
            (apply_gossip source w.members.local clock suspect metadata now w).1).1
          w.members.local
          suspect
unfolding transition
apply_gossip_local source clock metadata now later w v (m, found, at) =
    let name = w.members.local in
    let w1 = (apply_gossip source name clock suspect metadata now w).1 in
    let (members, held) =
      gossiped source name clock suspect metadata now w (inr (inr refl)) (ap is_some found) v in
    let (m', there, same) =
      apply_local source clock suspect metadata now w.members m v.registry found in
    let (task, busy) = suspects-handle_status name w in
    let told : Has w1 name online =
      (m', ap (λ (s : Members). s.members name) members ∙ there, same ∙ at) in
    let holds = ap (λ (f : Text → Option ℕ). f name) held ∙ busy in
    let v1 =
      (apply_gossip-IsValid source name clock suspect metadata now w (inr (inr refl))
        (ap is_some found) v).1 in
    (task, told, holds, (woken task later name online suspect w1 v1 holds told (ground arith)).0)
