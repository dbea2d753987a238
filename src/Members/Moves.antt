-- ===== src/Members/Moves.antt =====
-- Where the calls on the registry of swimprotocol/members.py lead a member.
use swim_protocol.Prelude.{
  ℕ, ◌≡◌, ◌≢◌, ◌<◌, ◌∙◌, refl, ap, Bool, false, Text, text_discrete, Option, none, some, ite, arith,
  if◌then◌else◌,
}
use swim_protocol.Result.{Result, ok}
use swim_protocol.Status.{Status, transition}
use swim_protocol.Status.Transition.{IsReal}
use swim_protocol.Packet.{Metadata}
use swim_protocol.Member.{Member}
use swim_protocol.Member
use swim_protocol.Member.Update.{update_local, update-raise_iff}
use swim_protocol.Member.Given.{update_given}
use swim_protocol.Member.Gossip.{differs, known_after, update_newer}
use swim_protocol.Members.Defs.{Members, update_from, update, apply, finish}
use swim_protocol.Members.Valid.{IsValid}
use swim_protocol.Members.Keeps.{real_accepted}
use swim_protocol.Members.LocalName.{local-finish}

module _ (name : Text) (source : Option Text) (clock : ℕ) (status : Option Status)
    (metadata : Option Metadata) (now : ℕ) (s : Members) (m : Member)
    (found : s.members name ≡ some m) where
  abbrev pub after : Members
  after = (update_from name source clock status metadata now s).1

  abbrev pub outcome : Result Bool × Member
  outcome = Member.update source clock status metadata s.next_clock now m

  update_from_lem : update_from name source clock status metadata now s ≡ finish name outcome s
  unfolding update_from
  update_from_lem = rw (found, update_from) refl

  -- The updated member stands under its name, and the others as before.
  pub members-update_from :
      (n : Text) → after.members n ≡ ite (text_discrete name n) (some outcome.1) (s.members n)
  members-update_from n =
      ap (λ (r : Result (Unit {0}) × Members). r.1.members n) update_from_lem
      ∙ ap (λ (f : Text → Option Member). f n) (local-finish name outcome s).1

  pub members-update_from_self : after.members name ≡ some outcome.1
  members-update_from_self = members-update_from name ∙ ground arith

-- An update by this process that gives a member a real status leads it where `transition` says.
pub update_moves :
    (name : Text) (status t : Status) (now : ℕ) (s : Members) (m : Member)
    → IsValid s
    → s.members name ≡ some m
    → IsReal status
    → transition m.status status ≡ ok t
    → (m' : Member) × ((update name (some status) none now s).1.members name ≡ some m')
      × (m'.status ≡ t)
unfolding update
update_moves name status t now s m v found real moved =
    let fits = v.each name m found in
    (
      (outcome name none s.next_clock (some status) none now s m found).1,
      members-update_from_self name none s.next_clock (some status) none now s m found,
      update_given s.next_clock s.next_clock now status t m fits.settled fits.behind moved none
          (λ e h.
            real_accepted (some status) real
              ((update-raise_iff none s.next_clock (some status) none s.next_clock now m e
                  fits.settled).0
                h).1),
    )

-- Newer gossip about another member leads it where `update_newer` says.
pub apply_moves :
    (name source : Text) (clock : ℕ) (status t : Status) (metadata : Option Metadata) (now : ℕ)
    (s : Members) (m : Member)
    → IsValid s
    → s.members name ≡ some m
    → name ≢ s.local
    → m.clock < clock
    → transition m.status status ≡ ok t
    → (m' : Member) × ((apply name source clock (status) metadata now s).1.members name ≡ some m')
      × (m'.status ≡ t)
      × (m'.metadata_dict ≡ known_after m metadata)
      × (m'.clock ≡ (if differs m t metadata then clock else m.clock))
unfolding apply
apply_moves name source clock status t metadata now s m v found other newer moved =
    let fits = v.each name m found in
    let remote : m.local ≡ false = ground (arith, fits.is_local) in
    let (done, at_t, known, clocked) =
      update_newer m source clock status t s.next_clock now fits.settled newer remote moved
        metadata in
    (
      (outcome name (some source) clock (some status) metadata now s m found).1,
      members-update_from_self name (some source) clock (some status) metadata now s m found,
      at_t,
      known,
      clocked,
    )

-- Gossip about the local member leaves its status.
pub apply_local :
    (source : Text) (clock : ℕ) (status : Status) (metadata : Option Metadata) (now : ℕ)
    (s : Members) (m : Member)
    → IsValid s
    → s.members s.local ≡ some m
    → (m' : Member) × ((apply s.local source clock status metadata now s).1.members s.local
        ≡ some m')
      × (m'.status ≡ m.status)
unfolding apply
apply_local source clock status metadata now s m v found =
    let fits = v.each s.local m found in
    (
      (outcome s.local (some source) clock (some status) metadata now s m found).1,
      members-update_from_self s.local (some source) clock (some status) metadata now s m found,
      (update_local (some source) clock (some status) metadata s.next_clock now m
          (ground (arith, fits.is_local)) (λ e. cc)).0,
    )
