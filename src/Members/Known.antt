-- ===== src/Members/Known.antt =====
-- Which members are in the registry of swimprotocol/members.py: none ever leaves it, and calls about
-- those that are there do not raise.
use swim_protocol.Prelude.{
  ℕ, ◌≡◌, ◌<◌, ◌↔◌, ◌∙◌, ap, Bool, true, Text, Bytes, Option, none, some, arith, Option-cases, inl,
  inr,
}
use swim_protocol.Result.{ok, raise, Error, assertion_error}
use swim_protocol.Status.{Status}
use swim_protocol.Packet.{Metadata}
use swim_protocol.Member.{Member, is_some}
use swim_protocol.Member.Kept.{IsRealIfGiven}
use swim_protocol.Members.Defs.{Members, put, get, update_from, update, apply, ack_gossip}
use swim_protocol.Members.Valid.{IsValid}
use swim_protocol.Members.Keeps.{update_from-IsValid}
use swim_protocol.Members.History.{Call, gets, updates, applies, acks, step}
use swim_protocol.Members.LocalName.{local-finish}

abbrev pub has : Members → Text → Bool
has s name = is_some (s.members name)

pub found_of_has :
    (s : Members) (name : Text) → has s name ≡ true → (m : Member) × (s.members name ≡ some m)
found_of_has s name h = elim (Option-cases (s.members name)) [
  | inl unknown ↦ absurd (ground arith)
  | inr found ↦ found
]

has-put :
    (f : Text → Option Member) (name : Text) (m : Member) (n : Text)
    → is_some (f n) ≡ true
    → is_some (put name m f n) ≡ true
has-put f name m n h = ground arith

has-get :
    (name : Text) (validity : Option Bytes) (random : Bytes) (now : ℕ) (s : Members) (n : Text)
    → has s n ≡ true
    → has (get name validity random now s) n ≡ true
unfolding get
has-get name validity random now s n h = ground arith

pub has-get_self :
    (name : Text) (validity : Option Bytes) (random : Bytes) (now : ℕ) (s : Members)
    → has (get name validity random now s) name ≡ true
unfolding get
has-get_self name validity random now s = ground arith

has-update_from :
    (name : Text) (source : Option Text) (clock : ℕ) (status : Option Status)
    (metadata : Option Metadata) (now : ℕ) (s : Members) (n : Text)
    → has s n ≡ true
    → has (update_from name source clock status metadata now s).1 n ≡ true
unfolding update_from
has-update_from name source clock status metadata now s n h = elim (Option-cases (s.members name)) [
  | inl unknown ↦ rw (unknown, update_from) h
  | inr (k, found) ↦
      rw (found, update_from)
        (ap (λ (f : Text → Option Member). is_some (f n)) (local-finish name _ s).1
          ∙ has-put s.members name _ n h)
]

has-ack_gossip :
    (member source : Text) (clock : ℕ) (s : Members) (n : Text)
    → has s n ≡ true
    → has (ack_gossip member source clock s).1 n ≡ true
unfolding ack_gossip
has-ack_gossip member source clock s n h = ground arith

-- No call takes a member out of the registry.
pub has-step : (c : Call) (s : Members) (n : Text) → has s n ≡ true → has (step c s) n ≡ true
unfolding step update apply
has-step (gets name validity random now) s n h = has-get name validity random now s n h
has-step (updates name status metadata now) s n h =
    has-update_from name none s.next_clock status metadata now s n h
has-step (applies name source clock status metadata now) s n h =
    has-update_from name (some source) clock (some status) metadata now s n h
has-step (acks member source clock) s n h = has-ack_gossip member source clock s n h

-- An update of a member that is there, with no status or a real one, does not raise.
pub update_accepted :
    (name : Text) (status : Option Status) (metadata : Option Metadata) (now : ℕ) (s : Members)
    → IsValid s
    → IsRealIfGiven status
    → has s name ≡ true
    → (update name status metadata now s).0 ≡ ok tt
unfolding update
update_accepted name status metadata now s v real h =
    let (m, found) = found_of_has s name h in
    (update_from-IsValid name none s.next_clock status metadata now s v real m found).0

pub apply_accepted :
    (name source : Text) (clock : ℕ) (status : Status) (metadata : Option Metadata) (now : ℕ)
    (s : Members)
    → IsValid s
    → IsRealIfGiven (some status)
    → has s name ≡ true
    → (apply name source clock status metadata now s).0 ≡ ok tt
unfolding apply
apply_accepted name source clock status metadata now s v real h =
    let (m, found) = found_of_has s name h in
    (update_from-IsValid name (some source) clock (some status) metadata now s v real m found).0

-- An acknowledgement by a member that is there raises only AssertionError, exactly for a clock above
-- the next one.
pub ack_gossip-raise_iff :
    (member source : Text) (clock : ℕ) (s : Members) (e : Error)
    → has s source ≡ true
    → ((ack_gossip member source clock s).0 ≡ raise e)
      ↔ ((e ≡ assertion_error) × (s.next_clock < clock))
unfolding ack_gossip
ack_gossip-raise_iff member source clock s e h = (λ r. ground arith, λ r. ground arith)

pub next_clock-get :
    (name : Text) (validity : Option Bytes) (random : Bytes) (now : ℕ) (s : Members)
    → (get name validity random now s).next_clock ≡ s.next_clock
unfolding get
next_clock-get name validity random now s = ground arith
