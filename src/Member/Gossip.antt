-- ===== src/Member/Gossip.antt =====
-- What newer gossip does to a member that is not local, to the local one, and after a status that
-- `transition` refuses.
use swim_protocol.Prelude.{
  ℕ, ◌<◌, Bool, true, false, not, ◌&&◌, ite, Text, Option, none, some, ◌≡◌, ◌⊎◌, refl, arith,
  if◌then◌else◌,
}
use swim_protocol.Result.{Result, ok, raise, assertion_error, value_error}
use swim_protocol.Status.{Status, available, unavailable, status_discrete, transition}
use swim_protocol.Packet.{Metadata}
use swim_protocol.Member.Defs.{
  Member, is_some, snapshot, same_items, set_clock, set_status, set_metadata, save, update,
}
use swim_protocol.Member.Update.{IsSettled}

module _ (m : Member) where
  -- Whether metadata is new: there was none, or other items.
  abbrev pub is_new : Metadata → Bool
  is_new d = not (is_some m.metadata_dict && same_items d m.metadata)

  -- Whether a member's state differs from what gossip says of it, by status or by metadata.
  abbrev pub differs : Status → Option Metadata → Bool
  differs t none = ite (status_discrete t m.status) false true
  differs t (some d) = not (ite (status_discrete t m.status) true false && not (is_new d))

  abbrev pub known_after : Option Metadata → Option Metadata
  known_after none = m.metadata_dict
  known_after (some d) = if is_new d then some d else m.metadata_dict

  module _ (teller : Text) (clock : ℕ) (status t : Status) (next_clock now : ℕ) (h : IsSettled m)
      (newer : m.clock < clock) (r : m.local ≡ false) (e : transition m.status status ≡ ok t) where
    abbrev taken : Option Metadata → Result Bool × Member
    taken metadata = update (some teller) clock (some status) metadata next_clock now m

    abbrev Takes : Bool → Option Metadata → Result Bool × Member → Type 0
    Takes changed known (result, m') =
        (result ≡ ok changed)
        × (m'.status ≡ t)
        × (m'.metadata_dict ≡ known)
        × (m'.clock ≡ (if changed then clock else m.clock))

    -- The three steps before `_save`, each on the member as the one before leaves it.
    clock_set : set_clock clock m ≡ (ok tt, record m { pending_clock = some clock })
    unfolding set_clock
    clock_set = ground arith

    abbrev with_status : Member
    with_status = record m {
      pending_clock = some clock;
      pending_status = ite (status_discrete t m.status) none (some t);
    }

    status_set : set_status status (record m { pending_clock = some clock }) ≡ (ok tt, with_status)
    unfolding set_status
    status_set = ground arith

    abbrev with_metadata : Metadata → Bool → Member
    with_metadata d new = record with_status { pending_metadata = if new then some d else none }

    metadata_set : (d : Metadata) → set_metadata d with_status ≡ (ok tt, with_metadata d (is_new d))
    unfolding set_metadata
    metadata_set d = ground arith

    abbrev after_save : Member → Result Bool × Member
    after_save m3 = let (b, m') = save (some teller) next_clock now m3 in (ok b, m')

    saved_none : Takes (differs t none) m.metadata_dict (after_save with_status)
    unfolding save
    saved_none = ground arith

    saved_some :
        (d : Metadata) (new : Bool)
        → Takes
            (not (ite (status_discrete t m.status) true false && not new))
            (if new then some d else m.metadata_dict)
            (after_save (with_metadata d new))
    unfolding save
    saved_some d true = ground arith
    saved_some d false = ground arith

    taken-some : (d : Metadata) → taken (some d) ≡ after_save (with_metadata d (is_new d))
    unfolding update
    taken-some d = rw (clock_set, status_set, metadata_set d) refl

    taken-none : taken none ≡ after_save with_status
    unfolding update
    taken-none = rw (clock_set, status_set) refl

    -- Newer gossip about a settled member that is not local, with a status that `transition`
    -- accepts, is taken over: its status is moved by `transition`, its metadata becomes what the
    -- gossip says if it says anything new, and the clock of the gossip is stored if something
    -- changed. If nothing did, the old clock stays.
    pub update_newer :
        (metadata : Option Metadata)
        → ((taken metadata).0 ≡ ok (differs t metadata))
          × ((taken metadata).1.status ≡ t)
          × ((taken metadata).1.metadata_dict ≡ known_after metadata)
          × ((taken metadata).1.clock ≡ (if differs t metadata then clock else m.clock))
    update_newer none = rw taken-none saved_none
    update_newer (some d) = rw (taken-some d) (saved_some d (is_new d))

  module _ (teller : Text) (clock : ℕ) (status : Status) (metadata : Option Metadata)
      (next_clock now : ℕ) (h : IsSettled m) (newer : m.clock < clock) where
    abbrev outcome : Result Bool × Member
    outcome = update (some teller) clock (some status) metadata next_clock now m

    -- Newer gossip about the settled local member, with a status that `transition` accepts, is
    -- refuted if it does not agree with the member: the state stays, and the clock moves to the
    -- next clock of the cluster, also where the clock of the gossip is not below that one. If it
    -- agrees nothing changes.
    pub update_refuted :
        (t : Status)
        → m.local ≡ true
        → transition m.status status ≡ ok t
        → outcome ≡ (
          ok (differs t metadata),
          (if differs t metadata
              then record m { clock = next_clock; previous = snapshot m }
              else m),
        )
    unfolding update set_clock set_status set_metadata save
    update_refuted t r e = ground arith

    -- Newer gossip about a settled member with the status AVAILABLE or UNAVAILABLE raises
    -- ValueError and leaves a change pending, and from then on every update of the member raises
    -- AssertionError and changes nothing.
    pub update_poisons :
        (status ≡ available) ⊎ (status ≡ unavailable)
        → (outcome.0 ≡ raise value_error)
          × ((src : Option Text) (c : ℕ) (s : Option Status) (d : Option Metadata) (n t : ℕ)
              → update src c s d n t outcome.1 ≡ (raise assertion_error, outcome.1))
    unfolding update set_clock set_status set_metadata save transition
    update_poisons bad = (ground arith, λ src c s d n t. ground arith)
