-- ===== src/Member/Update.antt =====
-- What one update does to a member.
use swim_protocol.Prelude.{
  ℕ, ◌≤◌, ◌<◌, Bool, true, false, Text, Option, none, some, ◌≡◌, ◌≢◌, ◌⊎◌, ◌↔◌, arith,
}
use swim_protocol.Result.{Result, ok, raise, Error, value_error}
use swim_protocol.Status.{Status, available, unavailable, transition}
use swim_protocol.Packet.{Metadata}
use swim_protocol.Member.Defs.{Member, set_clock, set_status, set_metadata, save, update}

-- No change is under way.
pub record IsSettled (m : Member) : Type 0 where
  pub clock_none : m.pending_clock ≡ none
  pub status_none : m.pending_status ≡ none
  pub metadata_none : m.pending_metadata ≡ none

module _ (src : Option Text) (clock : ℕ) (status : Option Status) (metadata : Option Metadata)
    (next_clock now : ℕ) (m : Member) where
  abbrev outcome : Result Bool × Member
  outcome = update src clock status metadata next_clock now m

  -- An update of a settled member that does not raise leaves it settled.
  pub update-IsSettled : {b : Bool} → IsSettled m → outcome.0 ≡ ok b → IsSettled outcome.1
  unfolding update set_clock set_status set_metadata save
  update-IsSettled h e = ground arith

  -- On a settled member an update raises only ValueError, and does so exactly for the status
  -- AVAILABLE or UNAVAILABLE. The aggregate ALL is accepted.
  pub update-raise_iff :
      (e : Error)
      → IsSettled m
      → (outcome.0 ≡ raise e)
        ↔ ((e ≡ value_error) × ((status ≡ some available) ⊎ (status ≡ some unavailable)))
  unfolding update set_clock set_status set_metadata save transition
  update-raise_iff e h = (λ r. ground arith, λ r. ground arith)

  -- An update of a settled member whose clock is below the next clock never moves its clock
  -- back.
  clock-update-le : m.clock < next_clock → IsSettled m → m.clock ≤ outcome.1.clock
  unfolding update set_clock set_status set_metadata save
  clock-update-le h e = ground arith

  -- Nor does it pass both the clock of the update and the next clock of the cluster.
  pub clock-update-bound :
      m.clock < next_clock
      → IsSettled m
      → (outcome.1.clock ≤ clock) ⊎ (outcome.1.clock ≤ next_clock)
  unfolding update set_clock set_status set_metadata save
  clock-update-bound h e = ground arith

  -- The fields that no update writes.
  pub update_keeps :
      (outcome.1.name ≡ m.name)
      × (outcome.1.local ≡ m.local)
      × (outcome.1.validity ≡ m.validity)
      × (outcome.1.known_clocks ≡ m.known_clocks)
  unfolding update set_clock set_status set_metadata save
  update_keeps = ground arith

  -- Gossip about the local member, whatever it says and even if it raises, changes neither its
  -- status nor its metadata.
  pub update_local :
      m.local ≡ true
      → src ≢ none
      → (outcome.1.status ≡ m.status)
        × (outcome.1.metadata ≡ m.metadata)
        × (outcome.1.metadata_dict ≡ m.metadata_dict)
  unfolding update set_clock set_status set_metadata save
  update_local h e = ground arith

  -- Gossip about a settled member that is no newer than what is known, not from the member
  -- itself and not of the status AVAILABLE or UNAVAILABLE, changes nothing.
  pub update_stale :
      (teller : Text)
      → IsSettled m
      → src ≡ some teller
      → teller ≢ m.name
      → clock ≤ m.clock
      → status ≢ some available
      → status ≢ some unavailable
      → outcome ≡ (ok false, m)
  unfolding update set_clock set_status set_metadata save transition
  update_stale teller h e ne old na nu = ground arith
