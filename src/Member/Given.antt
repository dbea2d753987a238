-- ===== src/Member/Given.antt =====
-- An update from this process itself, with a status.
use swim_protocol.Prelude.{ℕ, ◌<◌, Bool, Option, none, some, ◌≡◌, ◌≢◌, ◌⊎◌, refl, arith}
use swim_protocol.Result.{Result, Error, ok, raise, and_then_gives}
use swim_protocol.Status.{Status, transition}
use swim_protocol.Packet.{Metadata}
use swim_protocol.Member.Defs.{Member, set_clock, set_status, set_metadata, save, if_given, update}
use swim_protocol.Member.Update.{IsSettled}

module _ (clock next_clock now : ℕ) (status t : Status) (m : Member) (h : IsSettled m)
    (newer : m.clock < clock) (moved : transition m.status status ≡ ok t) where
  -- The clock is pending, and the status is the wanted one or will be.
  abbrev Timed : Member → Type 0
  Timed m' = (m'.pending_clock ≡ some clock) × (m'.status ≡ m.status) × (m'.pending_status ≡ none)

  abbrev Wants : Member → Type 0
  Wants m' =
      (m'.pending_clock ≡ some clock)
      × (((m'.status ≡ t) × (m'.pending_status ≡ none)) ⊎ (m'.pending_status ≡ some t))

  abbrev Reached : Result Bool × Member → Type 0
  Reached r = ((e : Error) → r.0 ≢ raise e) → r.1.status ≡ t

  timed : Timed (set_clock clock m).1
  unfolding set_clock
  timed = ground arith

  Wants-set_status : (m1 : Member) → Timed m1 → Wants (set_status status m1).1
  unfolding set_status
  Wants-set_status m1 p = ground arith

  Wants-set_metadata :
      (metadata : Option Metadata) (m2 : Member)
      → Wants m2
      → Wants (if_given metadata set_metadata m2).1
  unfolding set_metadata
  Wants-set_metadata none m2 w = w
  Wants-set_metadata (some d) m2 w = ground arith

  reached_save : (m3 : Member) → Wants m3 → (save none next_clock now m3).1.status ≡ t
  unfolding save
  reached_save m3 w = ground arith

  -- A status that this process gives a member is where `transition` leads, unless the call raises.
  pub update_given :
      (metadata : Option Metadata)
      → ((e : Error) → (update none clock (some status) metadata next_clock now m).0 ≢ raise e)
      → (update none clock (some status) metadata next_clock now m).1.status ≡ t
  unfolding update
  update_given metadata =
      and_then_gives Timed Reached (set_clock clock m) _ timed (λ e s p n. absurd (n e refl))
        λ _ m1 p1.
          and_then_gives Wants Reached (set_status status m1) _ (Wants-set_status m1 p1)
            (λ e s p n. absurd (n e refl))
            λ _ m2 p2.
              and_then_gives Wants Reached (if_given metadata set_metadata m2) _
                (Wants-set_metadata metadata m2 p2) (λ e s p n. absurd (n e refl))
                λ _ m3 p3 n. reached_save m3 p3
