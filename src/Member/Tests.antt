-- ===== src/Member/Tests.antt =====
-- Runs of an update of a member, and its theorems at concrete members.
use swim_protocol.Prelude.{
  ℕ, ◌≤◌, ◌<◌, ◌≡◌, ◌≢◌, ◌↔◌, ◌⊎◌, inl, refl, true, false, if◌then◌else◌, Text, text_discrete, [],
  ◌∷◌, Option, none, some, arith,
}
use swim_protocol.Result.{ok, raise, value_error, assertion_error}
use swim_protocol.Status.{Status, online, available, unavailable, status_discrete, transition}
use swim_protocol.Packet.{Metadata}
use swim_protocol.Member.Defs.{
  Member, new, snapshot, same_items, set_clock, set_status, set_metadata, save, update,
}
use swim_protocol.Member.Update.{IsSettled, update-raise_iff, update_stale}
use swim_protocol.Member.Gossip.{differs, known_after, update_newer, update_refuted, update_poisons}

-- A member `1` that is not local, and the local member `2`, as they are made.
abbrev other : Member
other = new (1 ∷ []) false [] 5

abbrev me : Member
me = new (2 ∷ []) true [] 5

other-IsSettled : IsSettled other
unfolding new
other-IsSettled = record { clock_none = refl; status_none = refl; metadata_none = refl }

me-IsSettled : IsSettled me
unfolding new
me-IsSettled = record { clock_none = refl; status_none = refl; metadata_none = refl }

program : Unit {0}
unfolding new snapshot same_items set_clock set_status set_metadata save update transition
    status_discrete text_discrete
program = tt

-- The gossip that the member is online, from the member `3` with the clock 4.
told : (update (some (3 ∷ [])) 4 (some online) (some []) 9 6 other).0 ≡ ok true
unfolding program
told = refl

told_clock : (update (some (3 ∷ [])) 4 (some online) (some []) 9 6 other).1.clock ≡ 4
unfolding program
told_clock = refl

newer : other.clock < 4
unfolding program
newer = omega arith

me_newer : me.clock < 4
unfolding program
me_newer = omega arith

other_remote : other.local ≡ false
unfolding program
other_remote = refl

me_local : me.local ≡ true
unfolding program
me_local = refl

other_moves : transition other.status online ≡ ok online
unfolding program
other_moves = refl

me_moves : transition me.status online ≡ ok online
unfolding program
me_moves = refl

not_itself : 3 ∷ [] ≢ other.name
unfolding program
not_itself e = cc

not_new : 0 ≤ other.clock
unfolding program
not_new = omega arith

update-raise_iff_example :
    ((update none 4 (some available) none 9 6 other).0 ≡ raise value_error) ↔ (
      (value_error ≡ value_error)
      × ((some available ≡ some available) ⊎ (some available ≡ some unavailable)))
update-raise_iff_example =
    update-raise_iff none 4 (some available) none 9 6 other value_error other-IsSettled

update_stale_example :
    update (some (3 ∷ [])) 0 (some online) (some []) 9 6 other ≡ (ok false, other)
update_stale_example =
    update_stale (some (3 ∷ [])) 0 (some online) (some []) 9 6 other (3 ∷ []) other-IsSettled refl
      not_itself not_new (λ e. cc) (λ e. cc)

update_newer_example :
    ((update (some (3 ∷ [])) 4 (some online) (some []) 9 6 other).0
      ≡ ok (differs other online (some [])))
    × ((update (some (3 ∷ [])) 4 (some online) (some []) 9 6 other).1.status ≡ online)
    × ((update (some (3 ∷ [])) 4 (some online) (some []) 9 6 other).1.metadata_dict
        ≡ known_after other (some []))
    × ((update (some (3 ∷ [])) 4 (some online) (some []) 9 6 other).1.clock
        ≡ (if differs other online (some []) then 4 else other.clock))
update_newer_example =
    update_newer other (3 ∷ []) 4 online online 9 6 other-IsSettled newer other_remote other_moves
      (some [])

update_refuted_example : update (some (3 ∷ [])) 4 (some online) none 9 6 me ≡ (
  ok (differs me online none),
  (if differs me online none then record me { clock = 9; previous = snapshot me } else me),
)
update_refuted_example =
    update_refuted me (3 ∷ []) 4 online none 9 6 me-IsSettled me_newer online me_local me_moves

update_poisons_example :
    ((update (some (3 ∷ [])) 4 (some available) none 9 6 other).0 ≡ raise value_error)
    × ((src : Option Text) (c : ℕ) (s : Option Status) (d : Option Metadata) (n t : ℕ)
        → update src c s d n t (update (some (3 ∷ [])) 4 (some available) none 9 6 other).1
          ≡ (raise assertion_error, (update (some (3 ∷ [])) 4 (some available) none 9 6 other).1))
update_poisons_example =
    update_poisons other (3 ∷ []) 4 available none 9 6 other-IsSettled newer (inl refl)
