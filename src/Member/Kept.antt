-- ===== src/Member/Kept.antt =====
-- What an update keeps: a real status, and everything else where it reports no change.
use swim_protocol.Prelude.{
  ℕ, Bool, false, Text, Option, none, some, ◌≡◌, ◌⊎◌, inl, inr, refl, arith, not, ◌||◌, ltb,
  Bool-cases, ite, subst, sym,
}
use swim_protocol.Result.{Result, ok, and_then_gives}
use swim_protocol.Status.{Status, status_discrete}
use swim_protocol.Status.Transition.{IsReal, transition-IsReal}
use swim_protocol.Packet.{Metadata}
use swim_protocol.Member.Defs.{
  Member, is_some, same_items, set_clock, set_status, set_metadata, save, if_given, update,
}
use swim_protocol.Member.Update.{IsSettled}

-- A status that an update may carry: none, or a real one.
abbrev pub IsRealIfGiven : Option Status → Type 0
IsRealIfGiven none = Unit {0}
IsRealIfGiven (some s) = IsReal s

-- The status is real, and so is one that is pending.
abbrev HoldsReal : Member → Type 0
HoldsReal m = IsReal m.status × IsRealIfGiven m.pending_status

set_clock-HoldsReal : (clock : ℕ) (m : Member) → HoldsReal m → HoldsReal (set_clock clock m).1
unfolding set_clock
set_clock-HoldsReal clock m h = elim (Bool-cases (is_some m.pending_clock)) [
  | inl e ↦ rw e h
  | inr e ↦ rw e (elim (Bool-cases (ltb m.clock clock)) [ inl q ↦ rw q h | inr q ↦ rw q h ])
]

set_status-HoldsReal :
    (s : Status) (m : Member) → IsReal s → HoldsReal m → HoldsReal (set_status s m).1
unfolding set_status
set_status-HoldsReal s m r h = elim (Bool-cases (is_some m.pending_status)) [
  | inl e ↦ rw e h
  | inr e ↦
      let (t, moved, real, _, _) = transition-IsReal m.status s h.0 r in
      rw (e, moved)
        (elim (status_discrete t m.status)
          as (λ d. HoldsReal (ite d m (record m { pending_status = some t }))) [
            | yes q ↦ h
            | no q ↦ (h.0, real)
          ])
]

set_metadata-HoldsReal : (d : Metadata) (m : Member) → HoldsReal m → HoldsReal (set_metadata d m).1
unfolding set_metadata
set_metadata-HoldsReal d m h = elim (Bool-cases (is_some m.pending_metadata)) [
  | inl e ↦ rw e h
  | inr e ↦
      rw e (elim (Bool-cases (not (is_some m.metadata_dict) || not (same_items d m.metadata))) [
        | inl q ↦ rw q h
        | inr q ↦ rw q h
      ])
]

status-save :
    (src : Option Text) (next_clock now : ℕ) (m : Member)
    → ((save src next_clock now m).1.status ≡ m.status)
      ⊎ (m.pending_status ≡ some (save src next_clock now m).1.status)
unfolding save
status-save src next_clock now m = ground arith

pending-save :
    (src : Option Text) (next_clock now : ℕ) (m : Member) → IsSettled (save src next_clock now m).1
unfolding save
pending-save src next_clock now m = ground arith

save-HoldsReal :
    (src : Option Text) (next_clock now : ℕ) (m : Member)
    → HoldsReal m
    → HoldsReal (save src next_clock now m).1
save-HoldsReal src next_clock now m h =
    let none_left = (pending-save src next_clock now m).status_none in
    elim (status-save src next_clock now m) [
      | inl e ↦ (subst IsReal (sym e) h.0, subst IsRealIfGiven (sym none_left) tt)
      | inr e ↦ (subst IsRealIfGiven e h.1, subst IsRealIfGiven (sym none_left) tt)
    ]

given_status-HoldsReal :
    (status : Option Status) (m : Member)
    → IsRealIfGiven status
    → HoldsReal m
    → HoldsReal (if_given status set_status m).1
given_status-HoldsReal none m g h = h
given_status-HoldsReal (some s) m g h = set_status-HoldsReal s m g h

given_metadata-HoldsReal :
    (metadata : Option Metadata) (m : Member)
    → HoldsReal m
    → HoldsReal (if_given metadata set_metadata m).1
given_metadata-HoldsReal none m h = h
given_metadata-HoldsReal (some d) m h = set_metadata-HoldsReal d m h

-- An update that carries no status or a real one leaves a real status real.
pub update-HoldsReal :
    (src : Option Text) (clock : ℕ) (status : Option Status) (metadata : Option Metadata)
    (next_clock now : ℕ) (m : Member)
    → HoldsReal m
    → IsRealIfGiven status
    → HoldsReal (update src clock status metadata next_clock now m).1
unfolding update
update-HoldsReal src clock status metadata next_clock now m h g =
    and_then_gives HoldsReal Held (set_clock clock m) _ (set_clock-HoldsReal clock m h) (λ _ _ r. r)
      λ _ m1 h1.
        and_then_gives HoldsReal Held (if_given status set_status m1) _
          (given_status-HoldsReal status m1 g h1) (λ _ _ r. r)
          λ _ m2 h2.
            and_then_gives HoldsReal Held (if_given metadata set_metadata m2) _
              (given_metadata-HoldsReal metadata m2 h2) (λ _ _ r. r)
              λ _ m3 h3. save-HoldsReal src next_clock now m3 h3
  where
    Held : Result Bool × Member → Type 0
    Held r = HoldsReal r.1

-- The status and the clock are as before.
abbrev Same : Member → Member → Type 0
Same m m' = (m'.status ≡ m.status) × (m'.clock ≡ m.clock)

Same-set_clock : (clock : ℕ) (m : Member) → Same m (set_clock clock m).1
unfolding set_clock
Same-set_clock clock m = ground arith

Same-set_status : (status : Option Status) (m : Member) → Same m (if_given status set_status m).1
unfolding set_status
Same-set_status none m = (refl, refl)
Same-set_status (some s) m = ground arith

Same-set_metadata :
    (metadata : Option Metadata) (m : Member) → Same m (if_given metadata set_metadata m).1
unfolding set_metadata
Same-set_metadata none m = (refl, refl)
Same-set_metadata (some d) m = ground arith

Same-save :
    (src : Option Text) (next_clock now : ℕ) (m : Member)
    → (save src next_clock now m).0 ≡ false
    → Same m (save src next_clock now m).1
unfolding save
Same-save src next_clock now m e = ground arith

-- An update that reports no change leaves the status and the clock as they were.
pub update_unchanged :
    (src : Option Text) (clock : ℕ) (status : Option Status) (metadata : Option Metadata)
    (next_clock now : ℕ) (m : Member)
    → (update src clock status metadata next_clock now m).0 ≡ ok false
    → Same m (update src clock status metadata next_clock now m).1
unfolding update
update_unchanged src clock status metadata next_clock now m =
    and_then_gives (Same m) Unchanged (set_clock clock m) _ (Same-set_clock clock m) (λ e s p q. cc)
      λ _ m1 s1.
        and_then_gives (Same m) Unchanged (if_given status set_status m1) _
          (ground (arith, Same-set_status status m1)) (λ e s p q. cc)
          λ _ m2 s2.
            and_then_gives (Same m) Unchanged (if_given metadata set_metadata m2) _
              (ground (arith, Same-set_metadata metadata m2)) (λ e s p q. cc)
              λ _ m3 s3 e. ground (arith, Same-save src next_clock now m3)
  where
    Unchanged : Result Bool × Member → Type 0
    Unchanged r = r.0 ≡ ok false → Same m r.1

-- The status is as before, and none is pending.
abbrev Quiet : Member → Member → Type 0
Quiet m m' = (m'.status ≡ m.status) × (m'.pending_status ≡ none)

Quiet-set_clock : (clock : ℕ) (m : Member) → m.pending_status ≡ none → Quiet m (set_clock clock m).1
unfolding set_clock
Quiet-set_clock clock m h = ground arith

Quiet-set_metadata :
    (metadata : Option Metadata) (m : Member)
    → m.pending_status ≡ none
    → Quiet m (if_given metadata set_metadata m).1
unfolding set_metadata
Quiet-set_metadata none m h = (refl, h)
Quiet-set_metadata (some d) m h = ground arith

Quiet-save :
    (src : Option Text) (next_clock now : ℕ) (m : Member)
    → m.pending_status ≡ none
    → Quiet m (save src next_clock now m).1
Quiet-save src next_clock now m h =
    ground (arith, status-save src next_clock now m, pending-save src next_clock now m)

-- An update without a status leaves the status of a settled member.
pub update_statusless :
    (src : Option Text) (clock : ℕ) (metadata : Option Metadata) (next_clock now : ℕ) (m : Member)
    → m.pending_status ≡ none
    → (update src clock none metadata next_clock now m).1.status ≡ m.status
unfolding update
update_statusless src clock metadata next_clock now m h =
    (and_then_gives (Quiet m) Held (set_clock clock m) _ (Quiet-set_clock clock m h) (λ _ _ r. r)
      λ _ m1 q1.
        and_then_gives (Quiet m) Held (if_given metadata set_metadata m1) _
          (ground (arith, Quiet-set_metadata metadata m1)) (λ _ _ r. r)
          λ _ m2 q2. ground (arith, Quiet-save src next_clock now m2)).0
  where
    Held : Result Bool × Member → Type 0
    Held r = Quiet m r.1
