-- ===== src/Members/Keeps.antt =====
-- `update` and `apply` of swimprotocol/members.py keep the registry valid.
use swim_protocol.Prelude.{
  ℕ, ◌+◌, ◌≡◌, ◌∙◌, refl, sym, Bool, true, false, not, ◌&&◌, Text, text_discrete, Option, none,
  some, ite, arith, if◌then◌else◌, Bool-cases, inl, inr, leb, subst, ◌⊎◌, ap,
}
use swim_protocol.Result.{Result, ok, raise}
use swim_protocol.Status.{Status, available, unavailable, all_statuses}
use swim_protocol.Status.Transition.{IsReal}
use swim_protocol.Shuffle.{Shuffle, mem}
use swim_protocol.Listener.{Listener, notify}
use swim_protocol.Packet.{Metadata}
use swim_protocol.Member.{Member}
use swim_protocol.Member
use swim_protocol.Member.Update.{IsSettled, update-IsSettled, update-raise_iff, update_keeps}
use swim_protocol.Member.Kept.{IsRealIfGiven, update_unchanged, update-HoldsReal}
use swim_protocol.Members.Defs.{Members, finish, refresh_statuses, refresh_loop, update_from}
use swim_protocol.Members.Statuses.{in_shuffle, listed, in_shuffle-refresh_loop}
use swim_protocol.Members.Valid.{IsValid, IsValidMember, is_remote, is_listed, stored, put-IsValid}

module _ (s : Members) (name : Text) (m m' : Member) (v : IsValid s)
    (found : s.members name ≡ some m) (named : m'.name ≡ name) (placed : m'.local ≡ m.local)
    (settled : IsSettled m') (real : IsReal m'.status) where
  abbrev next : ℕ
  next = if leb s.next_clock m'.clock then m'.clock + 1 else s.next_clock

  fits : IsValidMember s.local next name m'
  fits =
      let old = v.each name m found in
      record {
        named = named;
        is_local = placed ∙ old.is_local;
        settled = settled;
        behind = ground arith;
        real = real;
      }

  remote :
      (n : Text)
      → mem text_discrete n s.non_local
        ≡ ite (text_discrete name n) (not m'.local) (is_remote (s.members n))
  remote n = ground (arith, v.others n)

  -- The shuffles are right for the new status: they are refreshed, or it is the old one.
  refreshed :
      (st : Status) (n : Text)
      → listed st all_statuses ≡ true
      → m'.local ≡ false
      → in_shuffle n (refresh_loop m' all_statuses s.statuses st)
        ≡ ite (text_discrete name n) (is_listed st (some m')) (is_listed st (s.members n))
  refreshed st n h r =
      rw (in_shuffle-refresh_loop m' all_statuses s.statuses st n, h)
        (ground (arith, v.shuffled st n h))

  unrefreshed :
      (st : Status) (n : Text)
      → listed st all_statuses ≡ true
      → (m'.local ≡ true) ⊎ (m'.status ≡ m.status)
      → in_shuffle n (s.statuses st)
        ≡ ite (text_discrete name n) (is_listed st (some m')) (is_listed st (s.members n))
  unrefreshed st n h r = ground (arith, v.shuffled st n h)

  abbrev told : Bool → Listener Text
  told updated = if updated then notify name s.listener else s.listener

  abbrev sorted : Bool → Status → Shuffle Text
  sorted updated =
      if updated && not m'.local then refresh_loop m' all_statuses s.statuses else s.statuses

  finish-eq-stored :
      (updated : Bool)
      → (finish name (ok updated, m') s).1
        ≡ stored s name m' next (told updated) s.non_local (sorted updated)
  unfolding refresh_statuses
  finish-eq-stored true = elim (Bool-cases m'.local) [
    | inl e ↦ rw (e, refresh_statuses) (ground arith)
    | inr e ↦ rw (e, refresh_statuses) (ground arith)
  ]
  finish-eq-stored false = ground arith

  sorted_right :
      (updated : Bool)
      → (updated ≡ false → m'.status ≡ m.status)
      → (st : Status) (n : Text) → listed st all_statuses ≡ true
      → in_shuffle n (sorted updated st)
        ≡ ite (text_discrete name n) (is_listed st (some m')) (is_listed st (s.members n))
  sorted_right false same st n h = unrefreshed st n h (inr (same refl))
  sorted_right true same st n h = elim (Bool-cases m'.local) [
    | inl e ↦ ground (arith, unrefreshed st n h (inl e))
    | inr e ↦ ground (arith, refreshed st n h e)
  ]

  finish-IsValid :
      (updated : Bool)
      → (updated ≡ false → m'.status ≡ m.status)
      → IsValid (finish name (ok updated, m') s).1
  finish-IsValid updated same = rw finish-eq-stored (
      put-IsValid s name m' next (told updated) s.non_local (sorted updated) v (ground arith) fits
        v.distinct remote (sorted_right updated same))

pub real_accepted :
    (status : Option Status)
    → IsRealIfGiven status
    → ¬ ((status ≡ some available) ⊎ (status ≡ some unavailable))
real_accepted none r h = ground arith
real_accepted (some st) r h = ground arith

module _ (name : Text) (source : Option Text) (clock : ℕ) (status : Option Status)
    (metadata : Option Metadata) (now : ℕ) (s : Members) (v : IsValid s)
    (real : IsRealIfGiven status) (m : Member) (found : s.members name ≡ some m) where
  abbrev outcome : Result Bool × Member
  outcome = Member.update source clock status metadata s.next_clock now m

  outcome_kept :
      (r : Result Bool × Member)
      → outcome ≡ r
      → ((finish name r s).0 ≡ ok tt) × IsValid (finish name r s).1
  outcome_kept (raise e, m') h =
      let old = v.each name m found in
      absurd (
        real_accepted status real
          ((update-raise_iff source clock status metadata s.next_clock now m e old.settled).0
            (ap (λ r. r.0) h)).1)
  outcome_kept (ok updated, m') h =
      let old = v.each name m found in
      let (named, placed, _, _) = update_keeps source clock status metadata s.next_clock now m in
      let moved : m' ≡ outcome.1 = ap (λ r. r.1) (sym h) in
      (
        refl,
        finish-IsValid s name m m' v found (ap (λ k. k.name) moved ∙ named ∙ old.named)
            (ap (λ k. k.local) moved ∙ placed)
            (subst IsSettled (sym moved) (
              update-IsSettled source clock status metadata s.next_clock now m old.settled
                (ap (λ r. r.0) h)))
            (subst (λ k. IsReal k.status) (sym moved)
              (update-HoldsReal source clock status metadata s.next_clock now m
                (old.real, subst IsRealIfGiven (sym old.settled.status_none) tt) real).0)
            updated
            (λ e.
              ap (λ k. k.status) moved
              ∙ (update_unchanged source clock status metadata s.next_clock now m
                  (ap (λ r. r.0) h ∙ ap ok e)).0),
      )

  -- An update of a member of the registry that carries no status or a real one does not raise, and
  -- leaves the registry valid.
  pub update_from-IsValid :
      ((update_from name source clock status metadata now s).0 ≡ ok tt)
      × IsValid (update_from name source clock status metadata now s).1
  unfolding update_from
  update_from-IsValid = rw (found, update_from) (outcome_kept outcome refl)
