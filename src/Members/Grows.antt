-- ===== src/Members/Grows.antt =====
-- `get` and `ack_gossip` of swimprotocol/members.py keep the registry valid, and so does the
-- constructor begin with a valid one.
use swim_protocol.Prelude.{
  ap, ℕ, ◌≡◌, ◌∙◌, refl, sym, false, Text, Bytes, text_discrete, [], ◌∷◌, ◌++◌, Option, none, some,
  arith, Bool-cases, Option-cases, inl, inr, leb, subst,
}
use swim_protocol.Status.{all_statuses}
use swim_protocol.Status.Transition.{IsReal}
use swim_protocol.Shuffle.{mem}
use swim_protocol.Shuffle.Content.{mem-append, append-IsDistinct}
use swim_protocol.Member.{Member, new}
use swim_protocol.Member.Update.{IsSettled}
use swim_protocol.Members.Defs.{Members, put, get, enrol_loop, ack_gossip, check_validity}
use swim_protocol.Members.Statuses.{in_shuffle-enrol_loop}
use swim_protocol.Members.Valid.{is_remote, IsValid, IsValidMember, stored, put-IsValid}

-- What the registry's invariant reads of a member is the same.
pub record Alike (m m' : Member) : Type 0 where
  pub named : m'.name ≡ m.name
  pub placed : m'.local ≡ m.local
  pub clocked : m'.clock ≡ m.clock
  pub status : m'.status ≡ m.status
  pub settled : IsSettled m → IsSettled m'

Alike-check_validity : (validity : Option Bytes) (m : Member) → Alike m (check_validity validity m)
Alike-check_validity none m = record {
  named = refl;
  placed = refl;
  clocked = refl;
  status = refl;
  settled = λ h. h;
}
Alike-check_validity (some b) m = record {
  named = ground arith;
  placed = ground arith;
  clocked = ground arith;
  status = ground arith;
  settled = λ h. ground arith;
}

module _ (s : Members) (name : Text) (m m' : Member) (v : IsValid s) (alike : Alike m m') where
  Alike-IsValidMember :
      IsValidMember s.local s.next_clock name m → IsValidMember s.local s.next_clock name m'
  Alike-IsValidMember h = record {
    named = alike.named ∙ h.named;
    is_local = alike.placed ∙ h.is_local;
    settled = alike.settled h.settled;
    behind = omega (arith, alike.clocked, h.behind);
    real = subst IsReal (sym alike.status) h.real;
  }

  -- A member is replaced by one that is alike.
  replace-IsValid : s.members name ≡ some m → IsValid (record s { members = put name m' s.members })
  replace-IsValid found =
      put-IsValid s name m' s.next_clock s.listener s.non_local s.statuses v (omega arith)
        (Alike-IsValidMember (v.each name m found)) v.distinct
        (λ n. ground (arith, v.others n, alike.placed))
        (λ st n h. ground (arith, v.shuffled st n h, alike.placed, alike.status))

module _ (s : Members) (name : Text) (validity : Option Bytes) (random : Bytes) (now : ℕ)
    (v : IsValid s) where
  abbrev fresh : Member
  fresh = new name false random now

  fresh_fits : s.members name ≡ none → IsValidMember s.local s.next_clock name fresh
  unfolding new
  fresh_fits unknown =
      let (m, there) = v.local_there in
      let old = (v.each s.local m there).behind in
      record {
        named = refl;
        is_local = ground (arith, there);
        settled = record { clock_none = refl; status_none = refl; metadata_none = refl };
        behind = omega (arith, old);
        real = inr (inl refl);
      }

  -- A new member enters.
  enter-IsValid :
      (m' : Member)
      → Alike fresh m'
      → s.members name ≡ none
      → IsValid (
          stored s name m' s.next_clock s.listener
            (s.non_local ++ name ∷ [])
            (enrol_loop fresh all_statuses s.statuses))
  unfolding new mem
  enter-IsValid m' alike unknown =
      put-IsValid s name m' s.next_clock s.listener _ _ v (omega arith)
        (Alike-IsValidMember s name fresh m' v alike (fresh_fits unknown))
        (append-IsDistinct text_discrete name s.non_local v.distinct
          (v.others name ∙ ap is_remote unknown))
        (λ n.
          ground
            (arith, mem-append text_discrete n s.non_local (name ∷ []), v.others n, alike.placed))
        (λ st n h.
          rw (in_shuffle-enrol_loop fresh all_statuses s.statuses st n, h)
            (ground (arith, v.shuffled st n h, alike.placed, alike.status)))

  pub get-IsValid : IsValid (get name validity random now s)
  unfolding get
  get-IsValid = elim (Option-cases (s.members name)) [
    | inl unknown ↦
        rw (unknown, get)
          (enter-IsValid (check_validity validity fresh) (Alike-check_validity validity fresh)
            unknown)
    | inr (m, found) ↦
        rw (found, get) (replace-IsValid s name m _ v (Alike-check_validity validity m) found)
  ]

pub ack_gossip-IsValid :
    (member source : Text) (clock : ℕ) (s : Members)
    → IsValid s
    → IsValid (ack_gossip member source clock s).1
unfolding ack_gossip
ack_gossip-IsValid member source clock s v = elim (Bool-cases (leb clock s.next_clock)) [
  | inr late ↦ rw late v
  | inl fits ↦ elim (Option-cases (s.members source)) [
    | inl unknown ↦ rw (fits, unknown, ack_gossip) v
    | inr (m, found) ↦
        rw (fits, found, ack_gossip)
          (replace-IsValid s source m _ v
            (record {
              named = refl;
              placed = refl;
              clocked = refl;
              status = refl;
              settled = λ h. record {
                clock_none = h.clock_none;
                status_none = h.status_none;
                metadata_none = h.metadata_none;
              };
            })
            found)
  ]
]
