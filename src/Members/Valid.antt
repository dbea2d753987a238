-- ===== src/Members/Valid.antt =====
-- The invariant of the registry of swimprotocol/members.py, and how one stored member bears on it.
use swim_protocol.Prelude.{
  ℕ, ◌≤◌, ◌<◌, ◌≡◌, refl, Bool, true, false, not, ◌&&◌, Text, text_discrete, List, Option, none,
  some, ite, arith, subst,
}
use swim_protocol.Listener.{Listener}
use swim_protocol.Status.{Status, flag_and, is_set, all_statuses}
use swim_protocol.Status.Transition.{IsReal}
use swim_protocol.Shuffle.{Shuffle, mem}
use swim_protocol.Shuffle.Content.{IsDistinct}
use swim_protocol.Member.{Member}
use swim_protocol.Member.Update.{IsSettled}
use swim_protocol.Members.Defs.{Members, put}
use swim_protocol.Members.Statuses.{in_shuffle, listed}

abbrev pub is_remote : Option Member → Bool
is_remote none = false
is_remote (some m) = not m.local

-- Whether a member belongs in the shuffle of a status.
abbrev pub is_listed : Status → Option Member → Bool
is_listed st none = false
is_listed st (some m) = not m.local && is_set (flag_and m.status st)

-- The member under a name: named so, local exactly under the local name, with no change under way,
-- a clock below the next clock, and a real status.
pub record IsValidMember (local : Text) (next_clock : ℕ) (name : Text) (m : Member) : Type 0 where
  pub named : m.name ≡ name
  pub is_local : m.local ≡ ite (text_discrete local name) true false
  pub settled : IsSettled m
  pub behind : m.clock < next_clock
  pub real : IsReal m.status

-- The local member is there, every member is valid, `non_local` names exactly the others, each
-- once, and the shuffle of each status, aggregates included, holds exactly the others of that status.
pub record IsValid (s : Members) : Type 0 where
  pub local_there : (m : Member) × (s.members s.local ≡ some m)
  pub each :
      (name : Text) (m : Member)
      → s.members name ≡ some m
      → IsValidMember s.local s.next_clock name m
  pub distinct : IsDistinct text_discrete s.non_local
  pub others : (name : Text) → mem text_discrete name s.non_local ≡ is_remote (s.members name)
  pub shuffled :
      (st : Status) (name : Text)
      → listed st all_statuses ≡ true
      → in_shuffle name (s.statuses st) ≡ is_listed st (s.members name)

IsValidMember-later :
    {local : Text} {n k : ℕ} {name : Text} {m : Member}
    → n ≤ k
    → IsValidMember local n name m
    → IsValidMember local k name m
IsValidMember-later h v = record {
  named = v.named;
  is_local = v.is_local;
  settled = v.settled;
  behind = omega arith;
  real = v.real;
}

-- A member stored under a name, new or not, keeps the invariant, if the new lists and shuffles are
-- right for it and the next clock is above its clock.
module _ (s : Members) (name : Text) (m : Member) (next : ℕ) (l : Listener Text) (nl : List Text)
    (f : Status → Shuffle Text) where
  abbrev pub stored : Members
  stored = record {
    listener = l;
    next_clock = next;
    local = s.local;
    non_local = nl;
    members = put name m s.members;
    statuses = f;
  }

  pub put-IsValid :
      IsValid s
      → s.next_clock ≤ next
      → IsValidMember s.local next name m
      → IsDistinct text_discrete nl
      → ((n : Text)
          → mem text_discrete n nl
            ≡ ite (text_discrete name n) (not m.local) (is_remote (s.members n)))
      → ((st : Status) (n : Text)
          → listed st all_statuses ≡ true
          → in_shuffle n (f st)
            ≡ ite (text_discrete name n) (is_listed st (some m)) (is_listed st (s.members n)))
      → IsValid stored
  put-IsValid v le fits distinct remote right = record {
    local_there = there (text_discrete name s.local);
    each = λ n k. each_of n k (text_discrete name n);
    distinct = distinct;
    others = λ n. ground (arith, remote n);
    shuffled = λ st n h. ground (arith, right st n h);
  }
    where
      there :
          (d : Dec (name ≡ s.local)) → (k : Member) × (ite d (some m) (s.members s.local) ≡ some k)
      there (yes e) = (m, refl)
      there (no ne) = v.local_there

      each_of :
          (n : Text) (k : Member) (d : Dec (name ≡ n))
          → ite d (some m) (s.members n) ≡ some k
          → IsValidMember s.local next n k
      each_of n k (yes e) h =
          let same : m ≡ k = cc in
          subst (λ j. IsValidMember s.local next j k) e
            (subst (IsValidMember s.local next name) same fits)
      each_of n k (no ne) h = IsValidMember-later le (v.each n k h)
