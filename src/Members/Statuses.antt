-- ===== src/Members/Statuses.antt =====
-- The shuffles by status of swimprotocol/members.py: what the loops over `Status.all_statuses()`
-- leave in each of them.
use swim_protocol.Prelude.{
  ◌≡◌, refl, Bool, true, false, ◌&&◌, Text, text_discrete, List, [], ◌∷◌, ite, arith, if◌then◌else◌,
}
use swim_protocol.Status.{Status, flag_and, is_set, status_discrete}
use swim_protocol.Shuffle.{Shuffle, contains, add}
use swim_protocol.Shuffle.Content.{contains-add, contains-discard}
use swim_protocol.Member.{Member}
use swim_protocol.Members.Defs.{set_shuffle, refresh_one, refresh_loop, enrol_loop}

abbrev pub in_shuffle : Text → Shuffle Text → Bool
in_shuffle name shuffle = contains text_discrete shuffle name

-- Whether a status is among those that a loop goes through.
abbrev pub listed : Status → List Status → Bool
listed st [] = false
listed st (s ∷ rest) = ite (status_discrete s st) true (listed st rest)

pub in_shuffle-refresh_one :
    (m : Member) (shuffle : Shuffle Text) (st : Status) (n : Text)
    → in_shuffle n (refresh_one m shuffle st)
      ≡ ite (text_discrete m.name n) (is_set (flag_and m.status st)) (in_shuffle n shuffle)
in_shuffle-refresh_one m shuffle st n = ground (
  arith,
  contains-add text_discrete m.name n shuffle,
  contains-discard text_discrete m.name n shuffle,
)

pub in_shuffle-refresh_loop :
    (m : Member) (todo : List Status) (f : Status → Shuffle Text) (st : Status) (n : Text)
    → in_shuffle n (refresh_loop m todo f st) ≡ (
        if listed st todo
        then ite (text_discrete m.name n) (is_set (flag_and m.status st)) (in_shuffle n (f st))
        else in_shuffle n (f st))
unfolding refresh_loop
in_shuffle-refresh_loop m [] f st n = refl
in_shuffle-refresh_loop m (s ∷ rest) f st n = ground (
  arith,
  in_shuffle-refresh_loop m rest (set_shuffle s (refresh_one m (f s) s) f) st n,
  in_shuffle-refresh_one m (f s) s n,
)

pub in_shuffle-enrol_loop :
    (m : Member) (todo : List Status) (f : Status → Shuffle Text) (st : Status) (n : Text)
    → in_shuffle n (enrol_loop m todo f st) ≡ (
        if listed st todo && is_set (flag_and m.status st)
        then ite (text_discrete m.name n) true (in_shuffle n (f st))
        else in_shuffle n (f st))
unfolding enrol_loop
in_shuffle-enrol_loop m [] f st n = refl
in_shuffle-enrol_loop m (s ∷ rest) f st n = ground (
  arith,
  in_shuffle-enrol_loop m rest
      (if is_set (flag_and m.status s) then set_shuffle s (add text_discrete m.name (f s)) f else f)
      st n,
  contains-add text_discrete m.name n (f s),
)
