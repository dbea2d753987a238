-- ===== src/Members/Defs.antt =====
-- swimprotocol/members.py: `Members`. A member is an object that the registry and its shuffles
-- share; here it stands in `members` under its name, and the name is the reference to it. No
-- member ever leaves the registry, so that the weak references to members stay alive.
use swim_protocol.Prelude.{
  ℕ, ◌+◌, ◌-◌, Bool, true, false, ◌&&◌, Text, Bytes, text_discrete, List, [], ◌∷◌, ◌++◌, Option,
  none, some, ite, length, leb, ltb, min, if◌then◌else◌,
}
use swim_protocol.Result.{Result, ok, raise, key_error, assertion_error}
use swim_protocol.Status.{Status, online, flag_and, is_set, all_statuses, status_discrete}
use swim_protocol.Shuffle.{Shuffle}
use swim_protocol.Shuffle
use swim_protocol.Listener.{Listener}
use swim_protocol.Listener
use swim_protocol.Packet.{Metadata}
use swim_protocol.Member.{Member, is_some, needs_gossip}
use swim_protocol.Member

pub record Members : Type 0 where
  pub listener : Listener Text
  pub next_clock : ℕ
  pub local : Text
  pub non_local : List Text
  pub members : Text → Option Member
  pub statuses : Status → Shuffle Text

-- What `Members` reads of a `BaseConfig`.
pub record Config : Type 0 where
  pub local_name : Text
  pub peers : List Text
  pub local_metadata : Metadata

-- The object under a name is assigned to.
abbrev pub put : Text → Member → (Text → Option Member) → Text → Option Member
put name m members j = ite (text_discrete name j) (some m) (members j)

abbrev pub set_shuffle : Status → Shuffle Text → (Status → Shuffle Text) → Status → Shuffle Text
set_shuffle status shuffle statuses t = ite (status_discrete status t) shuffle (statuses t)

-- One round of the loop of `_refresh_statuses`.
abbrev pub refresh_one : Member → Shuffle Text → Status → Shuffle Text
refresh_one m shuffle status =
    if is_set (flag_and m.status status)
    then Shuffle.add text_discrete m.name shuffle
    else Shuffle.discard text_discrete m.name shuffle

unfoldable pub refresh_loop : Member → List Status → (Status → Shuffle Text) → Status → Shuffle Text
refresh_loop m [] statuses = statuses
refresh_loop m (status ∷ rest) statuses =
    refresh_loop m rest (set_shuffle status (refresh_one m (statuses status) status) statuses)

unfoldable pub refresh_statuses : Member → Members → Members
refresh_statuses m s =
    if m.local then s else record s { statuses = refresh_loop m all_statuses s.statuses }

-- The loop of `get` over a new member: it only adds.
unfoldable pub enrol_loop : Member → List Status → (Status → Shuffle Text) → Status → Shuffle Text
enrol_loop m [] statuses = statuses
enrol_loop m (status ∷ rest) statuses = enrol_loop m rest (
    if is_set (flag_and m.status status)
    then set_shuffle status (Shuffle.add text_discrete m.name (statuses status)) statuses
    else statuses)

-- The end of `get`: a member that came back with other random bytes is told everything again.
abbrev pub check_validity : Option Bytes → Member → Member
check_validity none m = m
check_validity (some validity) m =
    if m.local
    then m
    else ite (text_discrete m.validity validity) m
        (record m { known_clocks = λ _. none; validity = validity })

-- `get(name, validity)`, with the random bytes and the time of a new `Member`.
unfoldable pub get : Text → Option Bytes → Bytes → ℕ → Members → Members
get name validity random now s = elim (s.members name) [
  | some m ↦ record s { members = put name (check_validity validity m) s.members }
  | none ↦
      let m = Member.new name false random now in
      record s {
        non_local = s.non_local ++ name ∷ [];
        members = put name (check_validity validity m) s.members;
        statuses = enrol_loop m all_statuses s.statuses;
      }
]

-- `_update` after the calls on the member.
abbrev pub finish : Text → Result Bool × Member → Members → Result (Unit {0}) × Members
finish name (raise e, m) s = (raise e, record s { members = put name m s.members })
finish name (ok updated, m) s =
    let stored = record s { members = put name m s.members } in
    let told =
      if updated
      then (let refreshed = refresh_statuses m stored in
          record refreshed { listener = Listener.notify name refreshed.listener })
      else stored in
    (ok tt, if leb s.next_clock m.clock then record told { next_clock = m.clock + 1 } else told)

-- `_update`. A name that no member has is no reference to a member; it raises KeyError here.
unfoldable pub update_from :
    Text
    → Option Text
    → ℕ
    → Option Status
    → Option Metadata
    → ℕ
    → Members
    → Result (Unit {0}) × Members
update_from name source clock status metadata now s = elim (s.members name) [
  | none ↦ (raise key_error, s)
  | some m ↦ finish name (Member.update source clock status metadata s.next_clock now m) s
]

unfoldable pub update :
    Text → Option Status → Option Metadata → ℕ → Members → Result (Unit {0}) × Members
unfolding update_from
update name new_status new_metadata now s =
    update_from name none s.next_clock new_status new_metadata now s

unfoldable pub apply :
    Text → Text → ℕ → Status → Option Metadata → ℕ → Members → Result (Unit {0}) × Members
unfolding update_from
apply name source clock status metadata now s =
    update_from name (some source) clock (some status) metadata now s

unfoldable pub get_all : List Text → (Text → Bytes) → ℕ → Members → Members
get_all [] random now s = s
get_all (peer ∷ peers) random now s = get_all peers random now (get peer none (random peer) now s)

-- `Members(config)`, with the random bytes that each new `Member` draws.
unfoldable pub init : Config → (Text → Bytes) → ℕ → Result (Unit {0}) × Members
unfolding get get_all update
init config random now =
    let empty : Members = record {
      listener = Listener.init;
      next_clock = 1;
      local = config.local_name;
      non_local = [];
      members =
          put config.local_name (Member.new config.local_name true (random config.local_name) now)
            (λ _. none);
      statuses = λ _. Shuffle.empty;
    } in
    update config.local_name (some online) (some config.local_metadata) now
      (get_all config.peers random now empty)

-- `find(count, status=…, exclude=…)`; `draws` are the random draws, and `none` means that the loop
-- went on after the last of them.
unfoldable pub count_in : List Text → Shuffle Text → ℕ
count_in [] shuffle = 0
count_in (name ∷ names) shuffle =
    (if Shuffle.contains text_discrete shuffle name then 1 else 0) + count_in names shuffle

abbrev pub insert : Text → List Text → List Text
insert name results = if Shuffle.mem text_discrete name results then results else name ∷ results

unfoldable pub find_loop : ℕ → Shuffle Text → List ℕ → List Text → Option (Result (List Text))
find_loop num_results shuffle [] results =
    if ltb (length results) num_results then none else some (ok results)
find_loop num_results shuffle (r ∷ draws) results =
    if ltb (length results) num_results
    then (elim (Shuffle.choice text_discrete (λ _. true) shuffle r) [
      | raise e ↦ some (raise e)
      | ok name ↦ find_loop num_results shuffle draws (insert name results)
    ])
    else some (ok results)

unfoldable pub find : ℕ → Status → List Text → List ℕ → Members → Option (Result (List Text))
unfolding count_in find_loop
find count status exclude draws s =
    let shuffle = s.statuses status in
    let num_remaining = Shuffle.len text_discrete shuffle - count_in exclude shuffle in
    find_loop (min num_remaining count) shuffle draws []

abbrev pub wants : Member → Option Member → Bool
wants target none = false
wants target (some member) = is_some member.metadata_dict && needs_gossip target member

unfoldable pub gossip_among : Member → (Text → Option Member) → List Text → List Text
gossip_among target members [] = []
gossip_among target members (name ∷ names) =
    let rest = gossip_among target members names in
    if wants target (members name) then name ∷ rest else rest

-- `get_gossip(target)`: the names of the members, in the order of `_non_local`.
unfoldable pub get_gossip : Member → Members → List Text
unfolding gossip_among
get_gossip target s =
    let others = gossip_among target s.members s.non_local in
    elim (s.members s.local) [
      | none ↦ others
      | some local ↦ if needs_gossip target local then s.local ∷ others else others
    ]

unfoldable pub ack_gossip : Text → Text → ℕ → Members → Result (Unit {0}) × Members
ack_gossip member source clock s =
    if leb clock s.next_clock
    then (elim (s.members source) [
      | none ↦ (raise key_error, s)
      | some m ↦ (
        ok tt,
        record s {
          members =
              put source
                (record m {
                  known_clocks = λ j. ite (text_discrete member j) (some clock) (m.known_clocks j);
                })
                s.members;
        },
      )
    ])
    else (raise assertion_error, s)
