-- ===== src/Member/Defs.antt =====
-- swimprotocol/members.py: `MemberSnapshot`, and `Member` with the methods that change it.
use swim_protocol.Prelude.{
  ℕ, Bool, true, false, not, ◌&&◌, ◌||◌, Text, Bytes, text_discrete, [], ◌∷◌, Option, none, some,
  ite, ltb, if◌then◌else◌,
}
use swim_protocol.Result.{Result, ok, raise, assertion_error, and_then}
use swim_protocol.Status.{Status, offline, status_discrete, transition}
use swim_protocol.Packet.{Metadata, Source}

-- The metadata is `none` for the object METADATA_UNKNOWN, which is compared by identity.
pub record MemberSnapshot : Type 0 where
  pub name : Text
  pub clock : ℕ
  pub status : Status
  pub status_time : ℕ
  pub metadata : Option Metadata

-- Clocks and times are not negative. `known_clocks` maps the names of members to clocks, since
-- members are equal when their names are.
pub record Member : Type 0 where
  pub name : Text
  pub local : Bool
  pub clock : ℕ
  pub validity : Bytes
  pub known_clocks : Text → Option ℕ
  pub status : Status
  pub status_time : ℕ
  pub metadata : Metadata
  pub metadata_dict : Option Metadata
  pub previous : MemberSnapshot
  pub pending_clock : Option ℕ
  pub pending_status : Option Status
  pub pending_metadata : Option Metadata

abbrev pub is_some : {A : Type 0} → Option A → Bool
is_some none = false
is_some (some a) = true

unfoldable pub snapshot : Member → MemberSnapshot
snapshot m = record {
  name = m.name;
  clock = m.clock;
  status = m.status;
  status_time = m.status_time;
  metadata = m.metadata_dict;
}

-- `Member(name, local)`, with the random bytes and the time that it takes.
unfoldable pub new : Text → Bool → Bytes → ℕ → Member
new name local validity now = record {
  name = name;
  local = local;
  clock = 0;
  validity = validity;
  known_clocks = λ _. none;
  status = offline;
  status_time = now;
  metadata = [];
  metadata_dict = none;
  previous = record {
    name = name;
    clock = 0;
    status = offline;
    status_time = now;
    metadata = none;
  };
  pending_clock = none;
  pending_status = none;
  pending_metadata = none;
}

-- `member.metadata`, where METADATA_UNKNOWN is empty.
abbrev pub metadata_of : Member → Metadata
metadata_of m = elim m.metadata_dict [ none ↦ [] | some metadata ↦ metadata ]

unfoldable pub source : Member → Source
source m = record { name = m.name; validity = m.validity }

-- `frozenset(a) == frozenset(b)`
unfoldable pub item_in : Text × Bytes → Metadata → Bool
item_in e [] = false
item_in (k, v) ((j, w) ∷ l) =
    let rest = item_in (k, v) l in ite (text_discrete k j) (ite (text_discrete v w) true rest) rest

unfoldable pub all_in : Metadata → Metadata → Bool
all_in [] b = true
all_in (e ∷ a) b = item_in e b && all_in a b

unfoldable pub same_items : Metadata → Metadata → Bool
unfolding item_in all_in text_discrete
same_items a b = all_in a b && all_in b a

-- `self._needs_gossip(member)`: an unknown clock counts as -1.
unfoldable pub needs_gossip : Member → Member → Bool
needs_gossip self member = elim (self.known_clocks member.name) [
  | none ↦ true
  | some known_clock ↦ ltb known_clock member.clock
]

unfoldable pub set_clock : ℕ → Member → Result (Unit {0}) × Member
set_clock clock m =
    if is_some m.pending_clock
    then (raise assertion_error, m)
    else (ok tt, if ltb m.clock clock then record m { pending_clock = some clock } else m)

unfoldable pub set_status : Status → Member → Result (Unit {0}) × Member
set_status status m =
    if is_some m.pending_status
    then (raise assertion_error, m)
    else (elim (transition m.status status) [
      | raise e ↦ (raise e, m)
      | ok t ↦ (ok tt, ite (status_discrete t m.status) m (record m { pending_status = some t }))
    ])

unfoldable pub set_metadata : Metadata → Member → Result (Unit {0}) × Member
set_metadata metadata m = if is_some m.pending_metadata then (raise assertion_error, m) else (
  ok tt,
  if not (is_some m.metadata_dict) || not (same_items metadata m.metadata)
      then record m { pending_metadata = some metadata }
      else m,
)

abbrev is_source : Member → Option Text → Bool
is_source m none = false
is_source m (some name) = ite (text_discrete m.name name) true false

abbrev cleared : Member → Member
cleared m = record m { pending_clock = none; pending_status = none; pending_metadata = none }

-- The assignments of the pending values, `ignored` for gossip about the local member.
abbrev save_status : Bool → Option Status → ℕ → Member → Member
save_status ignored none now m = m
save_status true (some s) now m = m
save_status false (some s) now m = record m { status = s; status_time = now }

abbrev save_metadata : Bool → Option Metadata → Member → Member
save_metadata ignored none m = m
save_metadata true (some d) m = m
save_metadata false (some d) m = record m { metadata = d; metadata_dict = some d }

abbrev save_clock : Option ℕ → MemberSnapshot → Member → Member
save_clock none before m = record m { previous = before }
save_clock (some c) before m = record m { clock = c; previous = before }

-- `self._save(source, next_clock)`
unfoldable pub save : Option Text → ℕ → ℕ → Member → Bool × Member
unfolding snapshot
save src next_clock now m =
    let ignored = m.local && is_some src in
    let pending_clock = if ignored then some next_clock else m.pending_clock in
    let updated = is_some m.pending_status || is_some m.pending_metadata in
    let saved =
      save_metadata ignored m.pending_metadata
        (save_status ignored m.pending_status now (cleared m)) in
    if not (is_some m.pending_clock) && not (is_source m src)
    then (false, cleared m)
    else (updated, if updated then save_clock pending_clock (snapshot m) saved else saved)

abbrev pub if_given :
    {A : Type 0}
    → Option A
    → (A → Member → Result (Unit {0}) × Member)
    → Member
    → Result (Unit {0}) × Member
if_given none f m = (ok tt, m)
if_given (some a) f m = f a m

-- What `Members._update` calls on the member, in order.
unfoldable pub update :
    Option Text → ℕ → Option Status → Option Metadata → ℕ → ℕ → Member → Result Bool × Member
update src clock status metadata next_clock now m = and_then (set_clock clock m) λ _ m1.
    and_then (if_given status set_status m1) λ _ m2.
      and_then (if_given metadata set_metadata m2)
        λ _ m3. let (updated, m4) = save src next_clock now m3 in (ok updated, m4)
