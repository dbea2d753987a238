-- ===== src/Status/Defs.antt =====
-- swimprotocol/status.py: the flags, and the functions over them.
use swim_protocol.Prelude.{Bool, true, false, ◌&&◌, ◌||◌, ite, List, [], ◌∷◌}
use swim_protocol.Result.{Result, ok, raise, value_error}

-- The bits that `auto()` gives to ONLINE, OFFLINE and SUSPECT. An aggregate has several, and the
-- `&` of two flags may have none.
pub data Status : Type 0 where
  flags : Bool → Bool → Bool → Status

abbrev pub online : Status
online = flags true false false

abbrev pub offline : Status
offline = flags false true false

abbrev pub suspect : Status
suspect = flags false false true

-- `a | b` and `a & b`
abbrev pub flag_or : Status → Status → Status
flag_or (flags a b c) (flags x y z) = flags (a || x) (b || y) (c || z)

abbrev pub flag_and : Status → Status → Status
flag_and (flags a b c) (flags x y z) = flags (a && x) (b && y) (c && z)

-- `bool(a)`
abbrev pub is_set : Status → Bool
is_set (flags a b c) = a || b || c

abbrev pub available : Status
available = flag_or online suspect

abbrev pub unavailable : Status
unavailable = flag_or offline suspect

abbrev pub all : Status
all = flag_or available unavailable

bool_dec : (a b : Bool) → Dec (Path Bool a b)
bool_dec true true = yes (λ i. true)
bool_dec false false = yes (λ i. false)
bool_dec true false = no (λ e. cc)
bool_dec false true = no (λ e. cc)

flags_dec :
    {a b c x y z : Bool}
    → Dec (Path Bool a x)
    → Dec (Path Bool b y)
    → Dec (Path Bool c z)
    → Dec (Path Status (flags a b c) (flags x y z))
flags_dec (yes p) (yes q) (yes r) = yes (λ i. flags (p i) (q i) (r i))
flags_dec (no p) q r = no (λ e. p cc)
flags_dec (yes p) (no q) r = no (λ e. q cc)
flags_dec (yes p) (yes q) (no r) = no (λ e. r cc)

-- `a == b`
unfoldable pub status_discrete : Discrete Status
unfolding bool_dec flags_dec
status_discrete (flags a b c) (flags x y z) = flags_dec (bool_dec a x) (bool_dec b y) (bool_dec c z)

-- `self.transition(to)`
unfoldable pub transition : Status → Status → Result Status
transition self to = ite (status_discrete to available) (raise value_error) (
    ite (status_discrete to unavailable) (raise value_error) (
      ite (status_discrete to suspect) (ite (status_discrete self offline) (ok self) (ok to)) (
        ite (status_discrete to offline) (ite (status_discrete self online) (ok suspect) (ok to))
          (ok to))))

-- `Status.all_statuses()`: the members of the class, aggregates included.
abbrev pub all_statuses : List Status
all_statuses = online ∷ offline ∷ suspect ∷ available ∷ unavailable ∷ all ∷ []
