-- ===== src/Config/Defs.antt =====
-- swimprotocol/config.py: `BaseConfig`, its keyword arguments, and where `parse_args` takes them from.
-- A dictionary of keyword arguments is a record with an option for each key.
use swim_protocol.Prelude.{
  ℕ, Bool, true, false, Text, List, [], ◌∷◌, ◌++◌, Option, none, some, ite, ℕ_discrete,
  if◌then◌else◌,
}
use swim_protocol.Result.{Result, ok, raise, config_error, type_error, os_error, ◌>>=◌}
use swim_protocol.Packet.{Metadata}
use swim_protocol.Sign.{Secret}
use swim_protocol.Sign
use swim_protocol.Members.{Config}

-- The arguments after the names. Times are in thousandths of a second.
pub record Kwargs : Type 0 where
  pub secret : Option Secret
  pub local_name : Option (Option Text)
  pub peers : Option (List Text)
  pub local_metadata : Option Metadata
  pub ping_interval : Option ℕ
  pub ping_timeout : Option ℕ
  pub ping_req_count : Option ℕ
  pub ping_req_timeout : Option ℕ
  pub suspect_timeout : Option ℕ
  pub sync_interval : Option ℕ

pub record BaseConfig : Type 0 where
  pub secret : Secret
  pub local_name : Text
  pub peers : List Text
  pub local_metadata : Metadata
  pub ping_interval : ℕ
  pub ping_timeout : ℕ
  pub ping_req_count : ℕ
  pub ping_req_timeout : ℕ
  pub suspect_timeout : ℕ
  pub sync_interval : ℕ

-- What is given, or the default.
abbrev pub get_or {ℓ} : {A : Type ℓ} → Option A → A → A
get_or none default = default
get_or (some a) default = a

-- A keyword without a default must be given.
abbrev pub required {ℓ} : {A : Type ℓ} → Option A → Result A
required none = raise type_error
required (some a) = ok a

-- `_validate`: the local name is neither `None` nor empty.
unfoldable pub validate : Option Text → Result Text
validate none = raise config_error
validate (some []) = raise config_error
validate (some (c ∷ cs)) = ok (c ∷ cs)

-- `BaseConfig(**kwargs)`
unfoldable pub init : Kwargs → Result BaseConfig
init kwargs = do
  secret ← required kwargs.secret
  given ← required kwargs.local_name
  peers ← required kwargs.peers
  local_name ← validate given
  ok (record {
    secret = secret;
    local_name = local_name;
    peers = peers;
    local_metadata = get_or kwargs.local_metadata [];
    ping_interval = get_or kwargs.ping_interval 1000;
    ping_timeout = get_or kwargs.ping_timeout 300;
    ping_req_count = get_or kwargs.ping_req_count 1;
    ping_req_timeout = get_or kwargs.ping_req_timeout 900;
    suspect_timeout = get_or kwargs.suspect_timeout 5000;
    sync_interval = get_or kwargs.sync_interval 500;
  })

-- What `Members` reads of it.
abbrev pub for_members : BaseConfig → Config
for_members c = record {
  local_name = c.local_name;
  peers = c.peers;
  local_metadata = c.local_metadata;
}

-- The parsed arguments that `parse_args` reads; `--peer` may be repeated.
pub record Namespace : Type 0 where
  pub swim_secret : Option Text
  pub swim_name : Option Text
  pub swim_peers : List Text

-- The environment: `os.getenv`, `Path.expanduser`, and `open` with `read`.
pub record Environment : Type 0 where
  pub getenv : Text → Option Text
  pub expanduser : Text → Result Text
  pub read : Text → Result Text

abbrev pub is_line_end : ℕ → Bool
is_line_end c = ite (ℕ_discrete c 10) true (ite (ℕ_discrete c 13) true false)

-- A character before text of which the ends are stripped.
abbrev pub stripped : ℕ → Text → Text
stripped c [] = if is_line_end c then [] else c ∷ []
stripped c (d ∷ ds) = c ∷ d ∷ ds

-- `text.rstrip('\r\n')`
unfoldable pub rstrip : Text → Text
rstrip [] = []
rstrip (c ∷ cs) = stripped c (rstrip cs)

abbrev pub comma : ℕ
comma = 44

-- A character before the first of the parts.
abbrev pub to_first : ℕ → List Text → List Text
to_first c [] = (c ∷ []) ∷ []
to_first c (part ∷ parts) = (c ∷ part) ∷ parts

-- `text.split(',')`
unfoldable pub split : Text → List Text
split [] = [] ∷ []
split (c ∷ cs) = let parts = split cs in ite (ℕ_discrete c comma) ([] ∷ parts) (to_first c parts)

-- `{env_prefix}_{env}` and `{env_prefix}_{env}_FILE`
abbrev pub variable : Text → Text → Text
variable env_prefix env = env_prefix ++ 95 ∷ env

abbrev pub file_variable : Text → Text → Text
file_variable env_prefix env = variable env_prefix env ++ 95 ∷ 70 ∷ 73 ∷ 76 ∷ 69 ∷ []

-- The file's text, or the other value after an OSError.
abbrev pub from_file : Option Text → Result Text → Result (Option Text)
from_file otherwise (ok text) = ok (some (rstrip text))
from_file otherwise (raise os_error) = ok otherwise
from_file otherwise (raise e) = raise e

-- `a or b`, which computes `b` only if `a` is `None` or empty.
abbrev pub or_text : Option Text → Result (Option Text) → Result (Option Text)
or_text (some (c ∷ cs)) r = ok (some (c ∷ cs))
or_text (some []) r = r
or_text none r = r

abbrev pub or_list : List Text → Result (List Text) → Result (List Text)
or_list (x ∷ xs) r = ok (x ∷ xs)
or_list [] r = r

-- `env_val.split(',')` if there is a value and it is not empty.
abbrev pub listed : Option Text → List Text
listed none = []
listed (some []) = []
listed (some (c ∷ cs)) = split (c ∷ cs)

-- A secret from the arguments or the environment is a `str`.
abbrev pub secret_of : Option Text → Secret
secret_of none = Sign.missing
secret_of (some s) = Sign.from_str s

-- The names of the variables, and their prefix.
abbrev pub swim : Text
swim = 83 ∷ 87 ∷ 73 ∷ 77 ∷ []

abbrev pub secret_env : Text
secret_env = 83 ∷ 69 ∷ 67 ∷ 82 ∷ 69 ∷ 84 ∷ []

abbrev pub name_env : Text
name_env = 78 ∷ 65 ∷ 77 ∷ 69 ∷ []

abbrev pub peers_env : Text
peers_env = 80 ∷ 69 ∷ 69 ∷ 82 ∷ 83 ∷ []

module _ (os : Environment) (env_prefix : Text) where
  unfoldable pub get_env : Text → Result (Option Text)
  get_env env = elim (os.getenv (file_variable env_prefix env)) [
    | none ↦ ok (os.getenv (variable env_prefix env))
    | some file ↦ os.expanduser file >>= λ path.
        from_file (os.getenv (variable env_prefix env)) (os.read path)
  ]

  unfoldable pub get_env_list : Text → Result (List Text)
  get_env_list env = get_env env >>= λ value. ok (listed value)

  -- `parse_args(args, env_prefix=…)`
  unfoldable pub parse_args : Namespace → Result Kwargs
  parse_args args = do
    secret ← or_text args.swim_secret (get_env secret_env)
    local_name ← or_text args.swim_name (get_env name_env)
    peers ← or_list args.swim_peers (get_env_list peers_env)
    ok (record {
      secret = some (secret_of secret);
      local_name = some local_name;
      peers = some peers;
      local_metadata = none;
      ping_interval = none;
      ping_timeout = none;
      ping_req_count = none;
      ping_req_timeout = none;
      suspect_timeout = none;
      sync_interval = none;
    })

-- The value of a key in `kwargs | overrides`.
abbrev pub overridden {ℓ} : {A : Type ℓ} → Option A → Option A → Option A
overridden before none = before
overridden before (some a) = some a

unfoldable pub merge : Kwargs → Kwargs → Kwargs
merge a b = record {
  secret = overridden a.secret b.secret;
  local_name = overridden a.local_name b.local_name;
  peers = overridden a.peers b.peers;
  local_metadata = overridden a.local_metadata b.local_metadata;
  ping_interval = overridden a.ping_interval b.ping_interval;
  ping_timeout = overridden a.ping_timeout b.ping_timeout;
  ping_req_count = overridden a.ping_req_count b.ping_req_count;
  ping_req_timeout = overridden a.ping_req_timeout b.ping_req_timeout;
  suspect_timeout = overridden a.suspect_timeout b.suspect_timeout;
  sync_interval = overridden a.sync_interval b.sync_interval;
}

-- `from_args(args, **overrides)` of `BaseConfig`; the environment's prefix is `SWIM`.
unfoldable pub from_args : Environment → Namespace → Kwargs → Result BaseConfig
from_args os args overrides = parse_args os swim args >>= λ kwargs. init (merge kwargs overrides)
