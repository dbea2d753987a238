-- ===== src/Config/Sources.antt =====
-- Where `from_args` of swimprotocol/config.py takes the configuration from.
use swim_protocol.Prelude.{◌≡◌, ◌≢◌, ◌∙◌, refl, ap, Text, List, [], ◌∷◌, ◌++◌, Option, none, some}
use swim_protocol.Result.{ok}
use swim_protocol.Sign
use swim_protocol.Config.Defs.{
  split, Kwargs, BaseConfig, Namespace, Environment, variable, file_variable, get_env, get_env_list,
  parse_args, from_args, merge, init, validate, listed, swim, secret_env, name_env, peers_env,
}
use swim_protocol.Config.Rstrip.{AllLineEnds, IsStripped, rstrip_ends}
use swim_protocol.Config.Split.{join, AllPlain, split-join}

-- No keyword arguments.
abbrev pub nothing : Kwargs
nothing = record {
  secret = none;
  local_name = none;
  peers = none;
  local_metadata = none;
  ping_interval = none;
  ping_timeout = none;
  ping_req_count = none;
  ping_req_timeout = none;
  suspect_timeout = none;
  sync_interval = none;
}

-- No arguments.
abbrev pub bare : Namespace
bare = record { swim_secret = none; swim_name = none; swim_peers = [] }

module _ (os : Environment) where
  -- The value of a variable without a file, and of one with a file that is read.
  abbrev pub IsPlain : Text → Option Text → Type 0
  IsPlain env value =
      (os.getenv (file_variable swim env) ≡ none) × (os.getenv (variable swim env) ≡ value)

  pub record IsFile (env text : Text) : Type 0 where
    pub file : Text
    pub path : Text
    pub variable_set : os.getenv (file_variable swim env) ≡ some file
    pub expanded : os.expanduser file ≡ ok path
    pub was_read : os.read path ≡ ok text

  get_env_plain :
      (env : Text) (value : Option Text) → IsPlain env value → get_env os swim env ≡ ok value
  unfolding get_env
  get_env_plain env value (no_file, e) = rw (no_file, get_env) (ap ok e)

  get_env_file :
      (env text ends : Text)
      → IsStripped text
      → AllLineEnds ends
      → IsFile env (text ++ ends)
      → get_env os swim env ≡ ok (some text)
  unfolding get_env
  get_env_file env text ends kept all f =
      rw (f.variable_set, f.expanded, f.was_read, get_env)
        (ap (λ t. ok (some t)) (rstrip_ends text ends kept all))

  listed-split : (text : Text) → text ≢ [] → listed (some text) ≡ split text
  listed-split [] ne = absurd (ne refl)
  listed-split (c ∷ cs) ne = refl

  validate_named : (name : Text) → name ≢ [] → validate (some name) ≡ ok name
  unfolding validate
  validate_named [] ne = absurd (ne refl)
  validate_named (c ∷ cs) ne = refl

  listed-join :
      (name : Text) (names : List Text)
      → AllPlain (name ∷ names)
      → join (name ∷ names) ≢ []
      → listed (some (join (name ∷ names))) ≡ name ∷ names
  listed-join name names plain ne =
      listed-split (join (name ∷ names)) ne ∙ split-join name names plain

  -- Without arguments the configuration comes from the environment: the local name is the text of the
  -- file that `SWIM_NAME_FILE` names, without the line ends at its end, the peers are the names that
  -- `SWIM_PEERS` joins with commas, the secret is that of `SWIM_SECRET`, if it is set, and there is no
  -- metadata; if the file can be read, the name is not empty and does not end in a line end, no peer
  -- has a comma, the peers are not joined to the empty text, and no file is named for peers and secret.
  pub from_args_environment :
      (name ends peer : Text) (peers : List Text) (secret : Option Text)
      → name ≢ []
      → IsStripped name
      → AllLineEnds ends
      → IsFile name_env (name ++ ends)
      → AllPlain (peer ∷ peers)
      → join (peer ∷ peers) ≢ []
      → IsPlain peers_env (some (join (peer ∷ peers)))
      → IsPlain secret_env secret
      → (c : BaseConfig) × (from_args os bare nothing ≡ ok c)
        × (c.local_name ≡ name)
        × (c.peers ≡ peer ∷ peers)
        × (c.secret ≡ (elim secret [ none ↦ Sign.missing | some s ↦ Sign.from_str s ]))
        × (c.local_metadata ≡ [])
  unfolding from_args parse_args get_env_list merge init
  from_args_environment name ends peer peers secret ne kept all file plain some_peers peers_at
        secret_at =
      rw
        (
          get_env_plain secret_env secret secret_at,
          get_env_file name_env name ends kept all file,
          get_env_plain peers_env _ peers_at,
          listed-join peer peers plain some_peers,
          validate_named name ne,
        )
        (_, refl, refl, refl, refl, refl)
