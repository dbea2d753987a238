-- ===== src/Config/Tests.antt =====
-- A configuration from a file and the environment.
use swim_protocol.Prelude.{◌≡◌, refl, ℕ_discrete, Text, text_discrete, [], ◌∷◌, none, some, ite}
use swim_protocol.Result.{ok, raise, os_error}
use swim_protocol.Sign
use swim_protocol.Config.Defs.{
  BaseConfig, Environment, variable, file_variable, from_args, swim, name_env, peers_env, rstrip,
  split,
}
use swim_protocol.Config.Sources.{nothing, bare, from_args_environment}

abbrev names : Text
names = 50 ∷ 44 ∷ 51 ∷ []

-- The file `/n` has the name `1`, and the peers are `2` and `3`.
abbrev os : Environment
os = record {
  getenv = λ v.
      ite (text_discrete v (file_variable swim name_env)) (some (47 ∷ 110 ∷ []))
        (ite (text_discrete v (variable swim peers_env)) (some names) none);
  expanduser = λ file. ok file;
  read = λ path. ite (text_discrete path (47 ∷ 110 ∷ [])) (ok (49 ∷ 10 ∷ [])) (raise os_error);
}

rstrip_both : rstrip (49 ∷ 10 ∷ 50 ∷ 13 ∷ 10 ∷ []) ≡ 49 ∷ 10 ∷ 50 ∷ []
unfolding rstrip ℕ_discrete
rstrip_both = refl

split_empty : split (44 ∷ []) ≡ [] ∷ [] ∷ []
unfolding split ℕ_discrete
split_empty = refl

from_args_environment_example :
    (c : BaseConfig) × (from_args os bare nothing ≡ ok c)
    × (c.local_name ≡ 49 ∷ [])
    × (c.peers ≡ (50 ∷ []) ∷ (51 ∷ []) ∷ [])
    × (c.secret ≡ Sign.missing)
    × (c.local_metadata ≡ [])
unfolding text_discrete
from_args_environment_example =
    from_args_environment os (49 ∷ []) (10 ∷ []) (50 ∷ []) ((51 ∷ []) ∷ []) none (λ e. cc) refl
      (refl, tt)
      (record {
        file = 47 ∷ 110 ∷ [];
        path = 47 ∷ 110 ∷ [];
        variable_set = refl;
        expanded = refl;
        was_read = refl;
      })
      (refl, (refl, tt)) (λ e. cc) (refl, refl) (refl, refl)
