-- ===== src/Demo/Tests.antt =====
-- Keys that are typed, and the demo without metadata.
use swim_protocol.Prelude.{ℕ, ◌≡◌, refl, false, Bytes, List, [], ◌∷◌, none, some, arith}
use swim_protocol.Result.{ok, raise, assertion_error, os_error}
use swim_protocol.Address.Samples.{numbers}
use swim_protocol.Config.Defs.{
  Environment, Namespace, for_members, parse_args, get_env, get_env_list, merge,
}
use swim_protocol.Config.Defs
use swim_protocol.Config.Sources.{nothing}
use swim_protocol.Udp.Config.Defs.{UdpConfig, UdpNamespace, udp_parse_args, udp_init, udp_from_args}
use swim_protocol.Udp.Config.Samples.{net}
use swim_protocol.Members.{Members, Config}
use swim_protocol.Members
use swim_protocol.Demo.Defs.{ℤ, pos, negsuc, Screen, presses, randomize_local}
use swim_protocol.Demo.Typed.{IsTyped, presses-IsTyped}
use swim_protocol.Demo.Fresh.{init-IsShown}
use swim_protocol.Demo.Token.{
  IsRandomized, randomize_local-IsRandomized, udp_from_args-randomize_local,
}

-- The member `1` with the metadata `5: 6`.
abbrev config : Config
config = record { local_name = 1 ∷ []; peers = []; local_metadata = (5 ∷ [], 6 ∷ []) ∷ [] }

abbrev registry : Members
registry = (Members.init config (λ name. name) 5).1

abbrev screen : Screen
screen = record { members = registry; typed = [] }

-- `a`, no key, a line end and `b`.
abbrev keys : List (ℤ × ℕ)
keys = (pos 97, 6) ∷ (negsuc 0, 7) ∷ (pos 10, 8) ∷ (pos 98, 9) ∷ []

presses-IsTyped_example : IsTyped (97 ∷ 98 ∷ []) screen (presses keys screen)
presses-IsTyped_example =
    presses-IsTyped keys screen (omega arith) (init-IsShown config (λ name. name) 5 (refl, tt)).0

abbrev rounds : List (Bytes × ℕ)
rounds = (1 ∷ 2 ∷ [], 6) ∷ (3 ∷ 4 ∷ [], 7) ∷ []

randomize_local-IsRandomized_example :
    IsRandomized rounds registry (randomize_local rounds registry)
randomize_local-IsRandomized_example =
    randomize_local-IsRandomized rounds registry (init-IsShown config (λ name. name) 5 (refl, tt)).0
      (5 ∷ [], 6 ∷ []) [] (init-IsShown config (λ name. name) 5 (refl, tt)).1

-- The arguments `--name 1 --peer 2`.
abbrev args : UdpNamespace numbers
args = record {
  swim_udp_bind = none;
  swim_udp_bind_port = none;
  swim_udp_host = none;
  swim_udp_port = none;
  swim_udp_discovery = false;
  base = record { swim_secret = none; swim_name = some (49 ∷ []); swim_peers = (50 ∷ []) ∷ [] };
}

abbrev os : Environment
os = record { getenv = λ v. none; expanduser = λ file. ok file; read = λ path. raise os_error }

made : (c : UdpConfig numbers) × (udp_from_args numbers net os args nothing ≡ ok c)
unfolding udp_from_args udp_parse_args udp_init parse_args get_env get_env_list merge Defs.init
    Defs.validate
made = (_, refl)

udp_from_args-randomize_local_example :
    randomize_local rounds (Members.init (for_members made.0.base) (λ name. name) 5).1
    ≡ (raise assertion_error, (Members.init (for_members made.0.base) (λ name. name) 5).1)
udp_from_args-randomize_local_example =
    udp_from_args-randomize_local numbers net os args made.0 (λ name. name) 5 rounds made.1
