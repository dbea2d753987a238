-- ===== src/Udp/Config/Tests.antt =====
-- A name that resolves to two addresses.
use swim_protocol.Prelude.{◌≡◌, ◌↔◌, refl, true, Text, text_discrete, List, [], ◌∷◌, none, some}
use swim_protocol.Result.{ok}
use swim_protocol.Shuffle.{mem}
use swim_protocol.Shuffle.Content.{IsDistinct}
use swim_protocol.Address.{Address, AddressParser, parse, rpartition, str}
use swim_protocol.Address.Samples.{numbers}
use swim_protocol.Config.Defs.{Kwargs}
use swim_protocol.Config.Sources.{nothing}
use swim_protocol.Udp.Config.Defs.{discover}
use swim_protocol.Udp.Config.Samples.{net}
use swim_protocol.Udp.Config.Discovery.{IsFound, IsPeer, discover_finds}

abbrev parser : AddressParser numbers
parser = record { default_host = none; default_port = none }

abbrev named : Kwargs
named = record nothing { local_name = some (some (9 ∷ 58 ∷ 49 ∷ [])) }

abbrev there : Address numbers
there = record { host = 9 ∷ []; port = 1 }

found :
    IsFound numbers net parser named
      (9 ∷ 58 ∷ 49 ∷ [])
      there
      ((7 ∷ []) ∷ (8 ∷ []) ∷ [])
      (7 ∷ [])
      (8 ∷ [])
unfolding parse rpartition mem text_discrete
found = record {
  named = refl;
  parsed = refl;
  resolved = refl;
  connected = refl;
  is_local = refl;
  is_other = refl;
  differ = λ e. cc;
}

discover_finds_example :
    (k : Kwargs) × (peers : List Text) × (discover numbers net parser named ≡ ok k)
    × (k.local_name ≡ some (some (str numbers (record { host = 7 ∷ []; port = 1 }))))
    × (k.peers ≡ some peers)
    × IsDistinct text_discrete peers
    × ((p : Text)
        → (mem text_discrete p peers ≡ true)
          ↔ IsPeer numbers net parser named there ((7 ∷ []) ∷ (8 ∷ []) ∷ []) (7 ∷ []) p)
    × (mem text_discrete (str numbers (record { host = 7 ∷ []; port = 1 })) peers ≡ true
        → mem text_discrete (str numbers (record { host = 7 ∷ []; port = 1 })) [] ≡ true)
discover_finds_example =
    discover_finds numbers net parser named (9 ∷ 58 ∷ 49 ∷ []) there ((7 ∷ []) ∷ (8 ∷ []) ∷ [])
      (7 ∷ []) (8 ∷ []) found
