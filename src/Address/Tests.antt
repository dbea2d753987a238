-- ===== src/Address/Tests.antt =====
-- The theorems of `AddressParser` at a concrete parser.
use swim_protocol.Prelude.{◌≡◌, refl, text_discrete, [], ◌∷◌, none, some, ℕ_discrete}
use swim_protocol.Result.{ok}
use swim_protocol.Address.Defs.{Address, AddressParser, str, parse, rpartition}
use swim_protocol.Address.RoundTrip.{parse-str}
use swim_protocol.Address.Samples.{numbers}

abbrev parser : AddressParser numbers
parser = record { default_host = none; default_port = some 7 }

-- The host `a:b`, with a port.
abbrev address : Address numbers
address = record { host = 97 ∷ 58 ∷ 98 ∷ []; port = 3 }

parse-str_example : parse numbers parser (str numbers address) ≡ ok address
parse-str_example = parse-str numbers parser address (λ e. cc)

-- Text without a colon is taken for the port.
host_lost : parse numbers parser (97 ∷ 98 ∷ []) ≡ ok (record { host = []; port = 7 })
unfolding parse rpartition text_discrete ℕ_discrete
host_lost = refl
