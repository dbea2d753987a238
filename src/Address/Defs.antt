-- ===== src/Address/Defs.antt =====
-- swimprotocol/address.py: an address as text, and how text is parsed. The integers with `int` and
-- `str` are a parameter, with what Python says of them.
use swim_protocol.Prelude.{
  ℕ, ◌≡◌, Bool, true, false, Text, [], ◌∷◌, ◌++◌, Option, none, some, ite, ℕ_discrete,
  text_discrete,
}
use swim_protocol.Result.{Result, ok, raise, value_error, ◌>>=◌}

-- The character `:`.
abbrev pub colon : ℕ
colon = 58

abbrev pub has_colon : Text → Bool
has_colon [] = false
has_colon (c ∷ cs) = ite (ℕ_discrete c colon) true (has_colon cs)

pub record Integer : Type 1 where
  pub Int : Type 0
  pub str : Int → Text
  pub int : Text → Result Int
  -- `int(str(n)) == n`
  pub int-str : (n : Int) → int (str n) ≡ ok n
  -- Only digits, and perhaps a sign.
  pub has_colon-str : (n : Int) → has_colon (str n) ≡ false

-- The parts around the last colon.
abbrev pub split_last : Text → Option (Text × Text)
split_last [] = none
split_last (c ∷ cs) = elim (split_last cs) [
  | some (before, past) ↦ some (c ∷ before, past)
  | none ↦ ite (ℕ_discrete c colon) (some ([], cs)) none
]

-- `address.rpartition(':')`
unfoldable pub rpartition : Text → Text × Text × Text
rpartition text = elim (split_last text) [
  | some (before, past) ↦ (before, colon ∷ [], past)
  | none ↦ ([], [], text)
]

module _ (z : Integer) where
  pub record Address : Type 0 where
    pub host : Text
    pub port : z.Int

  -- `str(address)`
  unfoldable pub str : Address → Text
  str a = a.host ++ colon ∷ z.str a.port

  pub record AddressParser : Type 0 where
    pub default_host : Option Text
    pub default_port : Option z.Int

  abbrev pub made : Text → Result z.Int → Result Address
  made host port = port >>= λ n. ok (record { host = host; port = n })

  -- The two branches of `parse`, without a colon and with one.
  abbrev pub portless : AddressParser → Text → Result Address
  portless parser host = elim parser.default_port [
    | some port ↦ ok (record { host = host; port = port })
    | none ↦ raise value_error
  ]

  abbrev pub with_port : AddressParser → Text → Text → Result Address
  with_port parser (c ∷ cs) port = made (c ∷ cs) (z.int port)
  with_port parser [] port = elim parser.default_host [
    | some host ↦ made host (z.int port)
    | none ↦ raise value_error
  ]

  abbrev pub parse_parts : AddressParser → Text × Text × Text → Result Address
  parse_parts parser (host, sep, port) =
      ite (text_discrete sep (colon ∷ [])) (with_port parser host port) (portless parser host)

  unfoldable pub parse : AddressParser → Text → Result Address
  unfolding rpartition text_discrete
  parse parser address = parse_parts parser (rpartition address)
