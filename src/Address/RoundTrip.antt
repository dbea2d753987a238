-- ===== src/Address/RoundTrip.antt =====
-- `parse` of swimprotocol/address.py after `str`, and on text without a port.
use swim_protocol.Prelude.{
  ◌≡◌, ◌≢◌, refl, false, Text, [], ◌∷◌, ◌++◌, none, some, text_discrete, arith,
}
use swim_protocol.Result.{ok, raise, value_error}
use swim_protocol.Address.Defs.{
  colon, has_colon, Integer, split_last, rpartition, Address, AddressParser, with_port, str, parse,
}

split_last-none : (text : Text) → has_colon text ≡ false → split_last text ≡ none
split_last-none [] h = refl
split_last-none (c ∷ cs) h = ground (arith, split_last-none cs)

split_last_append :
    (host port : Text)
    → has_colon port ≡ false
    → split_last (host ++ colon ∷ port) ≡ some (host, port)
split_last_append [] port h = rw (split_last-none port h) (ground arith)
split_last_append (c ∷ host) port h = rw (split_last_append host port h) refl

rpartition_none : (text : Text) → has_colon text ≡ false → rpartition text ≡ ([], [], text)
unfolding rpartition
rpartition_none text h = rw (split_last-none text h, rpartition) refl

pub rpartition-append :
    (host port : Text)
    → has_colon port ≡ false
    → rpartition (host ++ colon ∷ port) ≡ (host, colon ∷ [], port)
unfolding rpartition
rpartition-append host port h = rw (split_last_append host port h, rpartition) refl

module _ (z : Integer) (parser : AddressParser z) where
  -- An address with a host is parsed back from its text, whatever the defaults and also if the host
  -- has colons itself.
  pub parse-str : (a : Address z) → a.host ≢ [] → parse z parser (str z a) ≡ ok a
  unfolding parse str text_discrete
  parse-str a h =
      rw (rpartition-append a.host (z.str a.port) (z.has_colon-str a.port)) (by_host a.host h)
    where
      by_host :
          (host : Text)
          → host ≢ []
          → with_port z parser host (z.str a.port) ≡ ok (record { host = host; port = a.port })
      by_host [] ne = absurd (ne refl)
      by_host (c ∷ cs) ne = rw (z.int-str a.port) refl

  -- Text without a colon is parsed, with a default port, as the address with an empty host, so that
  -- the text is lost; without a default port it is a ValueError.
  parse_portless :
      (text : Text)
      → has_colon text ≡ false
      → parse z parser text ≡ (elim parser.default_port [
        | some port ↦ ok (record { host = []; port = port })
        | none ↦ raise value_error
      ])
  unfolding parse text_discrete
  parse_portless text h = rw (rpartition_none text h) refl
