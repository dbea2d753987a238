-- ===== src/Demo/Configured.antt =====
-- The metadata in a configuration of swimprotocol/udp/config.py that comes from arguments.
use swim_protocol.Prelude.{
  ◌≡◌, ◌∙◌, ap, Bool, true, false, Text, text_discrete, List, [], ◌∷◌, Option, none, some,
  if◌then◌else◌, subst, arith, Bool-cases, inl, inr,
}
use swim_protocol.Result.{ok, raise, ◌>>=◌, bind_ok, config_error, transient_config_error}
use swim_protocol.Shuffle.{mem, without}
use swim_protocol.Address.{Integer, AddressParser, parse}
use swim_protocol.Config.Defs.{
  Kwargs, BaseConfig, Namespace, Environment, parse_args, get_or, merge, init, swim, or_text,
  or_list, get_env, get_env_list, secret_env, name_env, peers_env, required, validate,
}
use swim_protocol.Config.Sources.{nothing}
use swim_protocol.Udp.Config.Defs.{
  Network, UdpConfig, UdpKwargs, UdpNamespace, udp_parse_args, udp_init, udp_from_args, discover,
  discover_at, discovered, unless_alone, resolve_name, find_local_ip,
}

abbrev HasNone : Kwargs → Type 0
HasNone k = k.local_metadata ≡ none

parse_args-HasNone :
    (os : Environment) (env_prefix : Text) (args : Namespace) (k : Kwargs)
    → parse_args os env_prefix args ≡ ok k
    → HasNone k
unfolding parse_args
parse_args-HasNone os env_prefix args k e =
    let (secret, _, e1) =
      bind_ok (or_text args.swim_secret (get_env os env_prefix secret_env)) _ e in
    let (local_name, _, e2) =
      bind_ok (or_text args.swim_name (get_env os env_prefix name_env)) _ e1 in
    let (peers, _, e3) =
      bind_ok (or_list args.swim_peers (get_env_list os env_prefix peers_env)) _ e2 in
    metadata e3
  where
    metadata : {j : Kwargs} → ok j ≡ ok k → k.local_metadata ≡ j.local_metadata
    metadata h = cc

init_empty : (k : Kwargs) (c : BaseConfig) → HasNone k → init k ≡ ok c → c.local_metadata ≡ []
unfolding init
init_empty k c h e =
    let (secret, _, e1) = bind_ok (required k.secret) _ e in
    let (given, _, e2) = bind_ok (required k.local_name) _ e1 in
    let (peers, _, e3) = bind_ok (required k.peers) _ e2 in
    let (local_name, _, e4) = bind_ok (validate given) _ e3 in metadata e4 ∙ ap (λ o. get_or o []) h
  where
    metadata : {j : BaseConfig} → ok j ≡ ok c → c.local_metadata ≡ j.local_metadata
    metadata e = cc

module _ (z : Integer) (net : Network z) where
  unless_alone-HasNone :
      (port : z.Int) (ip : Text) (resolved : List Text) (k j : Kwargs)
      → HasNone k
      → unless_alone z net port ip resolved k ≡ ok j
      → HasNone j
  unless_alone-HasNone port ip [] k j h e = cc
  unless_alone-HasNone port ip (r ∷ resolved) k j h e =
      let same : j.local_metadata ≡ k.local_metadata = cc in same ∙ h

  discovered-HasNone :
      (port : z.Int) (resolved : List Text) (o : Option Text) (k j : Kwargs)
      → HasNone k
      → discovered z net port resolved o k ≡ ok j
      → HasNone j
  discovered-HasNone port resolved none k j h e = cc
  discovered-HasNone port resolved (some ip) k j h e =
      elim (Bool-cases (mem text_discrete ip resolved)) [
        | inl there ↦ unless_alone-HasNone port ip (without text_discrete ip resolved) k j h (
            subst
              (λ b.
                (if b
                  then unless_alone z net port ip (without text_discrete ip resolved) k
                  else raise transient_config_error)
                ≡ ok j)
              there e)
        | inr missing ↦ ground arith
      ]

  discover-HasNone :
      (parser : AddressParser z) (k j : Kwargs)
      → HasNone k
      → discover z net parser k ≡ ok j
      → HasNone j
  unfolding discover
  discover-HasNone parser k j h e = named (get_or k.local_name none) e
    where
      named :
          (o : Option Text)
          → (elim o [
            | none ↦ raise config_error
            | some name ↦ parse z parser name >>= λ address. discover_at z net address k
          ])
            ≡ ok j
          → HasNone j
      named none e = cc
      named (some name) e =
          let (address, _, e1) = bind_ok (parse z parser name) _ e in
          let (resolved, _, e2) = bind_ok (resolve_name z net address.host) _ e1 in
          let (local_ip, _, e3) = bind_ok (find_local_ip z net address.host address.port) _ e2 in
          discovered-HasNone address.port resolved local_ip k j h e3

  chosen-HasNone :
      (discovery : Bool) (parser : AddressParser z) (k j : Kwargs)
      → HasNone k
      → (if discovery then discover z net parser k else ok k) ≡ ok j
      → HasNone j
  chosen-HasNone true parser k j h e = discover-HasNone parser k j h e
  chosen-HasNone false parser k j h e = let same : k ≡ j = cc in subst HasNone same h

  udp_init_empty :
      (k : UdpKwargs z) (c : UdpConfig z)
      → HasNone k.base
      → udp_init z net k ≡ ok c
      → c.base.local_metadata ≡ []
  unfolding udp_init
  udp_init_empty k c h e =
      let parser : AddressParser z = record {
        default_host = k.default_host;
        default_port = k.default_port;
      } in
      let (j, e1, e2) =
        bind_ok (if k.discovery then discover z net parser k.base else ok k.base) _ e in
      let (b, e3, e4) = bind_ok (init j) _ e2 in
      let same : c.base ≡ b = cc in
      ap (λ (x : BaseConfig). x.local_metadata) same
      ∙ init_empty j b (chosen-HasNone k.discovery parser k.base j h e1) e3

  -- Without overrides the metadata are empty.
  pub udp_from_args_empty :
      (os : Environment) (args : UdpNamespace z) (c : UdpConfig z)
      → udp_from_args z net os args nothing ≡ ok c
      → c.base.local_metadata ≡ []
  unfolding udp_from_args udp_parse_args merge
  udp_from_args_empty os args c e =
      let (k, e1, e2) = bind_ok (udp_parse_args z os swim args) _ e in
      let (b, e3, e4) = bind_ok (parse_args os swim args.base) _ e1 in
      let same : b ≡ k.base = cc in
      udp_init_empty (record k { base = merge k.base nothing }) c
        (subst HasNone same (parse_args-HasNone os swim args.base b e3)) e2
