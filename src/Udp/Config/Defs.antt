-- ===== src/Udp/Config/Defs.antt =====
-- swimprotocol/udp/config.py: `UdpConfig`, its arguments and `_discover`; and the properties of
-- `UdpTransport` of swimprotocol/udp/__init__.py. A set of texts is a list that is asked only for what is
-- in it.
use swim_protocol.Prelude.{
  ℕ, ◌≡◌, Bool, Text, text_discrete, List, [], ◌∷◌, ◌++◌, map, Option, none, some, if◌then◌else◌,
}
use swim_protocol.Result.{Result, ok, raise, config_error, transient_config_error, os_error, ◌>>=◌}
use swim_protocol.Shuffle.{mem, without}
use swim_protocol.Shuffle.Content.{IsDistinct}
use swim_protocol.Address.{Integer, Address, AddressParser, parse, str}
use swim_protocol.Config.Defs.{
  Kwargs, BaseConfig, Namespace, Environment, parse_args, get_or, merge, swim,
}
use swim_protocol.Config.Defs

-- What the code asks of the sockets, and of sets.
pub record Network (z : Integer) : Type 0 where
  -- The addresses in the answer of `socket.gethostbyname_ex`.
  pub gethostbyname_ex : Text → Result (List Text)
  -- The host of `getsockname()` of a new datagram socket after `connect`.
  pub sockname : Text → z.Int → Result Text
  -- `list` of a set, in whatever order: each element once.
  pub list : List Text → List Text
  pub mem-list :
      (x : Text) (xs : List Text) → mem text_discrete x (list xs) ≡ mem text_discrete x xs
  pub list-IsDistinct : (xs : List Text) → IsDistinct text_discrete (list xs)

module _ (z : Integer) where
  -- `bind_port` is an integer, or a `str` from the command line.
  pub data Port : Type 0 where
    number : z.Int → Port
    word : Text → Port

  pub record UdpKwargs : Type 0 where
    pub bind_host : Option Text
    pub bind_port : Option Port
    pub default_host : Option Text
    pub default_port : Option z.Int
    pub discovery : Bool
    pub mtu_size : Option ℕ
    pub base : Kwargs

  pub record UdpConfig : Type 0 where
    pub bind_host : Option Text
    pub bind_port : Option Port
    pub address_parser : AddressParser z
    pub mtu_size : ℕ
    pub base : BaseConfig

  pub record UdpNamespace : Type 0 where
    pub swim_udp_bind : Option Text
    pub swim_udp_bind_port : Option Text
    pub swim_udp_host : Option Text
    pub swim_udp_port : Option z.Int
    pub swim_udp_discovery : Bool
    pub base : Namespace

  abbrev pub port_word : Option Text → Option Port
  port_word none = none
  port_word (some text) = some (word text)

  -- `UdpConfig.parse_args(args, env_prefix=…)`
  unfoldable pub udp_parse_args : Environment → Text → UdpNamespace → Result UdpKwargs
  udp_parse_args os env_prefix args = do
    kwargs ← parse_args os env_prefix args.base
    ok (record {
      bind_host = args.swim_udp_bind;
      bind_port = port_word args.swim_udp_bind_port;
      default_host = args.swim_udp_host;
      default_port = args.swim_udp_port;
      discovery = args.swim_udp_discovery;
      mtu_size = none;
      base = kwargs;
    })

  module _ (net : Network z) where
    abbrev pub unless_empty : Result (List Text) → Result (List Text)
    unless_empty (raise os_error) = raise transient_config_error
    unless_empty (raise e) = raise e
    unless_empty (ok []) = raise transient_config_error
    unless_empty (ok (ip ∷ ips)) = ok (ip ∷ ips)

    unfoldable pub resolve_name : Text → Result (List Text)
    resolve_name hostname = unless_empty (net.gethostbyname_ex hostname)

    -- `suppress(OSError)`
    abbrev pub unless_os_error : Result Text → Result (Option Text)
    unless_os_error (ok ip) = ok (some ip)
    unless_os_error (raise os_error) = ok none
    unless_os_error (raise e) = raise e

    unfoldable pub find_local_ip : Text → z.Int → Result (Option Text)
    find_local_ip hostname port = unless_os_error (net.sockname hostname port)

    -- `str(Address(ip, port))`
    abbrev pub name_at : z.Int → Text → Text
    name_at port ip = str z (record { host = ip; port = port })

    -- The keyword arguments with the peers that were resolved and those that were given.
    abbrev pub with_found : z.Int → Text → List Text → Kwargs → Kwargs
    with_found port ip resolved kwargs = record kwargs {
      local_name = some (some (name_at port ip));
      peers = some (net.list (map (name_at port) resolved ++ get_or kwargs.peers []));
    }

    abbrev pub unless_alone : z.Int → Text → List Text → Kwargs → Result Kwargs
    unless_alone port ip [] kwargs = raise transient_config_error
    unless_alone port ip (peer_ip ∷ resolved) kwargs =
        ok (with_found port ip (peer_ip ∷ resolved) kwargs)

    -- From the resolved addresses and the local one on.
    abbrev pub discovered : z.Int → List Text → Option Text → Kwargs → Result Kwargs
    discovered port resolved none kwargs = raise transient_config_error
    discovered port resolved (some ip) kwargs =
        if mem text_discrete ip resolved
        then unless_alone port ip (without text_discrete ip resolved) kwargs
        else raise transient_config_error

    abbrev pub discover_at : Address z → Kwargs → Result Kwargs
    discover_at address kwargs = do
      resolved ← resolve_name address.host
      local_ip ← find_local_ip address.host address.port
      discovered address.port resolved local_ip kwargs

    -- `_discover(address_parser, kwargs)`
    unfoldable pub discover : AddressParser z → Kwargs → Result Kwargs
    discover parser kwargs = elim (get_or kwargs.local_name none) [
      | none ↦ raise config_error
      | some name ↦ parse z parser name >>= λ address. discover_at address kwargs
    ]

    -- `UdpConfig(**kwargs)`
    unfoldable pub udp_init : UdpKwargs → Result UdpConfig
    udp_init kwargs =
        let parser : AddressParser z = record {
          default_host = kwargs.default_host;
          default_port = kwargs.default_port;
        } in
        (if kwargs.discovery then discover parser kwargs.base else ok kwargs.base)
        >>= λ base_kwargs. Defs.init base_kwargs >>= λ base. ok (record {
          bind_host = kwargs.bind_host;
          bind_port = kwargs.bind_port;
          address_parser = parser;
          mtu_size = get_or kwargs.mtu_size 1500;
          base = base;
        })

    -- `UdpConfig.from_args(args, **overrides)`, with overrides of the keywords of `BaseConfig`.
    unfoldable pub udp_from_args : Environment → UdpNamespace → Kwargs → Result UdpConfig
    udp_from_args os args overrides = udp_parse_args os swim args >>= λ kwargs.
        udp_init (record kwargs { base = merge kwargs.base overrides })

  -- `UdpTransport(config, worker)`: the address that its name stands for.
  unfoldable pub local_address : UdpConfig → Result (Address z)
  local_address config = parse z config.address_parser config.base.local_name

  -- `bind_host` of the transport with a local address.
  unfoldable pub bind_host : UdpConfig → Address z → Text
  bind_host config address = elim config.bind_host [
    | some (c ∷ cs) ↦ c ∷ cs
    | some [] ↦ address.host
    | none ↦ address.host
  ]

  -- `bind_port` of the transport; zero is false in Python, like the empty text.
  unfoldable pub bind_port : (z.Int → Bool) → UdpConfig → Address z → Port
  bind_port is_zero config address = elim config.bind_port [
    | some (number n) ↦ number (if is_zero n then address.port else n)
    | some (word (c ∷ cs)) ↦ word (c ∷ cs)
    | some (word []) ↦ number address.port
    | none ↦ number address.port
  ]
