-- ===== src/Udp/Config/Needs.antt =====
-- When `_discover` of swimprotocol/udp/config.py returns.
use swim_protocol.Prelude.{
  ◌≡◌, ◌≢◌, ◌∙◌, inl, inr, refl, ap, subst, Bool, true, false, Text, text_discrete, List, [], ◌∷◌,
  Option, none, some, if◌then◌else◌, Bool-cases, Option-cases,
}
use swim_protocol.Result.{
  Result, ok, raise, value_error, key_error, assertion_error, struct_error, config_error,
  transient_config_error, type_error, os_error, ◌>>=◌, bind_ok,
}
use swim_protocol.Shuffle.{mem, without}
use swim_protocol.Address.{Integer, Address, AddressParser, parse}
use swim_protocol.Config.Defs.{Kwargs, get_or}
use swim_protocol.Udp.Config.Defs.{
  Network, resolve_name, find_local_ip, unless_alone, discovered, discover_at, discover,
  unless_empty, unless_os_error,
}
use swim_protocol.Udp.Config.Sets.{In, mem_here, In-without}
use swim_protocol.Udp.Config.Discovery.{IsFound}

module _ (z : Integer) (net : Network z) (parser : AddressParser z) (kwargs : Kwargs) where
  resolved_back :
      (r : Result (List Text)) (ips : List Text) → unless_empty z net r ≡ ok ips → r ≡ ok ips
  resolved_back (ok []) ips e = cc
  resolved_back (ok (x ∷ xs)) ips e = e
  resolved_back (raise os_error) ips e = cc
  resolved_back (raise value_error) ips e = cc
  resolved_back (raise key_error) ips e = cc
  resolved_back (raise assertion_error) ips e = cc
  resolved_back (raise struct_error) ips e = cc
  resolved_back (raise config_error) ips e = cc
  resolved_back (raise transient_config_error) ips e = cc
  resolved_back (raise type_error) ips e = cc

  connected_back :
      (r : Result Text) (ip : Text) → unless_os_error z net r ≡ ok (some ip) → r ≡ ok ip
  connected_back (ok x) ip e = cc
  connected_back (raise os_error) ip e = cc
  connected_back (raise value_error) ip e = cc
  connected_back (raise key_error) ip e = cc
  connected_back (raise assertion_error) ip e = cc
  connected_back (raise struct_error) ip e = cc
  connected_back (raise config_error) ip e = cc
  connected_back (raise transient_config_error) ip e = cc
  connected_back (raise type_error) ip e = cc

  left_back :
      (port : z.Int) (ip : Text) (left : List Text) (k : Kwargs)
      → unless_alone z net port ip left kwargs ≡ ok k
      → (q : Text) × In q left
  left_back port ip [] k e = absurd (cc e)
  left_back port ip (q ∷ left) k e = (q, mem_here q left)

  discovered_back :
      (port : z.Int) (ips : List Text) (local_ip : Option Text) (k : Kwargs)
      → discovered z net port ips local_ip kwargs ≡ ok k
      → (ip other : Text) × (local_ip ≡ some ip) × In ip ips × In other ips × (other ≢ ip)
  discovered_back port ips none k e = absurd (cc e)
  discovered_back port ips (some ip) k e = elim (Bool-cases (mem text_discrete ip ips)) [
    | inl here ↦
        let (q, h) = left_back port ip (without text_discrete ip ips) k (tested true here) in
        let (there, ne) = (In-without ip q ips).0 h in (ip, q, refl, here, there, ne)
    | inr out ↦ absurd (cc (tested false out))
  ]
    where
      tested :
          (b : Bool)
          → mem text_discrete ip ips ≡ b
          → (if b
              then unless_alone z net port ip (without text_discrete ip ips) kwargs
              else raise transient_config_error)
            ≡ ok k
      tested b h =
          subst
            (λ c.
              (if c
                then unless_alone z net port ip (without text_discrete ip ips) kwargs
                else raise transient_config_error)
              ≡ ok k)
            h e

  -- `_discover` returns only where that is so.
  pub discover_needs :
      (k : Kwargs)
      → discover z net parser kwargs ≡ ok k
      → (name : Text) × (address : Address z) × (ips : List Text) × (ip other : Text) × IsFound z
          net parser kwargs name address ips ip other
  unfolding discover resolve_name find_local_ip
  discover_needs k e = elim (Option-cases (get_or kwargs.local_name none)) [
    | inl nameless ↦ absurd (cc (from nameless))
    | inr (name, named) ↦
        let (address, parsed, e1) = bind_ok (parse z parser name) _ (from named) in
        let (ips, resolved, e2) = bind_ok (resolve_name z net address.host) _ e1 in
        let (local_ip, connected, e3) =
          bind_ok (find_local_ip z net address.host address.port) _ e2 in
        let (ip, other, found, here, there, ne) = discovered_back address.port ips local_ip k e3 in
        (
          name,
          address,
          ips,
          ip,
          other,
          record {
            named = named;
            parsed = parsed;
            resolved = resolved_back (net.gethostbyname_ex address.host) ips resolved;
            connected =
                connected_back (net.sockname address.host address.port) ip
                  (connected ∙ ap ok found);
            is_local = here;
            is_other = there;
            differ = ne;
          },
        )
  ]
    where
      from :
          {o : Option Text}
          → get_or kwargs.local_name none ≡ o
          → (elim o [
            | none ↦ raise config_error
            | some name ↦ parse z parser name >>= λ address. discover_at z net address kwargs
          ])
            ≡ ok k
      from {o} h =
          subst
            (λ o'.
              (elim o' [
                | none ↦ raise config_error
                | some name ↦ parse z parser name >>= λ address. discover_at z net address kwargs
              ])
              ≡ ok k)
            h e
