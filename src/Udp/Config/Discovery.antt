-- ===== src/Udp/Config/Discovery.antt =====
-- What `_discover` of swimprotocol/udp/config.py finds, and when.
use swim_protocol.Prelude.{
  ◌≡◌, ◌≢◌, ◌↔◌, ◌⊎◌, inl, inr, refl, sym, true, Text, text_discrete, List, [], ◌∷◌, ◌++◌, map,
  none, some,
}
use swim_protocol.Result.{ok}
use swim_protocol.Shuffle.{mem, without}
use swim_protocol.Shuffle.Content.{IsDistinct, mem-append}
use swim_protocol.Address.{Integer, Address, AddressParser, parse, str}
use swim_protocol.Config.Defs.{Kwargs, get_or}
use swim_protocol.Udp.Config.Defs.{
  Network, resolve_name, find_local_ip, name_at, with_found, unless_alone, discovered, discover,
  unless_empty,
}
use swim_protocol.Udp.Config.Sets.{In, mem_nil, mem-map_iff, In-without, either_iff, host_of-str}

module _ (z : Integer) (net : Network z) (parser : AddressParser z) (kwargs : Kwargs) where
  -- The local name resolves to addresses with the local one, `ip`, and another one among them.
  pub record IsFound (name : Text) (address : Address z) (ips : List Text) (ip other : Text)
      : Type 0 where
    pub named : get_or kwargs.local_name none ≡ some name
    pub parsed : parse z parser name ≡ ok address
    pub resolved : net.gethostbyname_ex address.host ≡ ok ips
    pub connected : net.sockname address.host address.port ≡ ok ip
    pub is_local : mem text_discrete ip ips ≡ true
    pub is_other : mem text_discrete other ips ≡ true
    pub differ : other ≢ ip

  -- A peer's name: that of another address, or given.
  abbrev pub IsPeer : Address z → List Text → Text → Text → Type 0
  IsPeer address ips ip p =
      ((q : Text) × (mem text_discrete q ips ≡ true)
        × (q ≢ ip)
        × (p ≡ str z (record { host = q; port = address.port })))
      ⊎ (mem text_discrete p (get_or kwargs.peers []) ≡ true)

  some_resolved : (q : Text) (ips : List Text) → In q ips → unless_empty z net (ok ips) ≡ ok ips
  some_resolved q [] h = absurd (mem_nil q h)
  some_resolved q (x ∷ xs) h = refl

  some_left :
      (port : z.Int) (ip q : Text) (left : List Text)
      → In q left
      → unless_alone z net port ip left kwargs ≡ ok (with_found z net port ip left kwargs)
  some_left port ip q [] h = absurd (mem_nil q h)
  some_left port ip q (x ∷ xs) h = refl

  discovered-with_found :
      (port : z.Int) (ips : List Text) (ip other : Text)
      → In ip ips
      → In other ips
      → other ≢ ip
      → discovered z net port ips (some ip) kwargs
        ≡ ok (with_found z net port ip (without text_discrete ip ips) kwargs)
  discovered-with_found port ips ip other here there differ = rw here (
      some_left port ip other (without text_discrete ip ips)
        ((In-without ip other ips).1 (there, differ)))

  discover-with_found :
      (name : Text) (address : Address z) (ips : List Text) (ip other : Text)
      → IsFound name address ips ip other
      → discover z net parser kwargs
        ≡ ok (with_found z net address.port ip (without text_discrete ip ips) kwargs)
  unfolding discover resolve_name find_local_ip
  discover-with_found name address ips ip other f =
      rw
        (
          f.named,
          f.parsed,
          f.resolved,
          some_resolved ip ips f.is_local,
          f.connected,
          discover,
          resolve_name,
          find_local_ip,
        )
        (discovered-with_found address.port ips ip other f.is_local f.is_other f.differ)

  peers_found :
      (address : Address z) (ips : List Text) (ip p : Text)
      → In p (
          net.list (
            map (name_at z net address.port) (without text_discrete ip ips)
            ++ get_or kwargs.peers []))
        ↔ IsPeer address ips ip p
  peers_found address ips ip p =
      let resolved = map (name_at z net address.port) (without text_discrete ip ips) in
      rw
        (
          net.mem-list p (resolved ++ get_or kwargs.peers []),
          mem-append text_discrete p resolved (get_or kwargs.peers []),
        )
        (chain (
          either_iff (mem text_discrete p resolved) (mem text_discrete p (get_or kwargs.peers []))))
    where
      in_map :
          In p (map (name_at z net address.port) (without text_discrete ip ips))
          ↔ ((q : Text) × In q (without text_discrete ip ips) × (p ≡ name_at z net address.port q))
      in_map = mem-map_iff (name_at z net address.port) p (without text_discrete ip ips)

      split :
          In p (map (name_at z net address.port) (without text_discrete ip ips))
            ⊎ In p (get_or kwargs.peers [])
          → IsPeer address ips ip p
      split (inl h) =
          let (q, there, e) = in_map.0 h in
          let (there', ne) = (In-without ip q ips).0 there in inl (q, there', ne, e)
      split (inr h) = inr h

      joined :
          IsPeer address ips ip p
          → In p (map (name_at z net address.port) (without text_discrete ip ips))
            ⊎ In p (get_or kwargs.peers [])
      joined (inl (q, there, ne, e)) = inl (in_map.1 (q, (In-without ip q ips).1 (there, ne), e))
      joined (inr h) = inr h

      chain :
          {A : Type 0}
          → A ↔ (
              In p (map (name_at z net address.port) (without text_discrete ip ips))
              ⊎ In p (get_or kwargs.peers []))
          → A ↔ IsPeer address ips ip p
      chain (apart, join) = (λ a. split (apart a), λ b. join (joined b))

  -- Where the host of the local name resolves to addresses with the one that a socket to it has and
  -- another one, `_discover` returns: the local name is the local address with the port of the name, and
  -- the peers, each once, are the other addresses with that port and the peers that were given. The
  -- new local name is among them only if it was given.
  pub discover_finds :
      (name : Text) (address : Address z) (ips : List Text) (ip other : Text)
      → IsFound name address ips ip other
      → (k : Kwargs) × (peers : List Text) × (discover z net parser kwargs ≡ ok k)
        × (k.local_name ≡ some (some (str z (record { host = ip; port = address.port }))))
        × (k.peers ≡ some peers)
        × IsDistinct text_discrete peers
        × ((p : Text) → (mem text_discrete p peers ≡ true) ↔ IsPeer address ips ip p)
        × (mem text_discrete (str z (record { host = ip; port = address.port })) peers ≡ true
            → mem text_discrete
                (str z (record { host = ip; port = address.port }))
                (get_or kwargs.peers [])
              ≡ true)
  discover_finds name address ips ip other f =
      let own = name_at z net address.port ip in
      let k = with_found z net address.port ip (without text_discrete ip ips) kwargs in
      let found =
        map (name_at z net address.port) (without text_discrete ip ips) ++ get_or kwargs.peers [] in
      (
        k,
        net.list found,
        discover-with_found name address ips ip other f,
        refl,
        refl,
        net.list-IsDistinct found,
        peers_found address ips ip,
        λ h. given ((peers_found address ips ip own).0 h),
      )
    where
      given :
          IsPeer address ips ip (name_at z net address.port ip)
          → In (name_at z net address.port ip) (get_or kwargs.peers [])
      given (inl (q, there, ne, e)) = absurd (ne (sym (host_of-str z address.port ip q e)))
      given (inr h) = h
