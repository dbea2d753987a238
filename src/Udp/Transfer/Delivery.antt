-- ===== src/Udp/Transfer/Delivery.antt =====
-- A packet on its way from `UdpSend` to the queue of the receiving node.
use mathlib.Core.List.{append_assoc, append-nil}
use swim_protocol.Prelude.{
  ℕ, ◌≡◌, refl, sym, ◌∙◌, ap, subst, false, Text, Bytes, List, [], ◌∷◌, ◌++◌, some, length, leb,
  Bool-cases, inl, inr,
}
use swim_protocol.Result.{Result, ok, bind_ok}
use swim_protocol.Packet.{Packet}
use swim_protocol.Sign.{Hmac}
use swim_protocol.Udp.Pack.{Pickle, UdpPack, pack, unpack}
use swim_protocol.Udp.Pack.RoundTrip.{IsBytes, Fits, unpack-pack}
use swim_protocol.Address.{Integer, AddressParser, parse}
use swim_protocol.Udp.Transfer.Defs.{
  Sent, sendto, tcp_send, do_send, handle_packet, datagram_received, TcpProtocol, data_received,
  connection_lost,
}

abbrev pub concat : List Bytes → Bytes
concat [] = []
concat (chunk ∷ chunks) = chunk ++ concat chunks

abbrev pub bytes_of : {z : Integer} → Sent z → Bytes
bytes_of (sendto message address) = message
bytes_of (tcp_send message address) = message

unfoldable pub receive_all : List Bytes → TcpProtocol → TcpProtocol
receive_all [] p = p
receive_all (chunk ∷ chunks) p = receive_all chunks (data_received chunk p)

receive_all_lem :
    (chunks : List Bytes) (p : TcpProtocol)
    → receive_all chunks p ≡ record p { buf = p.buf ++ concat chunks }
unfolding receive_all data_received
receive_all_lem [] p = ap (λ (b : Bytes). record p { buf = b }) (sym (append-nil p.buf))
receive_all_lem (chunk ∷ chunks) p =
    receive_all_lem chunks (record p { buf = p.buf ++ chunk })
    ∙ ap (λ (b : Bytes). record p { buf = b }) (append_assoc p.buf chunk (concat chunks))

module _ (h : Hmac) (pickle : Pickle) (u : UdpPack) (key : IsBytes u.prefix_xor)
    (key_size : length u.prefix_xor ≡ 6) where
  -- What is sent, either way, is the packed message.
  bytes_of-do_send :
      {z : Integer} (parser : AddressParser z) (mtu_size : ℕ) (salt : Bytes) (name : Text)
      (packet : Packet) (sent : Sent z)
      → do_send h pickle u parser mtu_size salt name packet ≡ ok sent
      → pack h pickle u salt packet ≡ ok (bytes_of sent)
  unfolding do_send
  bytes_of-do_send {z} parser mtu_size salt name packet sent e =
      let (message, packed, e1) = bind_ok (pack h pickle u salt packet) _ e in
      let (address, parsed, e2) = bind_ok (parse z parser name) _ e1 in
      packed
      ∙ ap ok (elim (Bool-cases (leb (length message) mtu_size)) [
        | inl fits ↦ ap bytes_of (same_sent (rw fits at e2))
        | inr long ↦ ap bytes_of (same_sent (rw long at e2))
      ])
    where
      same_sent : {a b : Sent z} → Path (Result (Sent z)) (ok a) (ok b) → a ≡ b
      same_sent q = cc

  handle_packet_lem :
      (message : Bytes) (packet : Packet) (queue : List Packet)
      → unpack h pickle u message ≡ ok (some packet)
      → handle_packet h pickle u message queue ≡ (ok tt, queue ++ packet ∷ [])
  unfolding handle_packet
  handle_packet_lem message packet queue e = rw (e, handle_packet) refl

  -- A packet that `_do_send` sends is put on the queue of the receiver, as the same packet and without
  -- an exception: by one datagram, and by a connection that delivers the bytes in any chunks and is
  -- closed in order. The lengths fit the prefix, and both sides have the same keys.
  pub received-do_send :
      {z : Integer} (parser : AddressParser z) (mtu_size : ℕ) (salt : Bytes) (name : Text)
      (packet : Packet) (sent : Sent z) (chunks : List Bytes) (queue : List Packet)
      → Fits (length salt) h.digest_size (length (pickle.dumps packet))
      → do_send h pickle u parser mtu_size salt name packet ≡ ok sent
      → concat chunks ≡ bytes_of sent
      → (datagram_received h pickle u (bytes_of sent) queue ≡ (ok tt, queue ++ packet ∷ []))
        × (connection_lost h pickle u false
              (receive_all chunks (record { recv_queue = queue; buf = [] }))
            ≡ (ok tt, record { recv_queue = queue ++ packet ∷ []; buf = [] }))
  unfolding datagram_received connection_lost
  received-do_send {z} parser mtu_size salt name packet sent chunks queue fits e whole =
      let (out, packed, back) = unpack-pack h pickle u key key_size salt [] packet fits in
      let sent_bytes = bytes_of-do_send parser mtu_size salt name packet sent e in
      let same : out ≡ bytes_of sent = cc in
      let got : unpack h pickle u (bytes_of sent) ≡ ok (some packet) =
        subst (λ (b : Bytes). unpack h pickle u b ≡ ok (some packet)) (append-nil out ∙ same)
          back in
      let handled = handle_packet_lem (bytes_of sent) packet queue got in
      (
        handled,
        rw (receive_all_lem chunks (record { recv_queue = queue; buf = [] }), whole, handled) refl,
      )
