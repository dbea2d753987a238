-- ===== src/Udp/Transfer/Tests.antt =====
-- A packet sent by a datagram or, with a small MTU, by a connection in two chunks.
use swim_protocol.Prelude.{
  ◌≡◌, refl, false, Bytes, List, [], ◌∷◌, ◌++◌, none, arith, length, take, drop, text_discrete,
  ℕ_discrete,
}
use swim_protocol.Result.{Result, ok, raise}
use swim_protocol.Packet.{Packet, ping}
use swim_protocol.Sign.{sign}
use swim_protocol.Sign.Samples.{small_hash, signatures}
use swim_protocol.Address.{AddressParser, parse, rpartition}
use swim_protocol.Address.Samples.{numbers}
use swim_protocol.Udp.Pack.{UdpPack, pack, struct_pack, xor_zip}
use swim_protocol.Udp.Pack.Codec.{small_pickle}
use swim_protocol.Udp.Pack.RoundTrip.{Fits}
use swim_protocol.Udp.Transfer.Defs.{Sent, sendto, do_send, datagram_received, connection_lost}
use swim_protocol.Udp.Transfer.Delivery.{concat, bytes_of, receive_all, received-do_send}

abbrev packer : UdpPack
packer = record { signatures = signatures; prefix_xor = 1 ∷ 2 ∷ 3 ∷ 4 ∷ 5 ∷ 6 ∷ [] }

abbrev hello : Packet
hello = ping (record { name = 7 ∷ []; validity = 8 ∷ 9 ∷ [] })

hello-Fits : Fits 2 2 (length (small_pickle.dumps hello))
unfolding small_pickle
hello-Fits = omega arith

abbrev parser : AddressParser numbers
parser = record { default_host = none; default_port = none }

abbrev sent_of : Result (Sent numbers) → Sent numbers
sent_of (ok sent) = sent
sent_of (raise e) = sendto [] (record { host = []; port = 0 })

-- To the member `a:1`, with an MTU of ten bytes.
abbrev result : Result (Sent numbers)
result = do_send small_hash small_pickle packer parser 10 (3 ∷ 4 ∷ []) (97 ∷ 58 ∷ 49 ∷ []) hello

abbrev chunks : List Bytes
chunks = take 3 (bytes_of (sent_of result)) ∷ drop 3 (bytes_of (sent_of result)) ∷ []

sends : result ≡ ok (sent_of result)
unfolding do_send pack sign struct_pack xor_zip parse rpartition small_pickle text_discrete
    ℕ_discrete
sends = refl

whole : concat chunks ≡ bytes_of (sent_of result)
unfolding do_send pack sign struct_pack xor_zip parse rpartition small_pickle text_discrete
    ℕ_discrete
whole = refl

received-do_send_example :
    (datagram_received small_hash small_pickle packer (bytes_of (sent_of result)) []
      ≡ (ok tt, [] ++ hello ∷ []))
    × (connection_lost small_hash small_pickle packer false
          (receive_all chunks (record { recv_queue = []; buf = [] }))
        ≡ (ok tt, record { recv_queue = [] ++ hello ∷ []; buf = [] }))
received-do_send_example =
    received-do_send small_hash small_pickle packer (omega arith) refl parser 10 (3 ∷ 4 ∷ [])
      (97 ∷ 58 ∷ 49 ∷ []) hello (sent_of result) chunks [] hello-Fits sends whole
