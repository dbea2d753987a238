-- ===== src/Udp/Pack/Tests.antt =====
-- The theorems of `UdpPack` with a small digest and a small `pickle`.
use swim_protocol.Prelude.{◌≡◌, refl, Bytes, [], ◌∷◌, ◌++◌, some, arith, length}
use swim_protocol.Result.{ok}
use swim_protocol.Packet.{Packet, ping}
use swim_protocol.Sign.Samples.{small_hash, signatures}
use swim_protocol.Udp.Pack.Codec.{small_pickle}
use swim_protocol.Udp.Pack.Defs.{UdpPack, init, pack, unpack}
use swim_protocol.Udp.Pack.RoundTrip.{Fits, Verified, unpack-pack, unpack-Verified}

abbrev packer : UdpPack
packer = record { signatures = signatures; prefix_xor = 1 ∷ 2 ∷ 3 ∷ 4 ∷ 5 ∷ 6 ∷ [] }

made : init signatures (1 ∷ 2 ∷ 3 ∷ 4 ∷ 5 ∷ 6 ∷ []) ≡ ok packer
unfolding init
made = refl

abbrev hello : Packet
hello = ping (record { name = 7 ∷ []; validity = 8 ∷ 9 ∷ [] })

hello-Fits : Fits 2 2 (length (small_pickle.dumps hello))
unfolding small_pickle
hello-Fits = omega arith

unpack-pack_example :
    (out : Bytes) × (pack small_hash small_pickle packer (3 ∷ 4 ∷ []) hello ≡ ok out)
    × (unpack small_hash small_pickle packer (out ++ 0 ∷ []) ≡ ok (some hello))
unpack-pack_example =
    unpack-pack small_hash small_pickle packer (omega arith) refl (3 ∷ 4 ∷ []) (0 ∷ []) hello
      hello-Fits

-- What `pack` makes of `hello`.
sent :
    (out : Bytes) × (pack small_hash small_pickle packer (3 ∷ 4 ∷ []) hello ≡ ok out)
    × (unpack small_hash small_pickle packer (out ++ []) ≡ ok (some hello))
sent =
    unpack-pack small_hash small_pickle packer (omega arith) refl (3 ∷ 4 ∷ []) [] hello hello-Fits

unpack-Verified_example :
    Verified small_hash small_pickle packer (omega arith) refl (sent.0 ++ []) hello
unpack-Verified_example =
    unpack-Verified small_hash small_pickle packer (omega arith) refl (sent.0 ++ []) hello sent.2
