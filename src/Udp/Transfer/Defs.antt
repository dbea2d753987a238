-- ===== src/Udp/Transfer/Defs.antt =====
-- swimprotocol/udp/protocol.py: `BaseProtocol`, `UdpProtocol` and `TcpProtocol`; and
-- swimprotocol/udp/send.py: what `UdpSend` sends for one packet. The tasks are their calls, and
-- what a task raises is its result.
use swim_protocol.Prelude.{
  ℕ, Bool, Text, Bytes, List, [], ◌∷◌, ◌++◌, none, some, length, leb, if◌then◌else◌,
}
use swim_protocol.Result.{Result, ok, raise, ◌>>=◌}
use swim_protocol.Packet.{Packet}
use swim_protocol.Sign.{Hmac}
use swim_protocol.Udp.Pack.{Pickle, UdpPack, pack, unpack}
use swim_protocol.Address.{Integer, Address, AddressParser, parse}

-- What goes to the network: a datagram, or the data of one connection.
pub data Sent (z : Integer) : Type 0 where
  sendto : Bytes → Address z → Sent z
  tcp_send : Bytes → Address z → Sent z

pub record TcpProtocol : Type 0 where
  pub recv_queue : List Packet
  pub buf : Bytes

unfoldable pub data_received : Bytes → TcpProtocol → TcpProtocol
data_received message p = record p { buf = p.buf ++ message }

module _ (h : Hmac) (pickle : Pickle) (u : UdpPack) where
  -- `_do_send(member, packet)`, with the salt that `sign` draws.
  unfoldable pub do_send :
      {z : Integer} → AddressParser z → ℕ → Bytes → Text → Packet → Result (Sent z)
  do_send {z} parser mtu_size salt name packet = do
    packet_data ← pack h pickle u salt packet
    address ← parse z parser name
    ok (
        if leb (length packet_data) mtu_size
        then sendto packet_data address
        else tcp_send packet_data address)

  -- `handle_packet(data)` on the queue of received packets.
  unfoldable pub handle_packet : Bytes → List Packet → Result (Unit {0}) × List Packet
  handle_packet message recv_queue = elim (unpack h pickle u message) [
    | raise e ↦ (raise e, recv_queue)
    | ok none ↦ (ok tt, recv_queue)
    | ok (some packet) ↦ (ok tt, recv_queue ++ packet ∷ [])
  ]

  unfoldable pub datagram_received : Bytes → List Packet → Result (Unit {0}) × List Packet
  unfolding handle_packet
  datagram_received message recv_queue = handle_packet message recv_queue

  -- `connection_lost(exc)`: whether there is an exception.
  unfoldable pub connection_lost : Bool → TcpProtocol → Result (Unit {0}) × TcpProtocol
  unfolding handle_packet
  connection_lost failed p =
      if failed
      then (ok tt, record p { buf = [] })
      else (let (result, queue) = handle_packet p.buf p.recv_queue in
          (result, record { recv_queue = queue; buf = [] }))
