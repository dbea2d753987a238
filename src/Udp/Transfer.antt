-- ===== src/Udp/Transfer.antt =====
-- swimprotocol/udp/protocol.py and swimprotocol/udp/send.py: packets sent by UDP or TCP, and received.
mod Defs
pub mod Delivery
mod Tests
unfoldable pub use Defs.{do_send, handle_packet, datagram_received, data_received, connection_lost}
pub use Defs.{Sent, TcpProtocol}
