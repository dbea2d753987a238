-- ===== src/Udp.antt =====
-- swimprotocol/udp: the transport over UDP and TCP.
pub mod Config
pub mod Transfer
pub mod Pack
