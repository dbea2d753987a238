-- ===== src/Udp/Config.antt =====
-- swimprotocol/udp/config.py: `UdpConfig` and the discovery of peers; and what `UdpTransport` of
-- swimprotocol/udp/__init__.py binds to.
pub mod Defs
pub mod Discovery
mod Needs
mod Sets
pub mod Samples
mod Tests
