-- ===== src/Config.antt =====
-- swimprotocol/config.py: `BaseConfig`, and the way to it from arguments and the environment.
pub mod Defs
pub mod Rstrip
pub mod Split
pub mod Sources
mod Tests
