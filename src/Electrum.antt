-- ===== src/Electrum.antt =====
-- The electrum client of rust/joinstr/src/electrum.rs.
pub mod Error
pub mod Method
pub mod Params
pub mod Request
pub mod Response
pub mod Client
