-- ===== src/Joinstr.antt =====
-- The protocol of a peer, rust/joinstr/src/joinstr.
pub mod Error
pub mod Host
pub mod State
pub mod Pool
pub mod Configured
pub mod Setup
pub mod Join
pub mod Outputs
pub mod Inputs
pub mod Start
pub mod Example
pub mod Saved
pub mod Restart
pub mod Progress
pub mod Results
pub mod Guarantee
mod Tests
