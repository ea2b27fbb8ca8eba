-- ===== src/Nostr.antt =====
-- The messages of a pool, rust/joinstr/src/nostr.
pub mod Input
pub mod Error
pub mod Pool
pub mod Message
pub mod WebSocket
pub mod Client
