-- ===== src/Http.antt =====
-- The HTTP server of crates/memoryd/src/main.rs.
pub mod Peer
pub mod Throttle
pub mod Message
pub mod Auth
pub mod Body
pub mod Serve
pub mod Reader
pub mod Connection
pub mod Accept
