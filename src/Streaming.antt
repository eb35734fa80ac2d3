-- ===== src/Streaming.antt =====
-- internal/streaming/upstream.go: the connections to other relays, and what comes from them.
pub mod Messages
pub mod Published
pub mod Tags
pub mod Connections
pub mod Locks
pub mod Deadlock
