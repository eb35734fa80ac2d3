-- ===== src/Relay.antt =====
-- internal/relay: the server of the Nostr protocol.
pub mod Privacy
pub mod Matching
pub mod Server
