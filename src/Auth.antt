-- ===== src/Auth.antt =====
-- internal/auth: NIP-42 authentication and the authorisation of requests.
pub mod Nostr
pub mod Universal
