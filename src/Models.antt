-- ===== src/Models.antt =====
-- internal/models: the events of the relay.
pub mod Event
pub mod Filter
pub mod Codec
