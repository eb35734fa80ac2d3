-- ===== src/Transport.antt =====
-- internal/transport/manager.go: starting and stopping the transports.
pub mod Manager
pub mod Outcome
