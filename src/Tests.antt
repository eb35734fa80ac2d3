-- ===== src/Tests.antt =====
-- Examples: the theorems at concrete inputs.
mod Data
mod Models
mod Quality
mod Auth
mod Access
mod Queue
mod Relay
mod Cache
mod Config
mod Streaming
mod Rest
mod SshKeys
mod AdminApi
mod Transport
mod Storage
