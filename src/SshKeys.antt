-- ===== src/SshKeys.antt =====
-- internal/transport/ssh.go and internal/api/ssh_keys.go: the SSH keys and their owners.
pub mod Manager
pub mod Ownership
pub mod Requests
pub mod Guards
pub mod Disowned
