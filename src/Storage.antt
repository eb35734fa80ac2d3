-- ===== src/Storage.antt =====
-- internal/storage: the storage of events on an XFTP server.
pub mod Xftp
pub mod Uploads
