-- ===== src/Rest.antt =====
-- internal/api/rest.go and internal/api/history.go: the REST interface.
pub mod Requests
pub mod Publishing
pub mod Kinds
pub mod Draining
pub mod Books
pub mod Structure
pub mod Preorder
pub mod Epub
pub mod Chapters
pub mod Whitelist
pub mod History
pub mod Diff
