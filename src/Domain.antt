-- ===== src/Domain.antt =====
-- src-tauri/src/domain: the data that the parts share, and the changes that it may see.
pub mod Session
