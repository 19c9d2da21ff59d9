-- ===== src/Persistence.antt =====
-- src-tauri/src/persistence: the coordinator that writes a running session to disk.
pub mod SessionWriter
