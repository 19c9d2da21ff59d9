-- ===== src/Prompts.antt =====
-- src-tauri/src/prompts: what is sent to the language model.
pub mod Context
