-- ===== src/Llm.antt =====
-- src-tauri/src/llm: the spending ledger of the language-model requests.
pub mod Budget
pub mod Retry
