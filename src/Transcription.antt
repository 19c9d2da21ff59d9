-- ===== src/Transcription.antt =====
-- src-tauri/src/transcription: requests, the job scheduler and the live pipeline.
pub mod Request
pub mod Scheduler
pub mod Pipeline
pub mod Fallback
pub mod Product
