-- ===== src/Audio.antt =====
-- src-tauri/src/audio: the segmentation of captured sound into utterances.
pub mod Vad
pub mod Processing
