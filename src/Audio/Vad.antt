-- ===== src/Audio/Vad.antt =====
-- audio/vad.rs: the state of the segmenter and what its calls report. A sample type `S` stands for
-- `f32`; the detector that scores a frame, a library's, is a `Predictor` on a state of type `D`.
pub mod Frame
pub mod Ops
pub mod Sizes
pub mod Emitted
pub mod Counts
pub mod Following
pub mod Handoff
mod Tests
use kokoro_koe.Prelude.{ℕ, ◌+◌, Bool, List, [], ◌++◌, Option, none, some, sat_add}
use kokoro_koe.Transcription.Request.{AudioSource}

abbrev pub vad_frame_samples : ℕ
vad_frame_samples = 256

abbrev pub pre_roll_samples : ℕ
pre_roll_samples = 4800

abbrev pub trailing_silence_samples : ℕ
trailing_silence_samples = 8000

abbrev pub minimum_speech_samples : ℕ
minimum_speech_samples = 2560

abbrev pub max_utterance_samples : ℕ
max_utterance_samples = 480000

abbrev pub partial_snapshot_interval_ms : ℕ
partial_snapshot_interval_ms = 500

abbrev pub max_vad_buffered_samples : ℕ
max_vad_buffered_samples = 485055

-- `UtteranceEndReason`
pub data EndReason : Type 0 where
  trailing_silence forced_split format_change timeline_discontinuity end_of_stream : EndReason

-- `DetectedUtterance`
pub record Utterance (S : Type 0) : Type 0 where
  pub source : AudioSource
  pub start_ms : ℕ
  pub end_ms : ℕ
  pub samples : List S
  pub reason : EndReason

-- `PartialUtteranceSnapshot`
pub record Snapshot (S : Type 0) : Type 0 where
  pub source : AudioSource
  pub start_ms : ℕ
  pub end_ms : ℕ
  pub samples : List S

-- `VadProcessOutcome`
pub record Outcome (S : Type 0) : Type 0 where
  pub utterances : List (Utterance S)
  pub snapshot : Option (Snapshot S)
  pub frames_analyzed : ℕ
  pub speech_frames : ℕ
  pub silence_frames : ℕ
  pub short_utterances_rejected : ℕ
  pub forced_splits : ℕ
  pub resets : ℕ
  pub pending_samples : ℕ
  pub buffered_samples : ℕ
  pub ordering_watermark_ms : Option ℕ

unfoldable pub no_outcome : {S : Type 0} → Outcome S
no_outcome = record {
  utterances = [];
  snapshot = none;
  frames_analyzed = 0;
  speech_frames = 0;
  silence_frames = 0;
  short_utterances_rejected = 0;
  forced_splits = 0;
  resets = 0;
  pending_samples = 0;
  buffered_samples = 0;
  ordering_watermark_ms = none;
}

-- `Option::or`
abbrev pub or_else {ℓ} : {A : Type ℓ} → Option A → Option A → Option A
or_else none o = o
or_else (some a) o = some a

unfoldable pub merge : {S : Type 0} → Outcome S → Outcome S → Outcome S
merge a b = record {
  utterances = a.utterances ++ b.utterances;
  snapshot = or_else b.snapshot a.snapshot;
  frames_analyzed = sat_add a.frames_analyzed b.frames_analyzed;
  speech_frames = sat_add a.speech_frames b.speech_frames;
  silence_frames = sat_add a.silence_frames b.silence_frames;
  short_utterances_rejected = sat_add a.short_utterances_rejected b.short_utterances_rejected;
  forced_splits = sat_add a.forced_splits b.forced_splits;
  resets = sat_add a.resets b.resets;
  pending_samples = b.pending_samples;
  buffered_samples = b.buffered_samples;
  ordering_watermark_ms = b.ordering_watermark_ms;
}

-- `FramePredictor`, with the comparison against the threshold in `predict`.
pub record Predictor (S D : Type 0) : Type 0 where
  pub predict : D → List S → D × Bool
  pub reset : D → D

-- `ActiveUtterance`
pub record Active (S : Type 0) : Type 0 where
  pub start_ms : ℕ
  pub samples : List S
  pub speech_samples : ℕ
  pub silent_samples : ℕ

-- `VadSegmenter`
pub record Segmenter (S D : Type 0) : Type 0 where
  pub source : AudioSource
  pub predictor : D
  pub pending : List S
  pub pending_start_ms : Option ℕ
  pub expected_chunk_start_ms : Option ℕ
  pub pre_roll : List S
  pub active : Option (Active S)
  pub last_partial_end_ms : Option ℕ

-- `with_predictor`
unfoldable pub segmenter : {S D : Type 0} → AudioSource → D → Segmenter S D
segmenter source predictor = record {
  source = source;
  predictor = predictor;
  pending = [];
  pending_start_ms = none;
  expected_chunk_start_ms = none;
  pre_roll = [];
  active = none;
  last_partial_end_ms = none;
}
