-- ===== src/Audio/Processing.antt =====
-- audio/processing.rs: sound on its way from the device to the segmenter. Arithmetic on samples, the
-- resampler, a library, and the level meter, which is floating-point arithmetic, are parameters; a
-- byte is a number.
pub mod Ops
pub mod Chunks
pub mod Draining
pub mod Following
mod Tests
use Prim.Native.String.{String}
use kokoro_koe.Prelude.{ℕ, Bool, List, Option}
use kokoro_koe.Transcription.Request.{AudioSource, SampleTests}
use kokoro_koe.Audio.Vad.{Utterance, Snapshot, Segmenter}

abbrev pub target_sample_rate : ℕ
target_sample_rate = 16000

abbrev pub normalized_chunk_samples : ℕ
normalized_chunk_samples = 160

-- `NativeSampleType`
pub data SampleType : Type 0 where
  float integer unknown : SampleType

-- `NativeAudioFormat`
pub record Format : Type 0 where
  pub sample_rate : ℕ
  pub channels : ℕ
  pub bits_per_sample : ℕ
  pub valid_bits_per_sample : ℕ
  pub block_align : ℕ
  pub channel_mask : ℕ
  pub sample_type : SampleType

-- `AudioPacket`
pub record Packet : Type 0 where
  pub source : AudioSource
  pub start_ms : ℕ
  pub frames : ℕ
  pub bytes : List ℕ
  pub format : Format

-- What the code asks of samples: the tests, `clamp(-1.0, 1.0)`, the value 0, a sample of one channel
-- from its bytes, and the mean of the channels, clamped.
pub record SampleOps (S : Type 0) : Type 0 where
  pub tests : SampleTests S
  pub clamp : S → S
  pub silence : S
  pub decode_sample : List ℕ → Format → S
  pub mean : List S → S

-- The resampler: how many samples it takes next, and what it makes of them, with the number of those
-- that it has consumed.
pub record Resampling (S R : Type 0) : Type 0 where
  pub new_sinc : ℕ → Option R
  pub output_delay : R → ℕ
  pub input_frames_next : R → ℕ
  pub process_into_buffer : R → List S → R × Option (ℕ × List S)

-- `LevelMeter::observe`, with its diagnostics
pub record Meter (S M L : Type 0) : Type 0 where
  pub default : M
  pub observe : M → List S → ℕ → M × List L

-- `ProcessedAudioChunk`
pub record Chunk (S : Type 0) : Type 0 where
  pub source : AudioSource
  pub start_ms : ℕ
  pub samples : List S

-- `FormatPipeline`
pub record FormatPipeline (S R M : Type 0) : Type 0 where
  pub source : AudioSource
  pub format : Format
  pub resampler : Option R
  pub native_buffer : List S
  pub normalized_buffer : List S
  pub timeline_origin_ms : ℕ
  pub normalized_chunks_emitted : ℕ
  pub resampler_delay_frames : ℕ
  pub meter : M

-- `PipelineOutput`
pub record PipelineOutput (S L : Type 0) : Type 0 where
  pub chunks : List (Chunk S)
  pub non_finite_samples_sanitized : ℕ
  pub level_updates : List L

-- `ProcessingOutcome`
pub record ProcessingOutcome (S L : Type 0) : Type 0 where
  pub chunks : List (Chunk S)
  pub native_frames_decoded : ℕ
  pub non_finite_samples_sanitized : ℕ
  pub format_changed : Bool
  pub resampler_delay_frames : ℕ
  pub pending_native_frames : ℕ
  pub pending_normalized_samples : ℕ
  pub level_updates : List L
  pub utterances : List (Utterance S)
  pub snapshot : Option (Snapshot S)
  pub vad_frames_analyzed : ℕ
  pub vad_speech_frames : ℕ
  pub vad_silence_frames : ℕ
  pub short_utterances_rejected : ℕ
  pub forced_splits : ℕ
  pub vad_resets : ℕ
  pub vad_pending_samples : ℕ
  pub vad_buffered_samples : ℕ
  pub vad_ordering_watermark_ms : Option ℕ

-- `SourceProcessor`
pub record SourceProcessor (S D R M : Type 0) : Type 0 where
  pub source : AudioSource
  pub pipeline : Option (FormatPipeline S R M)
  pub vad : Segmenter S D
