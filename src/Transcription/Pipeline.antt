-- ===== src/Transcription/Pipeline.antt =====
-- transcription/integration.rs: the state of the live pipeline, and transcription/model.rs: what the
-- engine returns. The engine is a parameter: a state of type `E`, of which the flag that cancels a
-- call is a part, and a function that transcribes a request. Texts are their bytes.
pub mod Frontier
pub mod Submit
pub mod Pump
pub mod Ops
pub mod Queue
pub mod Moves
pub mod Pumps
pub mod Pumped
pub mod Steps
pub mod Settled
pub mod Cancel
pub mod Invariant
pub mod Partials
mod Tests
use Prim.Native.String.{String}
use kokoro_koe.Prelude.{ℕ, ◌≡◌, ◌⊎◌, refl, inl, inr, Bool, false, List, [], Option, none, some}
use kokoro_koe.Transcription.Request.{
  AudioSource, microphone, system_output, TranscriptionRequest, TranscriptionError, Result,
  adapter_unavailable, adapter_incompatible, model_unavailable, model_load_failed,
  unsupported_language, backend_unavailable, invalid_audio, invalid_timeline, inference_failed,
  invalid_native_result, worker_startup_failed, worker_protocol_failed, worker_write_timeout,
  worker_inference_timeout, worker_cancelled, worker_terminated,
}
use kokoro_koe.Transcription.Scheduler.{Scheduler, TranscriptionGap, default}

abbrev pub max_transcript_bytes : ℕ
max_transcript_bytes = 1048576

abbrev pub max_transcript_segments : ℕ
max_transcript_segments = 256

abbrev pub max_vad_batch_utterances : ℕ
max_vad_batch_utterances = 64

abbrev pub cancelled_gap_code : String
cancelled_gap_code = "transcription_pipeline_cancelled"

abbrev pub invalid_result_gap_code : String
invalid_result_gap_code = "transcription_native_result_invalid"

-- `TranscriptionError::code`
unfoldable pub error_code : TranscriptionError → String
error_code adapter_unavailable = "transcription_adapter_unavailable"
error_code adapter_incompatible = "transcription_adapter_incompatible"
error_code model_unavailable = "transcription_model_unavailable"
error_code model_load_failed = "transcription_model_load_failed"
error_code unsupported_language = "transcription_language_unsupported"
error_code backend_unavailable = "transcription_backend_unavailable"
error_code invalid_audio = "transcription_audio_invalid"
error_code invalid_timeline = "transcription_timeline_invalid"
error_code inference_failed = "transcription_inference_failed"
error_code invalid_native_result = "transcription_native_result_invalid"
error_code worker_startup_failed = "transcription_worker_startup_failed"
error_code worker_protocol_failed = "transcription_worker_protocol_failed"
error_code worker_write_timeout = "transcription_worker_write_timeout"
error_code worker_inference_timeout = "transcription_worker_inference_timeout"
error_code worker_cancelled = "transcription_worker_cancelled"
error_code worker_terminated = "transcription_worker_terminated"

pub record TranscriptSegment : Type 0 where
  pub start_ms : ℕ
  pub end_ms : ℕ
  pub text : List ℕ

pub record TranscriptionResult : Type 0 where
  pub source : AudioSource
  pub utterance_start_ms : ℕ
  pub utterance_end_ms : ℕ
  pub language : List ℕ
  pub text : List ℕ
  pub segments : List TranscriptSegment

-- `TranscriptionEngine::transcribe_with_cancel`
pub record Engine (S E : Type 0) : Type 0 where
  pub transcribe : E → TranscriptionRequest S → E × Result TranscriptionResult

-- `LivePipelineState`
pub data PipelineState : Type 0 where
  running pausing paused stopping stopped cancelled : PipelineState

-- `LivePipelineError`
pub data PipelineError : Type 0 where
  invalid_state source_sealed watermark_regression invalid_vad_output : PipelineError
  job_id_exhausted : PipelineError

-- `Result<T, LivePipelineError>`
pub data Checked {ℓ} (A : Type ℓ) : Type ℓ where
  done : A → Checked A
  failed : PipelineError → Checked A

pub Checked-cases {ℓ} :
    {A : Type ℓ} (c : Checked A) → ((a : A) × (c ≡ done a)) ⊎ ((e : PipelineError) × (c ≡ failed e))
Checked-cases (done a) = inl (a, refl)
Checked-cases (failed e) = inr (e, refl)

-- `LivePipelineEvent`
pub data PipelineEvent : Type 0 where
  partial_text final_text : ℕ → TranscriptionResult → PipelineEvent
  gap_left : TranscriptionGap → PipelineEvent

-- `LivePipelineDiagnostics`
pub record PipelineDiagnostics : Type 0 where
  pub finals_received : ℕ
  pub finals_enqueued : ℕ
  pub final_results : ℕ
  pub backlog_gaps : ℕ
  pub inference_gaps : ℕ
  pub cancellation_gaps : ℕ
  pub watermark_blocks : ℕ
  pub discarded_partials : ℕ
  pub partials_received : ℕ
  pub partials_enqueued : ℕ
  pub partials_replaced : ℕ
  pub partials_suppressed : ℕ
  pub partial_results : ℕ
  pub partial_failures : ℕ

-- `PartialIdentities`: the start and the job id of the utterance that each source is in.
pub record PartialIdentities : Type 0 where
  pub microphone_identity : Option (ℕ × ℕ)
  pub system_output_identity : Option (ℕ × ℕ)

pub record SourceFrontier : Type 0 where
  pub current_ms : Option ℕ
  pub last_ms : Option ℕ
  pub is_sealed : Bool

pub record SourceFrontiers : Type 0 where
  pub microphone_frontier : SourceFrontier
  pub system_output_frontier : SourceFrontier

-- `LiveFinalTranscriptionPipeline`
pub record Pipeline (S E : Type 0) : Type 0 where
  pub scheduler : Scheduler S
  pub engine : E
  pub frontiers : SourceFrontiers
  pub state : PipelineState
  pub next_job_id : ℕ
  pub identities : PartialIdentities
  pub last_started_key : Option (ℕ × ℕ × ℕ)
  pub diagnostics : PipelineDiagnostics

abbrev pub open_frontier : SourceFrontier
open_frontier = record { current_ms = none; last_ms = none; is_sealed = false }

abbrev pub no_identities : PartialIdentities
no_identities = record { microphone_identity = none; system_output_identity = none }

-- `new`
unfoldable pub new_pipeline : {S E : Type 0} → E → Pipeline S E
new_pipeline engine = record {
  scheduler = default;
  engine = engine;
  frontiers = record {
    microphone_frontier = open_frontier;
    system_output_frontier = open_frontier;
  };
  state = running;
  next_job_id = 1;
  identities = no_identities;
  last_started_key = none;
  diagnostics = record {
    finals_received = 0;
    finals_enqueued = 0;
    final_results = 0;
    backlog_gaps = 0;
    inference_gaps = 0;
    cancellation_gaps = 0;
    watermark_blocks = 0;
    discarded_partials = 0;
    partials_received = 0;
    partials_enqueued = 0;
    partials_replaced = 0;
    partials_suppressed = 0;
    partial_results = 0;
    partial_failures = 0;
  };
}
