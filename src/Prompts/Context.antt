-- ===== src/Prompts/Context.antt =====
-- prompts/context.rs: the request for a prompt and what is built of it; prompts/catalog.rs: the limits
-- of each purpose. Ids are numbers, 0 the nil one; a text is its bytes, and a question its characters.
-- Of a segment the fields that no prompt shows are one text. The validation of records, the JSON
-- library and the instructions are given as `Library`.
pub mod Ops
pub mod Sorting
pub mod Unique
pub mod Candidates
pub mod Selection
pub mod Handoff
mod Tests
use kokoro_koe.Prelude.{ℕ, Bool, List, Option}
use kokoro_koe.Transcription.Request.{AudioSource}
use kokoro_koe.Llm.Budget.{Purpose, insight, summary, manual_question, Session, Specification}
use kokoro_koe.Llm.Budget.Money.{Text}

abbrev pub max_candidate_segments_per_source : ℕ
max_candidate_segments_per_source = 100

abbrev pub max_selected_segments : ℕ
max_selected_segments = 64

abbrev pub token_estimate_bytes_per_token : ℕ
token_estimate_bytes_per_token = 3

abbrev pub token_safety_margin : ℕ
token_safety_margin = 64

-- `SummaryKind`
pub data SummaryKind : Type 0 where
  accumulated final : SummaryKind

-- `PromptTask`
pub data Task : Type 0 where
  insight_task : List ℕ → Task
  summary_task : SummaryKind → Task
  question_task : List ℕ → ℕ → Task

abbrev pub purpose_of : Task → Purpose
purpose_of (insight_task requested_types) = insight
purpose_of (summary_task kind) = summary
purpose_of (question_task question selected_segment_id) = manual_question

-- `TranscriptSegmentView`
pub record Segment : Type 0 where
  pub id : ℕ
  pub project_id : ℕ
  pub session_id : ℕ
  pub source : AudioSource
  pub start_ms : ℕ
  pub end_ms : ℕ
  pub text : Text
  pub language : Text
  pub other_fields : Text

-- `PromptContextRequest`, with the id of its project and the types of its session's preset
pub record Request : Type 0 where
  pub project_id : ℕ
  pub session : Session
  pub preset_insight_types : List ℕ
  pub task : Task
  pub relevant_segments : List Segment
  pub recent_segments : List Segment

pub record Library : Type 0 where
  pub records_valid : Request → Bool
  pub segment_valid : Segment → Bool
  pub system_instructions : Text
  pub task_instructions : Purpose → Text
  pub compact_output_schema : Purpose → Option Text
  pub render_untrusted_context : Request → List Segment → Option Text

-- `PROMPT_SPECIFICATIONS`, the limits of each
abbrev pub prompt_specification : Purpose → Specification
prompt_specification insight = record {
  purpose = insight;
  approximate_request_token_limit = 8192;
  maximum_output_tokens = 1024;
}
prompt_specification summary = record {
  purpose = summary;
  approximate_request_token_limit = 32768;
  maximum_output_tokens = 4096;
}
prompt_specification manual_question = record {
  purpose = manual_question;
  approximate_request_token_limit = 8192;
  maximum_output_tokens = 2048;
}

-- `CandidateOrigin`
pub data Origin : Type 0 where
  relevant recent : Origin

-- `Candidate`
pub record Candidate : Type 0 where
  pub segment : Segment
  pub origin : Origin
  pub required : Bool

-- What the loop over the candidates changes.
pub record Selected : Type 0 where
  pub segments : List Segment
  pub omitted_relevant : ℕ
  pub omitted_recent : ℕ

-- `PromptEnvelope`, as it is built
pub record Prompt : Type 0 where
  pub specification : Specification
  pub model_id : Text
  pub request_token_limit : ℕ
  pub input_token_limit : ℕ
  pub maximum_output_tokens : ℕ
  pub estimated_input_tokens : ℕ
  pub selected_segment_ids : List ℕ
  pub omitted_relevant_segments : ℕ
  pub omitted_recent_segments : ℕ
  pub system_instructions : Text
  pub task_instructions : Text
  pub untrusted_context : Text
  pub output_schema : Text
