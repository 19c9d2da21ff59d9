-- ===== src/Transcription/Scheduler.antt =====
-- transcription/scheduler.rs: the queue of final jobs, the two slots of partial jobs, and the
-- rules by which jobs enter and leave. A method that takes `&mut self` returns the new scheduler.
pub mod Accounts
pub mod Cases
pub mod Order
pub mod Placement
pub mod Mode
pub mod Identity
pub mod Invariant
pub mod Drain
mod Tests
pub mod Ops
use Prim.Native.Nat.{max}
use Prim.Native.String.{String}
use mathlib.Core.Option
use kokoro_koe.Prelude.{
  ℕ, ◌+◌, ◌-◌, Bool, true, false, not, ◌&&◌, ◌||◌, List, [], ◌∷◌, Option, none, some, ltb, leb,
  ◌==◌, if◌then◌else◌, is_some, length, any, position, insert_at, unwrap_or, sat_add, sub64,
}
use kokoro_koe.Transcription.Request.{
  AudioSource, microphone, system_output, SampleTests, TranscriptionRequest, TranscriptionError,
  Result, ok, err, validate,
}

abbrev pub partial_disable_speech_ms : ℕ
partial_disable_speech_ms = 20000

abbrev pub partial_restore_speech_ms : ℕ
partial_restore_speech_ms = 10000

abbrev pub max_queued_final_speech_ms : ℕ
max_queued_final_speech_ms = 600000

abbrev pub max_queued_final_jobs : ℕ
max_queued_final_jobs = 4096

-- `MAX_QUEUED_FINAL_SPEECH_MS as usize * TRANSCRIPTION_SAMPLE_RATE / 1_000`
abbrev pub max_queued_final_samples : ℕ
max_queued_final_samples = 9600000

abbrev pub final_backlog_gap_code : String
final_backlog_gap_code = "transcription_final_backlog_exceeded"

-- `OwnedTranscriptionRequest`: the id beside the request.
pub record OwnedRequest (S : Type 0) : Type 0 where
  pub job_id : ℕ
  pub request : TranscriptionRequest S
  pub open request use *

pub data JobKind : Type 0 where
  final partial : JobKind

pub record Job (S : Type 0) : Type 0 where
  pub owned : OwnedRequest S
  pub open owned use *
  pub sequence : ℕ
  pub kind : JobKind

-- `duration_ms`
abbrev pub duration_ms : {S : Type 0} → Job S → ℕ
duration_ms j = sub64 j.end_ms j.start_ms

abbrev pub sample_count : {S : Type 0} → Job S → ℕ
sample_count j = length j.samples

pub record TranscriptionGap : Type 0 where
  pub job_id : ℕ
  pub source : AudioSource
  pub start_ms : ℕ
  pub end_ms : ℕ
  pub code : String

pub data FinalSubmission : Type 0 where
  enqueued : FinalSubmission
  gap : TranscriptionGap → FinalSubmission

pub data PartialSubmission : Type 0 where
  enqueued replaced suppressed : PartialSubmission

pub data SubmissionError : Type 0 where
  invalid_request : TranscriptionError → SubmissionError
  duplicate_job : SubmissionError

-- `Result<T, SchedulerSubmissionError>`
pub data Submission (A : Type 0) : Type 0 where
  accepted : A → Submission A
  refused : SubmissionError → Submission A

pub record Diagnostics : Type 0 where
  pub finals_enqueued : ℕ
  pub finals_dequeued : ℕ
  pub final_gaps : ℕ
  pub final_gap_speech_ms : ℕ
  pub partials_enqueued : ℕ
  pub partials_replaced : ℕ
  pub partials_suppressed : ℕ
  pub partials_dequeued : ℕ
  pub partial_disable_transitions : ℕ
  pub partial_restore_transitions : ℕ
  pub peak_queued_final_jobs : ℕ
  pub peak_queued_final_speech_ms : ℕ
  pub peak_logical_queued_samples : ℕ

abbrev pub no_diagnostics : Diagnostics
no_diagnostics = record {
  finals_enqueued = 0;
  finals_dequeued = 0;
  final_gaps = 0;
  final_gap_speech_ms = 0;
  partials_enqueued = 0;
  partials_replaced = 0;
  partials_suppressed = 0;
  partials_dequeued = 0;
  partial_disable_transitions = 0;
  partial_restore_transitions = 0;
  peak_queued_final_jobs = 0;
  peak_queued_final_speech_ms = 0;
  peak_logical_queued_samples = 0;
}

-- `PartialSlots`
pub record PartialSlots (S : Type 0) : Type 0 where
  pub microphone_slot : Option (Job S)
  pub system_output_slot : Option (Job S)

abbrev pub no_partials : {S : Type 0} → PartialSlots S
no_partials = record { microphone_slot = none; system_output_slot = none }

abbrev pub slot : {S : Type 0} → PartialSlots S → AudioSource → Option (Job S)
slot p microphone = p.microphone_slot
slot p system_output = p.system_output_slot

-- A write through `slot_mut`.
abbrev pub set_slot : {S : Type 0} → PartialSlots S → AudioSource → Option (Job S) → PartialSlots S
set_slot p microphone v = record p { microphone_slot = v }
set_slot p system_output v = record p { system_output_slot = v }

abbrev pub has_id : {S : Type 0} → ℕ → Option (Job S) → Bool
has_id i none = false
has_id i (some j) = j.job_id == i

-- One round of the loop in `remove_id`.
abbrev pub drop_id : {S : Type 0} → ℕ → Option (Job S) → Option (Job S)
drop_id i o = if has_id i o then none else o

unfoldable pub remove_id : {S : Type 0} → PartialSlots S → ℕ → PartialSlots S
remove_id p i = record {
  microphone_slot = drop_id i p.microphone_slot;
  system_output_slot = drop_id i p.system_output_slot;
}

unfoldable pub contains_id : {S : Type 0} → PartialSlots S → ℕ → Bool
contains_id p i = has_id i p.microphone_slot || has_id i p.system_output_slot

abbrev pub slot_count : {S : Type 0} → Option (Job S) → ℕ
slot_count o = if is_some o then 1 else 0

-- `PartialSlots::count`
unfoldable pub count : {S : Type 0} → PartialSlots S → ℕ
count p = slot_count p.microphone_slot + slot_count p.system_output_slot

abbrev pub slot_samples : {S : Type 0} → Option (Job S) → ℕ
slot_samples none = 0
slot_samples (some j) = sample_count j

unfoldable pub logical_samples : {S : Type 0} → PartialSlots S → ℕ
logical_samples p = sat_add (slot_samples p.microphone_slot) (slot_samples p.system_output_slot)

-- `TranscriptionScheduler`
pub record Scheduler (S : Type 0) : Type 0 where
  pub finals : List (Job S)
  pub partials : PartialSlots S
  pub queued_final_speech_ms : ℕ
  pub queued_final_samples : ℕ
  pub partials_enabled : Bool
  pub next_partial_source : AudioSource
  pub next_sequence : ℕ
  pub diagnostics : Diagnostics

-- `Default::default`
unfoldable pub default : {S : Type 0} → Scheduler S
default = record {
  finals = [];
  partials = no_partials;
  queued_final_speech_ms = 0;
  queued_final_samples = 0;
  partials_enabled = true;
  next_partial_source = microphone;
  next_sequence = 0;
  diagnostics = no_diagnostics;
}

abbrev pub other_source : AudioSource → AudioSource
other_source microphone = system_output
other_source system_output = microphone

-- `final_sort_key(a) < final_sort_key(b)`: the order of tuples.
unfoldable pub key_lt : {S : Type 0} → Job S → Job S → Bool
key_lt a b =
    ltb a.start_ms b.start_ms
    || (a.start_ms == b.start_ms
        && (ltb a.end_ms b.end_ms || (a.end_ms == b.end_ms && ltb a.sequence b.sequence)))

unfoldable pub update_partial_mode : {S : Type 0} → Scheduler S → Scheduler S
update_partial_mode s =
    if s.partials_enabled && leb partial_disable_speech_ms s.queued_final_speech_ms
    then record s {
      partials_enabled = false;
      partials = no_partials;
      diagnostics = record d {
        partial_disable_transitions = sat_add d.partial_disable_transitions 1;
      };
    }
    else if not s.partials_enabled && ltb s.queued_final_speech_ms partial_restore_speech_ms
    then record s {
      partials_enabled = true;
      diagnostics = record d {
        partial_restore_transitions = sat_add d.partial_restore_transitions 1;
      };
    }
    else s
  where
    d : Diagnostics
    d = s.diagnostics

unfoldable pub update_peaks : {S : Type 0} → Scheduler S → Scheduler S
unfolding logical_samples
update_peaks s = record s {
  diagnostics = record d {
    peak_queued_final_jobs = max d.peak_queued_final_jobs (length s.finals);
    peak_queued_final_speech_ms = max d.peak_queued_final_speech_ms s.queued_final_speech_ms;
    peak_logical_queued_samples =
        max d.peak_logical_queued_samples
          (sat_add s.queued_final_samples (logical_samples s.partials));
  };
}
  where
    d : Diagnostics
    d = s.diagnostics
