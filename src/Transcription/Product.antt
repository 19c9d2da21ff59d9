-- ===== src/Transcription/Product.antt =====
-- transcription/product.rs: the status of the live transcription and the sections of
-- `LiveTranscriptionService` that hold its lock; domain/transcription.rs: the status. Times and
-- request ids are numbers; whether a time is well formed is the `parses` of a clock, whose answer is
-- given to each section that asks for it. The error of a poisoned lock is left out.
pub mod Held
pub mod Sections
pub mod Runs
pub mod Outcomes
pub mod Bridge
mod Tests
use Prim.Native.String.{String}
use kokoro_koe.Prelude.{
  ℕ, Bool, true, false, not, ◌&&◌, ◌||◌, ◌==◌, if◌then◌else◌, Option, none, some, is_some,
  unwrap_or,
}
use kokoro_koe.Prelude.Coded.{Coded, ok, err}

-- `LiveTranscriptionRunState`
pub data RunState : Type 0 where
  idle starting running stopping stopped failed : RunState

-- `LiveTranscriptionStatus`, with an error by its code
pub record Status : Type 0 where
  pub state : RunState
  pub request_id : Option ℕ
  pub started_at : Option ℕ
  pub stopped_at : Option ℕ
  pub error : Option String

-- `ProductState`, with the active run by its request
pub record ProductState : Type 0 where
  pub status : Status
  pub active : Option ℕ

abbrev pub no_run : ProductState
no_run = record {
  status = record {
    state = idle;
    request_id = none;
    started_at = none;
    stopped_at = none;
    error = none;
  };
  active = none;
}

abbrev pub timestamp_valid : (ℕ → Bool) → Option ℕ → Bool
timestamp_valid parses none = true
timestamp_valid parses (some time) = parses time

-- The fields that a state asks for: the request, the start, the end and the error.
abbrev pub fields_fit : RunState → Bool → Bool → Bool → Bool → Bool
fields_fit idle request begun ended error = not request && not begun && not ended && not error
fields_fit starting request begun ended error = request && begun && not ended && not error
fields_fit running request begun ended error = request && begun && not ended && not error
fields_fit stopping request begun ended error = request && begun && not ended && not error
fields_fit stopped request begun ended error = request && begun && ended && not error
fields_fit failed request begun ended error = request && begun && ended && error

-- `LiveTranscriptionStatus::validate`
unfoldable pub status_valid : (ℕ → Bool) → Status → Bool
status_valid parses s =
    timestamp_valid parses s.started_at
    && timestamp_valid parses s.stopped_at
    && fields_fit s.state (is_some s.request_id) (is_some s.started_at) (is_some s.stopped_at)
        (is_some s.error)

abbrev pub is_busy : RunState → Bool
is_busy starting = true
is_busy running = true
is_busy stopping = true
is_busy _ = false

abbrev pub has_ended : RunState → Bool
has_ended stopped = true
has_ended failed = true
has_ended _ = false

abbrev pub is_request : Option ℕ → ℕ → Bool
is_request none id = false
is_request (some i) id = i == id

-- `LiveTranscriptionStatus::starting`, at the time that the clock gives, if it does
abbrev pub begin_at : ProductState → ℕ → Option ℕ → ProductState × Coded (Unit {0})
begin_at st id none = (st, err "model_operation_failed")
begin_at st id (some now) = (
  record st {
    status = record {
      state = starting;
      request_id = some id;
      started_at = some now;
      stopped_at = none;
      error = none;
    };
  },
  ok tt,
)

-- `reserve_start`
unfoldable pub reserve_start : ProductState → ℕ → Option ℕ → ProductState × Coded (Unit {0})
reserve_start st id now =
    if is_some st.active || is_busy st.status.state
    then (st, err "live_transcription_already_running")
    else if is_request st.status.request_id id
    then (st, err "live_transcription_request_conflict")
    else begin_at st id now

-- `start_with_model` once the runtime has started
unfoldable pub publish_start : (ℕ → Bool) → ProductState → ℕ → ProductState × Coded Status
unfolding status_valid
publish_start parses st id =
    let st' = record st { status = record st.status { state = running }; active = some id } in
    (
      st',
      if status_valid parses st'.status
          then ok st'.status
          else err "live_transcription_status_invalid",
    )

abbrev pub epoch : ℕ
epoch = 0

abbrev pub end_state : Option String → RunState
end_state none = stopped
end_state (some code) = failed

-- `record_terminal_state`
unfoldable pub record_terminal_state : ProductState → ℕ → Option String → Option ℕ → ProductState
record_terminal_state st id error now =
    if is_request st.status.request_id id
    then record st {
      status = record st.status {
        state = end_state error;
        stopped_at = some (unwrap_or now epoch);
        error = error;
      };
    }
    else st

-- What the section at the start of `stop` decides.
pub data Stopping : Type 0 where
  already : Status → Stopping
  refused : String → Stopping
  joins : ℕ → Stopping

abbrev pub stop_active : ProductState → ℕ → Option ℕ → ProductState × Stopping
stop_active st id none = (st, refused "live_transcription_not_running")
stop_active st id (some active) =
    if active == id
    then (record st { status = record st.status { state = stopping }; active = none }, joins active)
    else (st, refused "live_transcription_not_running")

unfoldable pub begin_stop : ProductState → ℕ → ProductState × Stopping
begin_stop st id =
    if not (is_some st.active) && is_request st.status.request_id id && has_ended st.status.state
    then (st, already st.status)
    else stop_active st id st.active
