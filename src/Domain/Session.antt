-- ===== src/Domain/Session.antt =====
-- domain/projects.rs: the lifecycle of a session. `Session` has the fields that a change of state reads
-- or writes; `contents` are the others, with the date in the creation time that the name of the
-- folder is compared with, and pass their tests or not. A timestamp is a number, and the `parse` of
-- a clock reads it.
pub mod Lifecycle
mod Tests
use kokoro_koe.Prelude.{
  ℕ, ◌+◌, Bool, true, false, not, ◌&&◌, ◌||◌, if◌then◌else◌, Option, none, some, is_some, List, [],
  ◌∷◌, any, ltb, leb, ◌==◌,
}
use kokoro_koe.Prelude.Coded.{Coded, ok, err, ◌>>=◌, ◌>>◌, fail_if, some_or}

abbrev pub json_safe_integer_max : ℕ
json_safe_integer_max = 9007199254740991

pub data ChannelHealthStatus : Type 0 where
  starting active silent reconnecting unavailable stopped : ChannelHealthStatus

pub record ChannelHealth : Type 0 where
  pub status : ChannelHealthStatus
  pub endpoint_id : Option (List ℕ)
  pub detail_code : Option (List ℕ)
  pub updated_at : ℕ

pub data SessionState : Type 0 where
  idle preparing capturing transcribing paused stopping processing_summary completed failed :
      SessionState

pub record Session (C : Type 0) : Type 0 where
  pub contents : C
  pub state : SessionState
  pub microphone : ChannelHealth
  pub system_output : ChannelHealth
  pub created_at : ℕ
  pub started_at : Option ℕ
  pub ended_at : Option ℕ
  pub updated_at : ℕ
  pub revision : ℕ

abbrev utf16_units : List ℕ → ℕ
utf16_units [] = 0
utf16_units (c ∷ cs) = (if ltb c 65536 then 1 else 2) + utf16_units cs

-- `bounded_text` of a single line: no control character, which 0 is among
unfoldable pub bounded_line : List ℕ → ℕ → ℕ → Bool
bounded_line value minimum maximum =
    leb minimum (utf16_units value)
    && leb (utf16_units value) maximum
    && not (any (λ c. ltb c 32 || (leb 127 c && leb c 159)) value)

abbrev pub line_fits : Option (List ℕ) → ℕ → Bool
line_fits none maximum = true
line_fits (some value) maximum = bounded_line value 1 maximum

abbrev pub valid_channel_health : (ℕ → Option ℕ) → ChannelHealth → Bool
valid_channel_health parse h =
    line_fits h.endpoint_id 1024 && line_fits h.detail_code 128 && is_some (parse h.updated_at)

abbrev pub in_order : Option ℕ → Option ℕ → Bool
in_order (some created) (some updated) = leb created updated
in_order (some created) none = false
in_order none updated = false

abbrev pub ordered_timestamps : (ℕ → Option ℕ) → ℕ → ℕ → Bool
ordered_timestamps parse created updated = in_order (parse created) (parse updated)

-- Whether there is a time and it is before the other, or without it
abbrev pub is_before : Option ℕ → Option ℕ → Bool
is_before none floor = false
is_before (some value) none = true
is_before (some value) (some floor) = ltb value floor

abbrev pub and_then : Option ℕ → (ℕ → Option ℕ) → Option ℕ
and_then none parse = none
and_then (some stamp) parse = parse stamp

abbrev pub or : Option ℕ → Option ℕ → Option ℕ
or none other = other
or (some value) other = some value

abbrev pub reads : Option ℕ → (ℕ → Option ℕ) → Bool
reads none parse = true
reads (some stamp) parse = is_some (parse stamp)

abbrev pub is_completed : SessionState → Bool
is_completed completed = true
is_completed _ = false

abbrev pub valid_lifecycle_timestamps : {C : Type 0} → (ℕ → Option ℕ) → Session C → Bool
valid_lifecycle_timestamps parse s =
    let created = parse s.created_at in
    let started = and_then s.started_at parse in
    let ended = and_then s.ended_at parse in
    reads s.started_at parse
    && reads s.ended_at parse
    && not (is_before started created)
    && not (is_before ended (or started created))
    && (not (is_completed s.state) || is_some s.ended_at)

-- `Session::validate`, with the tests of the contents
unfoldable pub session_valid : {C : Type 0} → (ℕ → Option ℕ) → (C → Bool) → Session C → Bool
session_valid parse contents_valid s =
    contents_valid s.contents
    && valid_channel_health parse s.microphone
    && valid_channel_health parse s.system_output
    && leb s.revision json_safe_integer_max
    && ordered_timestamps parse s.created_at s.updated_at
    && valid_lifecycle_timestamps parse s

abbrev pub transcribes : SessionState → Bool
transcribes transcribing = true
transcribes _ = false

abbrev pub pauses : SessionState → Bool
pauses paused = true
pauses _ = false

abbrev pub fails : SessionState → Bool
fails failed = true
fails _ = false

-- The changes of state that `apply_runtime_state` knows
abbrev pub allowed : SessionState → SessionState → Bool
allowed idle state = transcribes state || pauses state || is_completed state || fails state
allowed paused state = transcribes state || is_completed state || fails state
allowed transcribing state = pauses state || is_completed state || fails state
allowed preparing state = fails state
allowed capturing state = fails state
allowed stopping state = fails state
allowed processing_summary state = false
allowed completed state = false
allowed failed state = false

abbrev pub health_of : SessionState → Option ChannelHealthStatus
health_of transcribing = some active
health_of failed = some unavailable
health_of paused = some stopped
health_of completed = some stopped
health_of _ = none

abbrev pub starts : SessionState → Bool
starts transcribing = true
starts paused = true
starts completed = true
starts _ = false

abbrev pub next_revision : ℕ → Option ℕ
next_revision revision =
    if leb (revision + 1) json_safe_integer_max then some (revision + 1) else none

abbrev pub with_health : ChannelHealth → ChannelHealthStatus → Option (List ℕ) → ℕ → ChannelHealth
with_health h status detail stamp = record h {
  status = status;
  detail_code = detail;
  updated_at = stamp;
}

-- The session that `apply_runtime_state` makes
abbrev pub changed :
    {C : Type 0}
    → Session C
    → SessionState
    → ℕ
    → Option (List ℕ)
    → ChannelHealthStatus
    → ℕ
    → Session C
changed s state stamp detail health revision = record s {
  state = state;
  started_at = or s.started_at (if starts state then some stamp else none);
  ended_at = if is_completed state then some stamp else s.ended_at;
  microphone = with_health s.microphone health detail stamp;
  system_output = with_health s.system_output health detail stamp;
  updated_at = stamp;
  revision = revision;
}

unfoldable pub apply_runtime_state :
    {C : Type 0}
    → (ℕ → Option ℕ)
    → (C → Bool)
    → Session C
    → SessionState
    → ℕ
    → Option (List ℕ)
    → Coded (Session C)
apply_runtime_state parse contents_valid s state updated_at detail = do
  fail_if (not (allowed s.state state) || not (line_fits detail 128)) "session_lifecycle_invalid"
  revision ← some_or (next_revision s.revision) "session_revision_exhausted"
  current ← some_or (parse s.updated_at) "session_contract_invalid"
  requested ← some_or (parse updated_at) "session_contract_invalid"
  health ← some_or (health_of state) "session_lifecycle_invalid"
  let value =
      changed s state (if leb current requested then updated_at else s.updated_at) detail health
        revision
  fail_if (not (session_valid parse contents_valid value)) "session_contract_invalid"
  ok value

abbrev pub new_health : List ℕ → ℕ → ChannelHealth
new_health endpoint_id created_at = record {
  status = stopped;
  endpoint_id = some endpoint_id;
  detail_code = none;
  updated_at = created_at;
}

-- The session that `Session::create` makes of its contents and the two endpoints
abbrev pub new_session : {C : Type 0} → C → List ℕ → List ℕ → ℕ → Session C
new_session contents microphone system_output created_at = record {
  contents = contents;
  state = idle;
  microphone = new_health microphone created_at;
  system_output = new_health system_output created_at;
  created_at = created_at;
  started_at = none;
  ended_at = none;
  updated_at = created_at;
  revision = 1;
}

-- `Session::create`, once the contents have been put together
unfoldable pub create :
    {C : Type 0} → (ℕ → Option ℕ) → (C → Bool) → C → List ℕ → List ℕ → ℕ → Coded (Session C)
create parse contents_valid contents microphone system_output created_at = do
  created ← some_or (parse created_at) "session_contract_invalid"
  let value = new_session contents microphone system_output created_at
  fail_if (not (session_valid parse contents_valid value)) "session_contract_invalid"
  ok value
