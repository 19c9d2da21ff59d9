-- ===== src/Transcription/Pipeline/Frontier.antt =====
-- transcription/integration.rs: `SourceFrontier`, `SourceFrontiers` and `PartialIdentities`.
use Prim.Native.Nat.{min}
use kokoro_koe.Prelude.{ℕ, Bool, true, false, ◌&&◌, Option, none, some, ltb, if◌then◌else◌, u64_max}
use kokoro_koe.Transcription.Request.{AudioSource, microphone, system_output}
use kokoro_koe.Transcription.Pipeline.{
  PartialIdentities, SourceFrontier, SourceFrontiers, source_sealed, watermark_regression, Checked,
  done, failed,
}

-- `PartialIdentities::get` and `set`
abbrev pub get_identity : PartialIdentities → AudioSource → Option (ℕ × ℕ)
get_identity i microphone = i.microphone_identity
get_identity i system_output = i.system_output_identity

abbrev pub set_identity : PartialIdentities → AudioSource → Option (ℕ × ℕ) → PartialIdentities
set_identity i microphone value = record i { microphone_identity = value }
set_identity i system_output value = record i { system_output_identity = value }

abbrev pub regresses : Option ℕ → Option ℕ → Bool
regresses (some previous) (some next) = ltb next previous
regresses _ _ = false

-- `SourceFrontier::validate`
unfoldable pub validate_watermark : SourceFrontier → Option ℕ → Checked (Unit {0})
validate_watermark s watermark_ms =
    if s.is_sealed
    then failed source_sealed
    else if regresses s.last_ms watermark_ms
    then failed watermark_regression
    else done tt

-- `SourceFrontier::update`
unfoldable pub update_watermark : SourceFrontier → Option ℕ → SourceFrontier
update_watermark s none = s
update_watermark s (some t) = record s { current_ms = some t; last_ms = some t }

abbrev pub seal : SourceFrontier → SourceFrontier
seal s = record s { is_sealed = true; current_ms = none }

abbrev pub reopen : SourceFrontier → SourceFrontier
reopen s = record s { is_sealed = false; current_ms = none }

abbrev pub readiness_ms : SourceFrontier → Option ℕ
readiness_ms s = if s.is_sealed then some u64_max else s.current_ms

abbrev pub frontier : SourceFrontiers → AudioSource → SourceFrontier
frontier s microphone = s.microphone_frontier
frontier s system_output = s.system_output_frontier

abbrev pub set_frontier : SourceFrontiers → AudioSource → SourceFrontier → SourceFrontiers
set_frontier s microphone value = record s { microphone_frontier = value }
set_frontier s system_output value = record s { system_output_frontier = value }

abbrev pub earlier : Option ℕ → Option ℕ → Option ℕ
earlier (some a) (some b) = some (min a b)
earlier _ _ = none

-- `SourceFrontiers::readiness_ms`
unfoldable pub both_ready_ms : SourceFrontiers → Option ℕ
both_ready_ms s =
    earlier (readiness_ms s.microphone_frontier) (readiness_ms s.system_output_frontier)

abbrev pub both_sealed : SourceFrontiers → Bool
both_sealed s = s.microphone_frontier.is_sealed && s.system_output_frontier.is_sealed

abbrev pub reopen_both : SourceFrontiers → SourceFrontiers
reopen_both s = record {
  microphone_frontier = reopen s.microphone_frontier;
  system_output_frontier = reopen s.system_output_frontier;
}
