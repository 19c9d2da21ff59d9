-- ===== src/Transcription/Pipeline/Tests.antt =====
-- Runs of the pipeline on small inputs, and the theorems at them. A sample is a truth value and every
-- sample is in range; the engine answers each request with a fixed text.
use kokoro_koe.Prelude.{
  ℕ, ◌+◌, ◌<◌, ◌≡◌, refl, Bool, true, false, List, [], ◌∷◌, some, map, length, u64_max, arith,
}
use kokoro_koe.Transcription.Request.{microphone, system_output, SampleTests, ok}
use kokoro_koe.Audio.Vad.{Utterance, trailing_silence}
use kokoro_koe.Transcription.Pipeline.{Pipeline, Engine, new_pipeline}
use kokoro_koe.Transcription.Pipeline.Ops.{
  Call, submits_finals, seals, pauses, pumps, step, run, cancel_pending,
}
use kokoro_koe.Transcription.Pipeline.Invariant.{Inv, new_pipeline-Inv}
use kokoro_koe.Transcription.Pipeline.Pumps.{Stepped}
use kokoro_koe.Transcription.Pipeline.Steps.{pipeline-Stepped, pipeline_run-Inv}
use kokoro_koe.Transcription.Pipeline.Queue.{IsQuiet}
use kokoro_koe.Transcription.Pipeline.Pump.{pump_one}
use kokoro_koe.Transcription.Pipeline.Pumped.{Pumped, pump_one-Pumped}
use kokoro_koe.Transcription.Pipeline.Settled.{is_at_rest, run-Settled}
use kokoro_koe.Transcription.Pipeline.Cancel.{cancelled_event, cancel_pending-events}
use kokoro_koe.Transcription.Scheduler.Ops.{
  next_final_start_ms, submit_final, place_final, backlog_full, insert_final, discard_partials,
  next_final_job, pop_final,
}
use kokoro_koe.Transcription.Pipeline.Ops.{seal_source, begin_pause, discard_all_partials}
use kokoro_koe.Transcription.Pipeline.Submit.{
  submit_finalized_vad, check_batch, claim_id, count_submission, queue_final, submit_utterance,
  submit_utterances, take_job_id,
}
use kokoro_koe.Transcription.Request.{validate}
use kokoro_koe.Transcription.Scheduler.{
  default, update_peaks, update_partial_mode, key_lt, count, logical_samples, remove_id,
}
use kokoro_koe.Transcription.Pipeline.Frontier.{both_ready_ms, update_watermark, validate_watermark}
use kokoro_koe.Transcription.Pipeline.Pump.{
  final_ready, judge_final, pump_final, result_matches_job, settle_boundary, transcribe_final,
}

abbrev any_sample : SampleTests Bool
any_sample = record { is_finite = λ _. true; in_unit = λ _. true }

-- 16 samples, a millisecond of sound
abbrev sound : List Bool
sound =
    false ∷ true ∷ false ∷ true ∷ false ∷ true ∷ false ∷ true ∷ false ∷ true ∷ false ∷ true ∷ false
    ∷ true ∷ false ∷ true ∷ []

abbrev utterance_at : ℕ → Utterance Bool
utterance_at t = record {
  source = microphone;
  start_ms = t;
  end_ms = t + 1;
  samples = sound;
  reason = trailing_silence;
}

abbrev answers : Engine Bool (Unit {0})
answers = record {
  transcribe = λ e r. (
    e,
    ok (record {
      source = r.source;
      utterance_start_ms = r.start_ms;
      utterance_end_ms = r.end_ms;
      language = b'e' ∷ b'n' ∷ [];
      text = b'a' ∷ [];
      segments = [];
    }),
  );
}

abbrev fresh : Pipeline Bool (Unit {0})
fresh = new_pipeline tt

abbrev calls : List (Call Bool)
calls =
    submits_finals microphone (utterance_at 10 ∷ utterance_at 30 ∷ []) (some 40)
    ∷ pauses
    ∷ seals microphone
    ∷ []

abbrev half_closed : Pipeline Bool (Unit {0})
half_closed = run any_sample answers fresh calls

half_closed-Inv : Inv any_sample half_closed
half_closed-Inv = pipeline_run-Inv any_sample answers fresh calls (new_pipeline-Inv any_sample tt)

pipeline-Stepped_example :
    Stepped any_sample half_closed (step any_sample answers half_closed (seals system_output))
pipeline-Stepped_example =
    pipeline-Stepped any_sample answers half_closed (seals system_output) half_closed-Inv

cancel_pending-events_example :
    ((cancel_pending half_closed).1 ≡ map cancelled_event half_closed.scheduler.finals)
    × ((cancel_pending half_closed).0.scheduler.finals ≡ [])
cancel_pending-events_example = cancel_pending-events half_closed

-- The first of the two utterances may be answered when both sources are sealed.
abbrev closed : Pipeline Bool (Unit {0})
closed = step any_sample answers half_closed (seals system_output)

pump_one-Pumped_example :
    Pumped answers closed (pump_one answers closed).0 (pump_one answers closed).1
pump_one-Pumped_example = pump_one-Pumped answers closed

-- The pipeline is paused when the final job has been answered.
abbrev to_the_pause : List (Call Bool)
to_the_pause =
    submits_finals microphone (utterance_at 10 ∷ []) (some 40)
    ∷ pauses
    ∷ seals microphone
    ∷ seals system_output
    ∷ pumps
    ∷ []

abbrev at_pause : Pipeline Bool (Unit {0})
at_pause = run any_sample answers fresh to_the_pause

is_paused_then :
    (is_at_rest at_pause.state ≡ true) × (at_pause.diagnostics.finals_enqueued < u64_max)
unfolding run step pump_one new_pipeline next_final_start_ms seal_source begin_pause
    submit_finalized_vad validate submit_final default place_final backlog_full update_peaks
    update_partial_mode insert_final discard_partials key_lt next_final_job both_ready_ms
    update_watermark validate_watermark discard_all_partials final_ready judge_final pump_final
    result_matches_job settle_boundary transcribe_final check_batch claim_id count_submission
    queue_final submit_utterance submit_utterances take_job_id pop_final count logical_samples
    remove_id
is_paused_then = (refl, omega arith)

run-Settled_example :
    (length at_pause.scheduler.finals ≡ 0)
    × IsQuiet at_pause.scheduler
    × (at_pause.diagnostics.finals_enqueued
        ≡ at_pause.diagnostics.final_results + at_pause.diagnostics.inference_gaps
          + at_pause.diagnostics.cancellation_gaps)
run-Settled_example =
    run-Settled any_sample answers tt to_the_pause is_paused_then.0 is_paused_then.1
