-- ===== src/Transcription/Pipeline/Ops.antt =====
-- transcription/integration.rs: the calls that pause, resume, stop, seal and cancel, and the calls of
-- the pipeline taken together.
use kokoro_koe.Prelude.{
  ℕ, zero, suc, Bool, true, false, not, ◌||◌, List, [], ◌∷◌, Option, none, some, if◌then◌else◌,
  is_empty, length, sat_add,
}
use kokoro_koe.Transcription.Request.{AudioSource, SampleTests}
use kokoro_koe.Transcription.Scheduler.Ops.{next_final_job, discard_partials}
use kokoro_koe.Audio.Vad.{Utterance, Snapshot}
use kokoro_koe.Transcription.Pipeline.{
  PipelineState, running, pausing, paused, stopping, stopped, cancelled, invalid_state,
  source_sealed, Checked, done, failed, PipelineEvent, gap_left, Pipeline, Engine,
  cancelled_gap_code, no_identities,
}
use kokoro_koe.Transcription.Pipeline.Frontier.{frontier, set_frontier, seal, reopen_both}
use kokoro_koe.Transcription.Pipeline.Submit.{is_running, submit_finalized_vad, submit_snapshot}
use kokoro_koe.Transcription.Pipeline.Pump.{
  job_gap, settle_boundary, count_cancellation_gap, pump_one,
}

abbrev pub is_paused : PipelineState → Bool
is_paused paused = true
is_paused _ = false

abbrev pub is_closing : PipelineState → Bool
is_closing pausing = true
is_closing stopping = true
is_closing _ = false

module _ {S E : Type 0} where
  -- `discard_partials`
  unfoldable pub discard_all_partials : Pipeline S E → Pipeline S E
  discard_all_partials p = record p {
    identities = no_identities;
    scheduler = (discard_partials p.scheduler).0;
    diagnostics = record (p.diagnostics) {
      discarded_partials =
          sat_add p.diagnostics.discarded_partials (discard_partials p.scheduler).1;
    };
  }

  unfoldable pub begin_pause : Pipeline S E → Pipeline S E × Checked (Unit {0})
  unfolding discard_all_partials
  begin_pause p =
      if not (is_running p.state)
      then (p, failed invalid_state)
      else (discard_all_partials (record p { state = pausing }), done tt)

  unfoldable pub resume : Pipeline S E → Pipeline S E × Checked (Unit {0})
  resume p =
      if not (is_paused p.state) || not (is_empty p.scheduler.finals)
      then (p, failed invalid_state)
      else (record p { frontiers = reopen_both p.frontiers; state = running }, done tt)

  unfoldable pub begin_stop : Pipeline S E → Pipeline S E × Checked (Unit {0})
  unfolding discard_all_partials
  begin_stop p =
      if is_paused p.state
      then (record p { state = stopped }, done tt)
      else if is_running p.state
      then (discard_all_partials (record p { state = stopping }), done tt)
      else (p, failed invalid_state)

  unfoldable pub seal_source : Pipeline S E → AudioSource → Pipeline S E × Checked (Unit {0})
  unfolding settle_boundary
  seal_source p source =
      if not (is_closing p.state)
      then (p, failed invalid_state)
      else if (frontier p.frontiers source).is_sealed
      then (p, failed source_sealed)
      else (
        settle_boundary (record p {
          frontiers = set_frontier p.frontiers source (seal (frontier p.frontiers source));
        }),
        done tt,
      )

  -- The loop of `cancel_pending`, which runs once for each final job.
  unfoldable pub cancel_finals : ℕ → Pipeline S E → Pipeline S E × List PipelineEvent
  cancel_finals zero p = (p, [])
  cancel_finals (suc fuel) p =
      let taken = next_final_job p.scheduler in
      elim (taken.1) [
        | none ↦ (p, [])
        | some j ↦
            let rest = cancel_finals fuel (record p {
              scheduler = taken.0;
              diagnostics = count_cancellation_gap p.diagnostics;
            }) in
            (rest.0, gap_left (job_gap j cancelled_gap_code) ∷ rest.1)
      ]

  abbrev pub seal_both : Pipeline S E → Pipeline S E
  seal_both p = record p {
    state = cancelled;
    frontiers = record {
      microphone_frontier = seal p.frontiers.microphone_frontier;
      system_output_frontier = seal p.frontiers.system_output_frontier;
    };
  }

  unfoldable pub cancel_pending : Pipeline S E → Pipeline S E × List PipelineEvent
  unfolding discard_all_partials cancel_finals
  cancel_pending p =
      let p' = discard_all_partials (seal_both p) in cancel_finals (length p'.scheduler.finals) p'

module _ {S E : Type 0} (f : SampleTests S) where
  -- `submit_processing_outcome`
  unfoldable pub submit_processing_outcome :
      Pipeline S E
      → AudioSource
      → Option (Snapshot S)
      → List (Utterance S)
      → Option ℕ
      → Pipeline S E × Checked (List PipelineEvent)
  unfolding submit_snapshot submit_finalized_vad
  submit_processing_outcome p source none utterances watermark_ms =
      submit_finalized_vad f p source utterances watermark_ms
  submit_processing_outcome p source (some u) utterances watermark_ms =
      let (p', out) = submit_snapshot f p u in
      elim out [
        | failed e ↦ (p', failed e)
        | done _ ↦ submit_finalized_vad f p' source utterances watermark_ms
      ]

-- The calls of a pipeline.
pub data Call (S : Type 0) : Type 0 where
  submits_finals : AudioSource → List (Utterance S) → Option ℕ → Call S
  submits_snapshot : Snapshot S → Call S
  submits_outcome : AudioSource → Option (Snapshot S) → List (Utterance S) → Option ℕ → Call S
  seals : AudioSource → Call S
  pumps pauses resumes stops cancels : Call S

module _ {S E : Type 0} (f : SampleTests S) (en : Engine S E) where
  unfoldable pub step : Pipeline S E → Call S → Pipeline S E
  step p (submits_finals source us t) = (submit_finalized_vad f p source us t).0
  step p (submits_snapshot u) = (submit_snapshot f p u).0
  step p (submits_outcome source o us t) = (submit_processing_outcome f p source o us t).0
  step p (seals source) = (seal_source p source).0
  step p pumps = (pump_one en p).0
  step p pauses = (begin_pause p).0
  step p resumes = (resume p).0
  step p stops = (begin_stop p).0
  step p cancels = (cancel_pending p).0

  unfoldable pub run : Pipeline S E → List (Call S) → Pipeline S E
  run p [] = p
  run p (c ∷ cs) = run (step p c) cs
