-- ===== src/Transcription/Pipeline/Submit.antt =====
-- transcription/integration.rs: `submit_finalized_vad` and `submit_partial`. A call returns the
-- pipeline as it leaves it, also where it fails half-way.
use kokoro_koe.Prelude.{
  ℕ, ◌+◌, Bool, true, false, not, ◌||◌, List, [], ◌∷◌, ◌++◌, Option, none, some, ltb, ◌==◌,
  if◌then◌else◌, any, length, sat_add, u64_max,
}
use kokoro_koe.Transcription.Request.{
  AudioSource, SampleTests, TranscriptionRequest, Result, ok, err, validate,
}
use kokoro_koe.Transcription.Scheduler.{
  FinalSubmission, PartialSubmission, Submission, accepted, refused,
}
use kokoro_koe.Transcription.Scheduler.Ops.{submit_final}
use kokoro_koe.Transcription.Scheduler.Ops as SchedulerOps
use kokoro_koe.Audio.Vad.{Utterance, Snapshot}
use kokoro_koe.Audio.Vad.Ops.{same_source}
use kokoro_koe.Audio.Vad.Handoff.{request_of}
use kokoro_koe.Transcription.Pipeline.{
  PipelineState, running, pausing, stopping, invalid_state, source_sealed, invalid_vad_output,
  job_id_exhausted, Checked, done, failed, PipelineEvent, gap_left, Pipeline,
  max_vad_batch_utterances,
}
use kokoro_koe.Transcription.Pipeline.Frontier.{
  get_identity, set_identity, validate_watermark, update_watermark, frontier, set_frontier,
}

abbrev pub is_running : PipelineState → Bool
is_running running = true
is_running _ = false

abbrev pub takes_finals : PipelineState → Bool
takes_finals running = true
takes_finals pausing = true
takes_finals stopping = true
takes_finals _ = false

abbrev pub is_refused : {S : Type 0} → Result (TranscriptionRequest S) → Bool
is_refused (ok r) = false
is_refused (err e) = true

abbrev pub continues : Option (ℕ × ℕ) → ℕ → Option ℕ
continues none start_ms = none
continues (some (start, job_id)) start_ms = if start == start_ms then some job_id else none

module _ {S E : Type 0} where
  -- `take_job_id`
  unfoldable pub take_job_id : Pipeline S E → Pipeline S E × Checked ℕ
  take_job_id p =
      if ltb p.next_job_id u64_max
      then (record p { next_job_id = p.next_job_id + 1 }, done p.next_job_id)
      else (p, failed job_id_exhausted)

  -- The id of a final job: that of its partial jobs, if it had any.
  unfoldable pub claim_id : Pipeline S E → AudioSource → ℕ → Pipeline S E × Checked ℕ
  unfolding take_job_id
  claim_id p source start_ms = elim (continues (get_identity p.identities source) start_ms) [
    | some job_id ↦ (record p { identities = set_identity p.identities source none }, done job_id)
    | none ↦ take_job_id p
  ]

  -- The counts of a submission, and the event of a gap.
  abbrev pub count_received : Pipeline S E → Pipeline S E
  count_received p = record p {
    diagnostics = record (p.diagnostics) {
      finals_received = sat_add p.diagnostics.finals_received 1;
    };
  }

  unfoldable pub count_submission :
      Pipeline S E → Submission FinalSubmission → Pipeline S E × Checked (List PipelineEvent)
  count_submission p (refused e) = (p, failed invalid_vad_output)
  count_submission p (accepted FinalSubmission.enqueued) = (
    record p {
      diagnostics = record (p.diagnostics) {
        finals_enqueued = sat_add p.diagnostics.finals_enqueued 1;
      };
    },
    done [],
  )
  count_submission p (accepted (FinalSubmission.gap g)) = (
    record p {
      diagnostics = record (p.diagnostics) { backlog_gaps = sat_add p.diagnostics.backlog_gaps 1 };
    },
    done (gap_left g ∷ []),
  )

abbrev pub unfit : {S : Type 0} → SampleTests S → AudioSource → Utterance S → Bool
unfit f source u = not (same_source u.source source) || is_refused (validate f (request_of u))

module _ {S E : Type 0} (f : SampleTests S) where
  unfoldable pub queue_final :
      Pipeline S E → ℕ → Utterance S → Pipeline S E × Checked (List PipelineEvent)
  unfolding count_submission
  queue_final p job_id u =
      let out = submit_final f p.scheduler job_id (request_of u) in
      count_submission (record (count_received p) { scheduler = out.0 }) out.1

  -- The body of the loop over the utterances.
  unfoldable pub submit_utterance :
      Pipeline S E → AudioSource → Utterance S → Pipeline S E × Checked (List PipelineEvent)
  unfolding claim_id queue_final
  submit_utterance p source u =
      let (p', claimed) = claim_id p source u.start_ms in
      elim claimed [ failed e ↦ (p', failed e) | done job_id ↦ queue_final p' job_id u ]

  -- The loop; an error ends it, and the events so far are lost.
  unfoldable pub submit_utterances :
      Pipeline S E → AudioSource → List (Utterance S) → Pipeline S E × Checked (List PipelineEvent)
  unfolding submit_utterance
  submit_utterances p source [] = (p, done [])
  submit_utterances p source (u ∷ us) =
      let one = submit_utterance p source u in
      elim (one.1) [
        | failed e ↦ (one.0, failed e)
        | done events ↦
            let rest = submit_utterances one.0 source us in
            elim (rest.1) [
              | failed e ↦ (rest.0, failed e)
              | done more ↦ (rest.0, done (events ++ more))
            ]
      ]

  -- The tests before the loop.
  unfoldable pub check_batch :
      Pipeline S E → AudioSource → List (Utterance S) → Option ℕ → Checked (Unit {0})
  unfolding validate_watermark
  check_batch p source utterances watermark_ms =
      if not (takes_finals p.state)
      then failed invalid_state
      else if ltb max_vad_batch_utterances (length utterances)
      then failed invalid_vad_output
      else elim (validate_watermark (frontier p.frontiers source) watermark_ms) [
        | failed e ↦ failed e
        | done _ ↦
            if any (unfit f source) utterances
            then failed invalid_vad_output
            else if ltb u64_max (p.next_job_id + length utterances)
            then failed job_id_exhausted
            else done tt
      ]

  -- `submit_finalized_vad`
  unfoldable pub submit_finalized_vad :
      Pipeline S E
      → AudioSource
      → List (Utterance S)
      → Option ℕ
      → Pipeline S E × Checked (List PipelineEvent)
  unfolding check_batch submit_utterances update_watermark
  submit_finalized_vad p source utterances watermark_ms =
      elim (check_batch p source utterances watermark_ms) [
        | failed e ↦ (p, failed e)
        | done _ ↦
            let (p', out) = submit_utterances p source utterances in
            elim out [
              | failed e ↦ (p', failed e)
              | done events ↦ (
                record p' {
                  frontiers =
                      set_frontier p'.frontiers source
                        (update_watermark (frontier p'.frontiers source) watermark_ms);
                },
                done events,
              )
            ]
      ]

abbrev pub snapshot_request : {S : Type 0} → Snapshot S → TranscriptionRequest S
snapshot_request u = record {
  source = u.source;
  start_ms = u.start_ms;
  end_ms = u.end_ms;
  samples = u.samples;
}

module _ {S E : Type 0} where
  abbrev pub count_snapshot : Pipeline S E → Pipeline S E
  count_snapshot p = record p {
    diagnostics = record (p.diagnostics) {
      partials_received = sat_add p.diagnostics.partials_received 1;
    };
  }

  -- The id of a partial job: that of the utterance that its source is in.
  unfoldable pub partial_id : Pipeline S E → AudioSource → ℕ → Pipeline S E × Checked ℕ
  unfolding take_job_id
  partial_id p source start_ms = elim (continues (get_identity p.identities source) start_ms) [
    | some job_id ↦ (p, done job_id)
    | none ↦
        let taken = take_job_id p in
        elim (taken.1) [
          | failed e ↦ (taken.0, failed e)
          | done job_id ↦ (
            record (taken.0) {
              identities = set_identity taken.0.identities source (some (start_ms, job_id));
            },
            done job_id,
          )
        ]
  ]

  unfoldable pub count_partial :
      Pipeline S E → Submission PartialSubmission → Pipeline S E × Checked (Unit {0})
  count_partial p (refused e) = (p, failed invalid_vad_output)
  count_partial p (accepted PartialSubmission.enqueued) = (
    record p {
      diagnostics = record (p.diagnostics) {
        partials_enqueued = sat_add p.diagnostics.partials_enqueued 1;
      };
    },
    done tt,
  )
  count_partial p (accepted PartialSubmission.replaced) = (
    record p {
      diagnostics = record (p.diagnostics) {
        partials_replaced = sat_add p.diagnostics.partials_replaced 1;
      };
    },
    done tt,
  )
  count_partial p (accepted PartialSubmission.suppressed) = (
    record p {
      diagnostics = record (p.diagnostics) {
        partials_suppressed = sat_add p.diagnostics.partials_suppressed 1;
      };
    },
    done tt,
  )

module _ {S E : Type 0} (f : SampleTests S) where
  unfoldable pub queue_partial : Pipeline S E → ℕ → Snapshot S → Pipeline S E × Checked (Unit {0})
  unfolding count_partial
  queue_partial p job_id u =
      let out = SchedulerOps.submit_partial f p.scheduler job_id (snapshot_request u) in
      count_partial (record p { scheduler = out.0 }) out.1

  abbrev pub check_partial : Pipeline S E → Snapshot S → Checked (Unit {0})
  check_partial p u =
      if not (is_running p.state)
      then failed invalid_state
      else if (frontier p.frontiers u.source).is_sealed
      then failed source_sealed
      else if is_refused (validate f (snapshot_request u))
      then failed invalid_vad_output
      else done tt

  -- `submit_partial`
  unfoldable pub submit_snapshot : Pipeline S E → Snapshot S → Pipeline S E × Checked (Unit {0})
  unfolding partial_id queue_partial
  submit_snapshot p u = elim (check_partial p u) [
    | failed e ↦ (p, failed e)
    | done _ ↦
        let (p', claimed) = partial_id (count_snapshot p) u.source u.start_ms in
        elim claimed [ failed e ↦ (p', failed e) | done job_id ↦ queue_partial p' job_id u ]
  ]
