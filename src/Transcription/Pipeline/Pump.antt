-- ===== src/Transcription/Pipeline/Pump.antt =====
-- transcription/integration.rs: `pump_one`, which hands one job to the engine.
use Prim.Native.String.{String}
use kokoro_koe.Prelude.{
  Bool, true, false, not, ◌&&◌, ◌||◌, List, [], ◌∷◌, Option, none, some, ltb, leb, ◌==◌,
  if◌then◌else◌, any, is_empty, length, sat_add, is_some,
}
use kokoro_koe.Transcription.Request.{TranscriptionError, worker_cancelled, Result, ok, err}
use kokoro_koe.Transcription.Scheduler.{Job, TranscriptionGap}
use kokoro_koe.Transcription.Scheduler.Ops.{next_final_job, next_partial_job, next_final_start_ms}
use kokoro_koe.Audio.Vad.Ops.{same_source}
use kokoro_koe.Transcription.Pipeline.{
  PipelineState, pausing, paused, stopping, stopped, PipelineEvent, partial_text, final_text,
  gap_left, PipelineDiagnostics, Pipeline, Engine, TranscriptSegment, TranscriptionResult,
  error_code, invalid_result_gap_code, max_transcript_bytes, max_transcript_segments,
}
use kokoro_koe.Transcription.Pipeline.Frontier.{both_ready_ms, both_sealed}
use kokoro_koe.Transcription.Pipeline.Submit.{is_running}

abbrev pub job_gap : {S : Type 0} → Job S → String → TranscriptionGap
job_gap j code = record {
  job_id = j.job_id;
  source = j.source;
  start_ms = j.start_ms;
  end_ms = j.end_ms;
  code = code;
}

-- `windows(2)`: each segment ends before the next one starts.
abbrev pub in_sequence : List TranscriptSegment → Bool
in_sequence [] = true
in_sequence (a ∷ []) = true
in_sequence (a ∷ b ∷ s) = leb a.end_ms b.start_ms && in_sequence (b ∷ s)

abbrev pub segment_fits : {S : Type 0} → Job S → TranscriptSegment → Bool
segment_fits j s =
    leb j.start_ms s.start_ms
    && ltb s.start_ms s.end_ms
    && leb s.end_ms j.end_ms
    && leb (length s.text) max_transcript_bytes

unfoldable pub result_matches_job : {S : Type 0} → TranscriptionResult → Job S → Bool
result_matches_job r j =
    same_source r.source j.source
    && r.utterance_start_ms == j.start_ms
    && r.utterance_end_ms == j.end_ms
    && not (is_empty r.language)
    && leb (length r.language) 64
    && leb (length r.text) max_transcript_bytes
    && leb (length r.segments) max_transcript_segments
    && not (any (λ s. not (segment_fits j s)) r.segments)
    && in_sequence r.segments

abbrev pub settled_state : PipelineState → PipelineState
settled_state pausing = paused
settled_state stopping = stopped
settled_state s = s

abbrev pub count_final_result : PipelineDiagnostics → PipelineDiagnostics
count_final_result d = record d { final_results = sat_add d.final_results 1 }

abbrev pub count_inference_gap : PipelineDiagnostics → PipelineDiagnostics
count_inference_gap d = record d { inference_gaps = sat_add d.inference_gaps 1 }

abbrev pub count_cancellation_gap : PipelineDiagnostics → PipelineDiagnostics
count_cancellation_gap d = record d { cancellation_gaps = sat_add d.cancellation_gaps 1 }

abbrev pub is_cancellation : TranscriptionError → Bool
is_cancellation worker_cancelled = true
is_cancellation _ = false

abbrev pub count_error : TranscriptionError → PipelineDiagnostics → PipelineDiagnostics
count_error e d = if is_cancellation e then count_cancellation_gap d else count_inference_gap d

-- What becomes of a final job, by what the engine answers.
unfoldable pub judge_final :
    {S : Type 0}
    → Job S
    → PipelineDiagnostics
    → Result TranscriptionResult
    → PipelineDiagnostics × PipelineEvent
unfolding result_matches_job error_code
judge_final j d (ok r) =
    if result_matches_job r j
    then (count_final_result d, final_text j.job_id r)
    else (count_inference_gap d, gap_left (job_gap j invalid_result_gap_code))
judge_final j d (err e) = (count_error e d, gap_left (job_gap j (error_code e)))

unfoldable pub judge_partial :
    {S : Type 0}
    → Job S
    → PipelineDiagnostics
    → Result TranscriptionResult
    → PipelineDiagnostics × Option PipelineEvent
unfolding result_matches_job
judge_partial j d (ok r) =
    if result_matches_job r j
    then (
      record d { partial_results = sat_add d.partial_results 1 },
      some (partial_text j.job_id r),
    )
    else (record d { partial_failures = sat_add d.partial_failures 1 }, none)
judge_partial j d (err e) = (record d { partial_failures = sat_add d.partial_failures 1 }, none)

module _ {S E : Type 0} where
  -- `settle_boundary_if_empty`
  unfoldable pub settle_boundary : Pipeline S E → Pipeline S E
  settle_boundary p =
      if not (is_empty p.scheduler.finals) || not (both_sealed p.frontiers)
      then p
      else record p { state = settled_state p.state }

  unfoldable pub transcribe_final : Engine S E → Pipeline S E → Job S → Pipeline S E × PipelineEvent
  unfolding judge_final settle_boundary
  transcribe_final en p j =
      let answer = en.transcribe p.engine j.owned.request in
      let judged = judge_final j p.diagnostics answer.1 in
      (
        settle_boundary (record p {
          last_started_key = some (j.start_ms, j.end_ms, j.job_id);
          engine = answer.0;
          diagnostics = judged.0;
        }),
        judged.1,
      )

  unfoldable pub transcribe_partial :
      Engine S E → Pipeline S E → Job S → Pipeline S E × Option PipelineEvent
  unfolding judge_partial
  transcribe_partial en p j =
      let answer = en.transcribe p.engine j.owned.request in
      let judged = judge_partial j p.diagnostics answer.1 in
      (record p { engine = answer.0; diagnostics = judged.0 }, judged.1)

  -- A final job may start when both sources are past its start, or sealed.
  unfoldable pub final_ready : Pipeline S E → Bool
  unfolding both_ready_ms
  final_ready p = elim (next_final_start_ms p.scheduler) [
    | none ↦ false
    | some start_ms ↦ elim (both_ready_ms p.frontiers) [
      | none ↦ false
      | some ready_ms ↦ both_sealed p.frontiers || ltb start_ms ready_ms
    ]
  ]

  -- The branch of a final job that is ready. The source expects the job to be there; the other case
  -- does not arise.
  unfoldable pub pump_final : Engine S E → Pipeline S E → Pipeline S E × Option PipelineEvent
  unfolding transcribe_final
  pump_final en p =
      let (s, taken) = next_final_job p.scheduler in
      elim taken [
        | none ↦ (p, none)
        | some j ↦
            let (p', event) = transcribe_final en (record p { scheduler = s }) j in (p', some event)
      ]

  abbrev pub count_block : Pipeline S E → Pipeline S E
  count_block p =
      if is_some (next_final_start_ms p.scheduler)
      then record p {
        diagnostics = record (p.diagnostics) {
          watermark_blocks = sat_add p.diagnostics.watermark_blocks 1;
        };
      }
      else p

  unfoldable pub pump_partial : Engine S E → Pipeline S E → Pipeline S E × Option PipelineEvent
  unfolding transcribe_partial settle_boundary
  pump_partial en p =
      if is_running p.state
      then (let (s, taken) = next_partial_job p.scheduler in
          elim taken [
            | none ↦ (settle_boundary (record p { scheduler = s }), none)
            | some j ↦ transcribe_partial en (record p { scheduler = s }) j
          ])
      else (settle_boundary p, none)

  -- `pump_one`
  unfoldable pub pump_one : Engine S E → Pipeline S E → Pipeline S E × Option PipelineEvent
  unfolding final_ready pump_final pump_partial
  pump_one en p = if final_ready p then pump_final en p else pump_partial en (count_block p)
