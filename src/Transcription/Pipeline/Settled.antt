-- ===== src/Transcription/Pipeline/Settled.antt =====
-- transcription/integration.rs: a pipeline that has come to rest.
use kokoro_koe.Prelude.{ℕ, ◌+◌, ◌<◌, ◌≡◌, Bool, true, false, List, length, arith, u64_max}
use kokoro_koe.Transcription.Request.{SampleTests}
use kokoro_koe.Transcription.Scheduler.{Scheduler}
use kokoro_koe.Transcription.Pipeline.{
  PipelineState, running, pausing, paused, stopping, stopped, cancelled, Engine, new_pipeline,
}
use kokoro_koe.Transcription.Pipeline.Ops.{Call, run}
use kokoro_koe.Transcription.Pipeline.Queue.{IsQuiet}
use kokoro_koe.Transcription.Pipeline.Invariant.{
  IsEmptyAtRest, IsQuietUnlessRunning, new_pipeline-Inv,
}
use kokoro_koe.Transcription.Pipeline.Steps.{pipeline_run-Inv}

-- Paused, stopped or cancelled
abbrev pub is_at_rest : PipelineState → Bool
is_at_rest paused = true
is_at_rest stopped = true
is_at_rest cancelled = true
is_at_rest _ = false

none_at_rest : (st : PipelineState) (n : ℕ) → is_at_rest st ≡ true → IsEmptyAtRest st n → n ≡ 0
none_at_rest paused n r h = h
none_at_rest stopped n r h = h
none_at_rest cancelled n r h = h
none_at_rest running n r h = absurd (ground (arith, r))
none_at_rest pausing n r h = absurd (ground (arith, r))
none_at_rest stopping n r h = absurd (ground (arith, r))

quiet_at_rest :
    {S : Type 0} (st : PipelineState) (s : Scheduler S)
    → is_at_rest st ≡ true
    → IsQuietUnlessRunning st s
    → IsQuiet s
quiet_at_rest paused s r h = h
quiet_at_rest stopped s r h = h
quiet_at_rest cancelled s r h = h
quiet_at_rest pausing s r h = h
quiet_at_rest stopping s r h = h
quiet_at_rest running s r h = absurd (ground (arith, r))

-- A new pipeline that any calls have led to a pause, a stop or a cancellation, with any engine, has
-- settled: neither a final nor a partial job is queued, and the final jobs that were ever enqueued,
-- fewer than 2 ^ 64 - 1, are as many as the results and the gaps of inference and of cancellation.
pub run-Settled :
    {S E : Type 0} (f : SampleTests S) (en : Engine S E) (e : E) (cs : List (Call S))
    → is_at_rest (run f en (new_pipeline e) cs).state ≡ true
    → (run f en (new_pipeline e) cs).diagnostics.finals_enqueued < u64_max
    → let p = run f en (new_pipeline e) cs in
      (length p.scheduler.finals ≡ 0)
      × IsQuiet p.scheduler
      × (p.diagnostics.finals_enqueued
          ≡ p.diagnostics.final_results + p.diagnostics.inference_gaps
            + p.diagnostics.cancellation_gaps)
run-Settled f en e cs rest room =
    let p = run f en (new_pipeline e) cs in
    let v = pipeline_run-Inv f en (new_pipeline e) cs (new_pipeline-Inv f e) in
    let empty = none_at_rest p.state (length p.scheduler.finals) rest v.rest in
    (empty, quiet_at_rest p.state p.scheduler rest v.quiet, omega (arith, v.accounted room, empty))
