-- ===== src/Transcription/Pipeline/Moves.antt =====
-- transcription/integration.rs: the transitions between the states of a pipeline, and what of its
-- invariant depends on the state alone.
use kokoro_koe.Prelude.{ℕ, suc, ◌+◌, ◌≡◌, true, if_elim, length, arith}
use kokoro_koe.Transcription.Request.{Result, ok, err}
use kokoro_koe.Transcription.Scheduler.{Scheduler, Job}
use kokoro_koe.Transcription.Pipeline.{
  PipelineState, running, pausing, paused, stopping, stopped, cancelled, PipelineEvent,
  PipelineDiagnostics, TranscriptionResult,
}
use kokoro_koe.Transcription.Pipeline.Submit.{is_running}
use kokoro_koe.Transcription.Pipeline.Pump.{
  is_cancellation, settled_state, result_matches_job, judge_final,
}
use kokoro_koe.Transcription.Pipeline.Ops.{is_paused}
use kokoro_koe.Transcription.Pipeline.Queue.{IsQuiet}
use kokoro_koe.Transcription.Pipeline.Invariant.{IsEmptyAtRest, IsQuietUnlessRunning, IsAccounted}

-- How one call may change the state.
pub data Move : PipelineState → PipelineState → Type 0 where
  stays : (s : PipelineState) → Move s s
  starts_pausing : Move running pausing
  is_now_paused : Move pausing paused
  runs_again : Move paused running
  starts_stopping : Move running stopping
  is_now_stopped : Move stopping stopped
  stops_at_rest : Move paused stopped
  is_cancelled : (s : PipelineState) → Move s cancelled

pub settled_Move : (s : PipelineState) → Move s (settled_state s)
settled_Move running = stays running
settled_Move pausing = is_now_paused
settled_Move paused = stays paused
settled_Move stopping = is_now_stopped
settled_Move stopped = stays stopped
settled_Move cancelled = stays cancelled

pub settled_rest : (s : PipelineState) (n : ℕ) → n ≡ 0 → IsEmptyAtRest (settled_state s) n
settled_rest running n h = tt
settled_rest pausing n h = h
settled_rest paused n h = h
settled_rest stopping n h = h
settled_rest stopped n h = h
settled_rest cancelled n h = h

pub settled_quiet :
    {S : Type 0} (st : PipelineState) (s : Scheduler S)
    → IsQuietUnlessRunning st s
    → IsQuietUnlessRunning (settled_state st) s
settled_quiet running s h = h
settled_quiet pausing s h = h
settled_quiet paused s h = h
settled_quiet stopping s h = h
settled_quiet stopped s h = h
settled_quiet cancelled s h = h

pub all_quiet :
    {S : Type 0} (st : PipelineState) (s : Scheduler S) → IsQuiet s → IsQuietUnlessRunning st s
all_quiet running s h = tt
all_quiet pausing s h = h
all_quiet paused s h = h
all_quiet stopping s h = h
all_quiet stopped s h = h
all_quiet cancelled s h = h

-- A pipeline at rest has no job to take.
pub rest_fewer :
    (st : PipelineState) (n m : ℕ) → n ≡ m + 1 → IsEmptyAtRest st n → IsEmptyAtRest st m
rest_fewer running n m e h = tt
rest_fewer pausing n m e h = tt
rest_fewer paused n m e h = omega (arith, e, h)
rest_fewer stopping n m e h = tt
rest_fewer stopped n m e h = omega (arith, e, h)
rest_fewer cancelled n m e h = omega (arith, e, h)

-- Judging a job counts it once.
pub judge_final-counts :
    {S : Type 0} (j : Job S) (d : PipelineDiagnostics) (r : Result TranscriptionResult) (n : ℕ)
    → IsAccounted d (suc n)
    → IsAccounted (judge_final j d r).0 n
unfolding judge_final
judge_final-counts j d (ok r) n h =
    if_elim (λ (o : PipelineDiagnostics × PipelineEvent). IsAccounted o.0 n)
      (result_matches_job r j) (λ _ cap. omega (arith, h cap)) (λ _ cap. omega (arith, h cap))
judge_final-counts j d (err e) n h =
    if_elim (λ (o : PipelineDiagnostics). IsAccounted o n) (is_cancellation e)
      (λ _ cap. omega (arith, h cap)) (λ _ cap. omega (arith, h cap))

pub from_running :
    (st : PipelineState) {t : PipelineState} → Move running t → is_running st ≡ true → Move st t
from_running running m h = m
from_running pausing m h = absurd (ground arith)
from_running paused m h = absurd (ground arith)
from_running stopping m h = absurd (ground arith)
from_running stopped m h = absurd (ground arith)
from_running cancelled m h = absurd (ground arith)

-- At rest after a pause there is neither a final job nor a partial one.
pub at_pause :
    {S : Type 0} (st : PipelineState) {t : PipelineState} (s : Scheduler S)
    → Move paused t
    → is_paused st ≡ true
    → IsEmptyAtRest st (length s.finals)
    → IsQuietUnlessRunning st s
    → Move st t × (length s.finals ≡ 0) × IsQuiet s
at_pause paused s m h r q = (m, r, q)
at_pause running s m h r q = absurd (ground arith)
at_pause pausing s m h r q = absurd (ground arith)
at_pause stopping s m h r q = absurd (ground arith)
at_pause stopped s m h r q = absurd (ground arith)
at_pause cancelled s m h r q = absurd (ground arith)
