-- ===== src/Transcription/Pipeline/Cancel.antt =====
-- transcription/integration.rs: what `cancel_pending` reports.
use kokoro_koe.Prelude.{◌≡◌, refl, ap, ◌∙◌, List, [], ◌∷◌, map, length}
use kokoro_koe.Transcription.Scheduler.{Job}
use kokoro_koe.Transcription.Scheduler.Cases.{next_final_job_taken, next_final_job_pops}
use kokoro_koe.Transcription.Scheduler.Order.{update_partial_mode_queue}
use kokoro_koe.Transcription.Scheduler.Ops.{pop_final, discard_partials}
use kokoro_koe.Transcription.Pipeline.{PipelineEvent, gap_left, Pipeline, cancelled_gap_code}
use kokoro_koe.Transcription.Pipeline.Pump.{job_gap}
use kokoro_koe.Transcription.Pipeline.Ops.{cancel_finals, cancel_pending, discard_all_partials}

-- The event of a final job that is cancelled.
abbrev pub cancelled_event : {S : Type 0} → Job S → PipelineEvent
cancelled_event j = gap_left (job_gap j cancelled_gap_code)

module _ {S E : Type 0} where
  cancel_finals_events :
      (js : List (Job S)) (p : Pipeline S E)
      → p.scheduler.finals ≡ js
      → ((cancel_finals (length js) p).1 ≡ map cancelled_event js)
        × ((cancel_finals (length js) p).0.scheduler.finals ≡ [])
  unfolding cancel_finals pop_final
  cancel_finals_events [] p h = (refl, h)
  cancel_finals_events (j ∷ js) p h =
      let rest = cancel_finals_events js _ (
        ap (λ s. s.finals) (next_final_job_pops p.scheduler j js h)
        ∙ (update_partial_mode_queue (pop_final p.scheduler j js)).0) in
      rw (next_final_job_taken p.scheduler j js h, cancel_finals)
        (ap (◌∷◌ (cancelled_event j)) rest.0, rest.1)

  -- Cancelling reports one gap for each final job that is queued, in the order of the queue, and
  -- leaves none queued.
  pub cancel_pending-events :
      (p : Pipeline S E)
      → ((cancel_pending p).1 ≡ map cancelled_event p.scheduler.finals)
        × ((cancel_pending p).0.scheduler.finals ≡ [])
  unfolding cancel_pending discard_all_partials discard_partials
  cancel_pending-events p = cancel_finals_events p.scheduler.finals _ refl
