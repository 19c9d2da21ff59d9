-- ===== src/Transcription/Pipeline/Pumps.antt =====
-- transcription/integration.rs: `pump_one` and the invariant of the pipeline.
use mathlib.Core.Path.{subst}
use kokoro_koe.Prelude.{
  ℕ, ◌+◌, ◌≡◌, refl, ap, ◌∙◌, true, Option, if_elim, is_empty, length, arith, Bool-cases,
  Option-cases, inl, inr, is_some,
}
use kokoro_koe.Transcription.Request.{SampleTests, Result, ok, err}
use kokoro_koe.Transcription.Scheduler.{Scheduler, Job}
use kokoro_koe.Transcription.Scheduler.Ops.{
  next_final_job, next_partial_job, discard_partials, next_final_start_ms,
}
use kokoro_koe.Transcription.Scheduler.Ops as SchedulerOps
use kokoro_koe.Transcription.Scheduler.Invariant as SchedulerInvariant
use kokoro_koe.Transcription.Pipeline.{
  PipelineEvent, PipelineDiagnostics, Pipeline, Engine, TranscriptionResult,
}
use kokoro_koe.Transcription.Pipeline.Frontier.{both_sealed}
use kokoro_koe.Transcription.Pipeline.Submit.{is_running}
use kokoro_koe.Transcription.Pipeline.Pump.{
  settle_boundary, result_matches_job, judge_final, transcribe_final, judge_partial,
  transcribe_partial, final_ready, pump_final, count_block, pump_partial, pump_one,
}
use kokoro_koe.Transcription.Pipeline.Queue.{
  IsQuiet, one_if, length-next_final_job, next_final_job-IsQuiet, length-next_partial_job,
}
use kokoro_koe.Transcription.Pipeline.Invariant.{
  IsAccounted, Inv, Held, quiet_map, running_quiet, rest_open, running_open,
}
use kokoro_koe.Transcription.Pipeline.Moves.{
  Move, stays, settled_Move, settled_rest, settled_quiet, rest_fewer, judge_final-counts,
}

module _ {S E : Type 0} (f : SampleTests S) where
  -- What a call leaves: the invariant, and a state that it may move to.
  pub record Stepped (p next : Pipeline S E) : Type 0 where
    pub inv : Inv f next
    pub move : Move p.state next.state

  pub unmoved : (p : Pipeline S E) → Inv f p → Stepped p p
  unmoved p v = record { inv = v; move = stays p.state }

  pub held : (p q : Pipeline S E) → Held f p q → Stepped p q
  held p q h = record { inv = h.inv; move = rw h.state_kept (stays p.state) }

  pub settle_boundary-Stepped : (p : Pipeline S E) → Inv f p → Stepped p (settle_boundary p)
  unfolding settle_boundary
  settle_boundary-Stepped p v = elim (Bool-cases (is_empty p.scheduler.finals)) [
    | inr e ↦ rw (e, settle_boundary) (unmoved p v)
    | inl e ↦ elim (Bool-cases (both_sealed p.frontiers)) [
      | inr k ↦ rw (e, k, settle_boundary) (unmoved p v)
      | inl k ↦
          rw (e, k, settle_boundary)
            (record {
              inv = record {
                queue = v.queue;
                rest = settled_rest p.state _ (ground arith);
                quiet = settled_quiet p.state p.scheduler v.quiet;
                accounted = v.accounted;
              };
              move = settled_Move p.state;
            })
    ]
  ]

  module _ (en : Engine S E) where
    taken-Inv :
        (p : Pipeline S E) (j : Job S) (s : Scheduler S) {e : E} {k : Option (ℕ × ℕ × ℕ)}
        (r : Result TranscriptionResult)
        → Inv f p
        → SchedulerInvariant.Inv f s
        → (IsQuiet p.scheduler → IsQuiet s)
        → length p.scheduler.finals ≡ length s.finals + 1
        → Inv f (record p {
          scheduler = s;
          last_started_key = k;
          engine = e;
          diagnostics = (judge_final j p.diagnostics r).0;
        })
    taken-Inv p j s r v q h n = record {
      queue = q;
      rest = rest_fewer p.state _ _ n v.rest;
      quiet = quiet_map p.state p.scheduler s h v.quiet;
      accounted =
          judge_final-counts j p.diagnostics r (length s.finals)
            (λ cap. omega (arith, v.accounted cap, n));
    }

    pump_final-Stepped : (p : Pipeline S E) → Inv f p → Stepped p (pump_final en p).0
    unfolding pump_final transcribe_final SchedulerOps.step
    pump_final-Stepped p v = elim (Option-cases ((next_final_job p.scheduler).1)) [
      | inl e ↦ rw (e, pump_final) (unmoved p v)
      | inr (j, e) ↦
          let s = (next_final_job p.scheduler).0 in
          let settled = settle_boundary-Stepped _ (
            taken-Inv p j s (en.transcribe p.engine j.owned.request).1 v
              (SchedulerInvariant.step-Inv f p.scheduler SchedulerOps.takes_final v.queue)
              (next_final_job-IsQuiet p.scheduler)
              (length-next_final_job p.scheduler ∙ ap (λ o. length s.finals + one_if o) e)) in
          rw (e, pump_final) (record { inv = settled.inv; move = settled.move })
    ]

    partial_taken :
        (p : Pipeline S E) {e : E} {d : PipelineDiagnostics}
        → is_running p.state ≡ true
        → Inv f p
        → IsAccounted d (length p.scheduler.finals)
        → Inv f
            (record p { scheduler = (next_partial_job p.scheduler).0; engine = e; diagnostics = d })
    unfolding SchedulerOps.step
    partial_taken p h v a = record {
      queue = SchedulerInvariant.step-Inv f p.scheduler SchedulerOps.takes_partial v.queue;
      rest = rest_open p.state _ (running_open p.state h);
      quiet = running_quiet p.state _ h;
      accounted = λ cap. omega (arith, a cap, length-next_partial_job p.scheduler);
    }

    transcribe_partial-Stepped :
        (p : Pipeline S E) (j : Job S)
        → is_running p.state ≡ true
        → Inv f p
        → Stepped p
            (transcribe_partial en (record p { scheduler = (next_partial_job p.scheduler).0 }) j).0
    unfolding transcribe_partial judge_partial
    transcribe_partial-Stepped p j h v = record {
      inv = partial_taken p h v (judged ((en.transcribe p.engine j.owned.request).1));
      move = stays p.state;
    }
      where
        judged :
            (r : Result TranscriptionResult)
            → IsAccounted (judge_partial j p.diagnostics r).0 (length p.scheduler.finals)
        judged (err e) = v.accounted
        judged (ok r) =
            if_elim
              (λ (o : PipelineDiagnostics × Option PipelineEvent).
                IsAccounted o.0 (length p.scheduler.finals))
              (result_matches_job r j) (λ _. v.accounted) (λ _. v.accounted)

    pump_partial-Stepped : (p : Pipeline S E) → Inv f p → Stepped p (pump_partial en p).0
    unfolding pump_partial
    pump_partial-Stepped p v = elim (Bool-cases (is_running p.state)) [
      | inr e ↦ rw (e, pump_partial) (settle_boundary-Stepped p v)
      | inl e ↦ elim (Option-cases ((next_partial_job p.scheduler).1)) [
        | inl k ↦
            let settled = settle_boundary-Stepped _ (partial_taken p e v v.accounted) in
            rw (e, k, pump_partial) (record { inv = settled.inv; move = settled.move })
        | inr (j, k) ↦ rw (e, k, pump_partial) (transcribe_partial-Stepped p j e v)
      ]
    ]

    count_block-Held : (p : Pipeline S E) → Inv f p → Held f p (count_block p)
    count_block-Held p v =
        if_elim (Held f p) (is_some (next_final_start_ms p.scheduler))
          (λ _. record {
            inv = record {
              queue = v.queue;
              rest = v.rest;
              quiet = v.quiet;
              accounted = v.accounted;
            };
            state_kept = refl;
          })
          (λ _. record { inv = v; state_kept = refl })

    pub pump_one-Stepped : (p : Pipeline S E) → Inv f p → Stepped p (pump_one en p).0
    unfolding pump_one
    pump_one-Stepped p v =
        let h = count_block-Held p v in
        let blocked = pump_partial-Stepped (count_block p) h.inv in
        if_elim (λ (o : Pipeline S E × Option PipelineEvent). Stepped p o.0) (final_ready p)
          (λ _. pump_final-Stepped p v)
          (λ _. record {
            inv = blocked.inv;
            move =
                subst (λ s. Move s (pump_partial en (count_block p)).0.state) h.state_kept
                  blocked.move;
          })
