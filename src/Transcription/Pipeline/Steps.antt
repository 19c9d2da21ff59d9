-- ===== src/Transcription/Pipeline/Steps.antt =====
-- transcription/integration.rs: the invariant and the state of the pipeline along its calls.
use kokoro_koe.Prelude.{
  ℕ, zero, suc, ◌≡◌, refl, ap, true, List, [], ◌∷◌, Option, none, some, is_empty, length, arith,
  Bool-cases, inl, inr,
}
use kokoro_koe.Transcription.Request.{AudioSource, SampleTests}
use kokoro_koe.Transcription.Scheduler.Ops.{
  next_final_job, next_partial_job, discard_partials, next_final_start_ms,
}
use kokoro_koe.Transcription.Scheduler.Ops as SchedulerOps
use kokoro_koe.Transcription.Scheduler.Cases.{List-cases, next_final_job_taken}
use kokoro_koe.Audio.Vad.{Utterance, Snapshot}
use kokoro_koe.Transcription.Scheduler.Invariant as SchedulerInvariant
use kokoro_koe.Transcription.Pipeline.{
  PipelineState, pausing, stopping, stopped, cancelled, Checked-cases, SourceFrontiers, Pipeline,
  Engine,
}
use kokoro_koe.Transcription.Pipeline.Frontier.{frontier, set_frontier, seal}
use kokoro_koe.Transcription.Pipeline.Submit.{is_running, submit_snapshot}
use kokoro_koe.Transcription.Pipeline.Ops.{
  is_paused, is_closing, discard_all_partials, begin_pause, resume, begin_stop, seal_source,
  cancel_finals, seal_both, cancel_pending, submit_processing_outcome, Call, submits_finals,
  submits_snapshot, submits_outcome, seals, pumps, pauses, resumes, stops, cancels, step, run,
}
use kokoro_koe.Transcription.Pipeline.Queue.{
  IsQuiet, one_if, length-next_final_job, next_final_job-IsQuiet,
}
use kokoro_koe.Transcription.Pipeline.Invariant.{
  IsEmptyAtRest, IsAccounted, Inv, Held, then-Held, submit_finalized_vad-Held,
}
use kokoro_koe.Transcription.Pipeline.Partials.{submit_snapshot-Held}
use kokoro_koe.Transcription.Pipeline.Moves.{
  starts_pausing, runs_again, starts_stopping, stops_at_rest, is_cancelled, all_quiet, from_running,
  at_pause,
}
use kokoro_koe.Transcription.Pipeline.Pumps.{
  Stepped, unmoved, held, settle_boundary-Stepped, pump_one-Stepped,
}

module _ {S E : Type 0} (f : SampleTests S) where
  discard-Inv :
      (p : Pipeline S E) (st : PipelineState)
      → SchedulerInvariant.Inv f p.scheduler
      → IsAccounted p.diagnostics (length p.scheduler.finals)
      → IsEmptyAtRest st (length p.scheduler.finals)
      → Inv f (discard_all_partials (record p { state = st }))
  unfolding discard_all_partials discard_partials SchedulerOps.step
  discard-Inv p st q a r = record {
    queue = SchedulerInvariant.step-Inv f p.scheduler SchedulerOps.discards q;
    rest = r;
    quiet = all_quiet st (discard_partials p.scheduler).0 refl;
    accounted = a;
  }

  begin_pause-Stepped : (p : Pipeline S E) → Inv f p → Stepped f p (begin_pause p).0
  unfolding begin_pause discard_all_partials
  begin_pause-Stepped p v = elim (Bool-cases (is_running p.state)) [
    | inr e ↦ rw (e, begin_pause) (unmoved f p v)
    | inl e ↦
        rw (e, begin_pause)
          (record {
            inv = discard-Inv p pausing v.queue v.accounted tt;
            move = from_running p.state starts_pausing e;
          })
  ]

  begin_stop-Stepped : (p : Pipeline S E) → Inv f p → Stepped f p (begin_stop p).0
  unfolding begin_stop discard_all_partials
  begin_stop-Stepped p v = elim (Bool-cases (is_paused p.state)) [
    | inl e ↦ rw (e, begin_stop) (at_rest e)
    | inr e ↦ elim (Bool-cases (is_running p.state)) [
      | inr k ↦ rw (e, k, begin_stop) (unmoved f p v)
      | inl k ↦
          rw (e, k, begin_stop)
            (record {
              inv = discard-Inv p stopping v.queue v.accounted tt;
              move = from_running p.state starts_stopping k;
            })
    ]
  ]
    where
      at_rest : is_paused p.state ≡ true → Stepped f p (record p { state = stopped })
      at_rest e =
          let r = at_pause p.state p.scheduler stops_at_rest e v.rest v.quiet in
          record {
            inv = record { queue = v.queue; rest = r.1; quiet = r.2; accounted = v.accounted };
            move = r.0;
          }

  resume-Stepped : (p : Pipeline S E) → Inv f p → Stepped f p (resume p).0
  unfolding resume
  resume-Stepped p v = elim (Bool-cases (is_paused p.state)) [
    | inr e ↦ rw (e, resume) (unmoved f p v)
    | inl e ↦
        let r = at_pause p.state p.scheduler runs_again e v.rest v.quiet in
        elim (Bool-cases (is_empty p.scheduler.finals)) [
          | inr k ↦ rw (e, k, resume) (unmoved f p v)
          | inl k ↦
              rw (e, k, resume)
                (record {
                  inv = record { queue = v.queue; rest = tt; quiet = tt; accounted = v.accounted };
                  move = r.0;
                })
        ]
  ]

  seal_source-Stepped :
      (p : Pipeline S E) (a : AudioSource) → Inv f p → Stepped f p (seal_source p a).0
  unfolding seal_source
  seal_source-Stepped p a v = elim (Bool-cases (is_closing p.state)) [
    | inr e ↦ rw (e, seal_source) (unmoved f p v)
    | inl e ↦ elim (Bool-cases ((frontier p.frontiers a).is_sealed)) [
      | inl k ↦ rw (e, k, seal_source) (unmoved f p v)
      | inr k ↦
          let settled =
            settle_boundary-Stepped f _
              (sealed (set_frontier p.frontiers a (seal (frontier p.frontiers a)))) in
          rw (e, k, seal_source) (record { inv = settled.inv; move = settled.move })
    ]
  ]
    where
      sealed : (s : SourceFrontiers) → Inv f (record p { frontiers = s })
      sealed s = record { queue = v.queue; rest = v.rest; quiet = v.quiet; accounted = v.accounted }

  -- The loop ends when no final job is left: each becomes a gap.
  cancel_finals-Stepped :
      (n : ℕ) (p : Pipeline S E)
      → length p.scheduler.finals ≡ n
      → p.state ≡ cancelled
      → SchedulerInvariant.Inv f p.scheduler
      → IsQuiet p.scheduler
      → IsAccounted p.diagnostics n
      → Inv f (cancel_finals n p).0 × ((cancel_finals n p).0.state ≡ cancelled)
  unfolding cancel_finals SchedulerOps.step
  cancel_finals-Stepped zero p l c q h a =
      (record { queue = q; rest = rw c l; quiet = rw c h; accounted = rw l a }, c)
  cancel_finals-Stepped (suc n) p l c q h a = elim (List-cases p.scheduler.finals) [
    | inl e ↦ absurd (omega (arith, l, ap length e))
    | inr (j, rest, g) ↦
        let e = next_final_job_taken p.scheduler j rest g in
        rw (e, cancel_finals)
          (cancel_finals-Stepped n _
            (omega (arith, l, length-next_final_job p.scheduler, ap one_if e)) c
            (SchedulerInvariant.step-Inv f p.scheduler SchedulerOps.takes_final q)
            (next_final_job-IsQuiet p.scheduler h) (λ cap. omega (arith, a cap)))
  ]

  cancel_pending-Stepped : (p : Pipeline S E) → Inv f p → Stepped f p (cancel_pending p).0
  unfolding cancel_pending discard_all_partials discard_partials SchedulerOps.step
  cancel_pending-Stepped p v =
      let c =
        cancel_finals-Stepped (length p.scheduler.finals) (discard_all_partials (seal_both p)) refl
          refl (SchedulerInvariant.step-Inv f p.scheduler SchedulerOps.discards v.queue) refl
          v.accounted in
      record { inv = c.0; move = rw c.1 (is_cancelled p.state) }

  outcome-Held :
      (p : Pipeline S E) (a : AudioSource) (o : Option (Snapshot S)) (us : List (Utterance S))
      (t : Option ℕ)
      → Inv f p
      → Held f p (submit_processing_outcome f p a o us t).0
  unfolding submit_processing_outcome
  outcome-Held p a none us t v = submit_finalized_vad-Held f p a us t v
  outcome-Held p a (some u) us t v =
      let g = submit_snapshot-Held f p u v in
      let q = (submit_snapshot f p u).0 in
      elim (Checked-cases ((submit_snapshot f p u).1)) [
        | inr (e, k) ↦ rw (k, submit_processing_outcome) g
        | inl (x, k) ↦
            rw (k, submit_processing_outcome)
              (then-Held f p q _ g (submit_finalized_vad-Held f q a us t g.inv))
      ]

  -- Every call keeps the invariant and changes the state by one allowed transition, if at all: the
  -- queue keeps its own invariant, a pipeline at rest or cancelled has no final job left, only a
  -- running one has partial jobs, and each final job that was enqueued has ended in a result or a
  -- gap, or is queued, while the count of them has not reached its end.
  pub pipeline-Stepped :
      (en : Engine S E) (p : Pipeline S E) (c : Call S) → Inv f p → Stepped f p (step f en p c)
  unfolding step
  pipeline-Stepped en p (submits_finals a us t) v =
      held f p _ (submit_finalized_vad-Held f p a us t v)
  pipeline-Stepped en p (submits_snapshot u) v = held f p _ (submit_snapshot-Held f p u v)
  pipeline-Stepped en p (submits_outcome a o us t) v = held f p _ (outcome-Held p a o us t v)
  pipeline-Stepped en p (seals a) v = seal_source-Stepped p a v
  pipeline-Stepped en p pumps v = pump_one-Stepped f en p v
  pipeline-Stepped en p pauses v = begin_pause-Stepped p v
  pipeline-Stepped en p resumes v = resume-Stepped p v
  pipeline-Stepped en p stops v = begin_stop-Stepped p v
  pipeline-Stepped en p cancels v = cancel_pending-Stepped p v

  pub pipeline_run-Inv :
      (en : Engine S E) (p : Pipeline S E) (cs : List (Call S)) → Inv f p → Inv f (run f en p cs)
  unfolding run
  pipeline_run-Inv en p [] v = v
  pipeline_run-Inv en p (c ∷ cs) v =
      pipeline_run-Inv en (step f en p c) cs (pipeline-Stepped en p c v).inv
