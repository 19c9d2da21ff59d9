-- ===== src/Transcription/Pipeline/Invariant.antt =====
-- transcription/integration.rs: the invariant of a pipeline, and submissions of final jobs.
use kokoro_koe.Prelude.{
  ℕ, ◌+◌, ◌<◌, ◌≡◌, refl, ap, ◌∙◌, true, List, [], ◌∷◌, Option, if_elim, length, ltb, arith,
  u64_max, Bool-cases, Option-cases, inl, inr,
}
use kokoro_koe.Transcription.Request.{AudioSource, SampleTests}
use kokoro_koe.Transcription.Scheduler.{
  default, Scheduler, FinalSubmission, Submission, accepted, refused,
}
use kokoro_koe.Transcription.Scheduler.Ops.{submit_final, submit_partial}
use kokoro_koe.Transcription.Scheduler.Ops as SchedulerOps
use kokoro_koe.Transcription.Scheduler.Invariant as SchedulerInvariant
use kokoro_koe.Audio.Vad.{Utterance}
use kokoro_koe.Audio.Vad.Handoff.{request_of}
use kokoro_koe.Transcription.Pipeline.{
  PipelineState, running, pausing, paused, stopping, stopped, cancelled, Checked, done,
  Checked-cases, SourceFrontiers, PartialIdentities, PipelineDiagnostics, Pipeline, new_pipeline,
}
use kokoro_koe.Transcription.Pipeline.Frontier.{get_identity}
use kokoro_koe.Transcription.Pipeline.Submit.{
  is_running, takes_finals, take_job_id, continues, claim_id, count_received, count_submission,
  queue_final, submit_utterance, submit_utterances, check_batch, submit_finalized_vad,
}
use kokoro_koe.Transcription.Pipeline.Queue.{
  added, IsQuiet, length-submit_final, submit_final-IsQuiet,
}

-- A pipeline at rest has no final job left.
abbrev pub IsEmptyAtRest : PipelineState → ℕ → Type 0
IsEmptyAtRest paused n = n ≡ 0
IsEmptyAtRest stopped n = n ≡ 0
IsEmptyAtRest cancelled n = n ≡ 0
IsEmptyAtRest _ n = Unit

-- Only a running pipeline has partial jobs.
abbrev pub IsQuietUnlessRunning : {S : Type 0} → PipelineState → Scheduler S → Type 0
IsQuietUnlessRunning running s = Unit
IsQuietUnlessRunning _ s = IsQuiet s

-- Each final job that was enqueued has ended in a result or a gap, or is queued, while the count of
-- them has not reached its end.
abbrev pub IsAccounted : PipelineDiagnostics → ℕ → Type 0
IsAccounted d n =
    d.finals_enqueued < u64_max
    → d.finals_enqueued ≡ d.final_results + d.inference_gaps + d.cancellation_gaps + n

pub rest_open : (st : PipelineState) (n : ℕ) → takes_finals st ≡ true → IsEmptyAtRest st n
rest_open running n h = tt
rest_open pausing n h = tt
rest_open stopping n h = tt
rest_open paused n h = absurd (ground arith)
rest_open stopped n h = absurd (ground arith)
rest_open cancelled n h = absurd (ground arith)

pub quiet_map :
    {S : Type 0} (st : PipelineState) (s t : Scheduler S)
    → (IsQuiet s → IsQuiet t)
    → IsQuietUnlessRunning st s
    → IsQuietUnlessRunning st t
quiet_map running s t g h = tt
quiet_map pausing s t g h = g h
quiet_map stopping s t g h = g h
quiet_map paused s t g h = g h
quiet_map stopped s t g h = g h
quiet_map cancelled s t g h = g h

pub running_open : (st : PipelineState) → is_running st ≡ true → takes_finals st ≡ true
running_open running h = refl
running_open pausing h = refl
running_open stopping h = refl
running_open paused h = h
running_open stopped h = h
running_open cancelled h = h

pub running_quiet :
    {S : Type 0} (st : PipelineState) (s : Scheduler S)
    → is_running st ≡ true
    → IsQuietUnlessRunning st s
running_quiet running s h = tt
running_quiet pausing s h = absurd (ground arith)
running_quiet stopping s h = absurd (ground arith)
running_quiet paused s h = absurd (ground arith)
running_quiet stopped s h = absurd (ground arith)
running_quiet cancelled s h = absurd (ground arith)

module _ {S E : Type 0} (f : SampleTests S) where
  pub record Inv (p : Pipeline S E) : Type 0 where
    pub queue : SchedulerInvariant.Inv f p.scheduler
    pub rest : IsEmptyAtRest p.state (length p.scheduler.finals)
    pub quiet : IsQuietUnlessRunning p.state p.scheduler
    pub accounted : IsAccounted p.diagnostics (length p.scheduler.finals)

  pub new_pipeline-Inv : (e : E) → Inv (new_pipeline e)
  unfolding new_pipeline default
  new_pipeline-Inv e = record {
    queue = SchedulerInvariant.default-Inv f;
    rest = tt;
    quiet = tt;
    accounted = λ _. refl;
  }

  -- A submission keeps the invariant and the state.
  pub record Held (p next : Pipeline S E) : Type 0 where
    pub inv : Inv next
    pub state_kept : next.state ≡ p.state

  -- Ids are no part of the invariant.
  claim_id-Held : (p : Pipeline S E) (a : AudioSource) (t : ℕ) → Inv p → Held p (claim_id p a t).0
  unfolding claim_id take_job_id
  claim_id-Held p a t v = elim (Option-cases (continues (get_identity p.identities a) t)) [
    | inr (i, e) ↦ rw (e, claim_id) (record { inv = same v; state_kept = refl })
    | inl e ↦
        rw (e, claim_id)
          (if_elim (λ (o : Pipeline S E × Checked ℕ). Held p o.0) (ltb p.next_job_id u64_max)
            (λ _. record { inv = same v; state_kept = refl })
            (λ _. record { inv = v; state_kept = refl }))
  ]
    where
      same :
          {n : ℕ} {ids : PartialIdentities}
          → Inv p
          → Inv (record p { next_job_id = n; identities = ids })
      same v = record { queue = v.queue; rest = v.rest; quiet = v.quiet; accounted = v.accounted }

  count_submission-Held :
      (p : Pipeline S E) (s : Scheduler S) (o : Submission FinalSubmission)
      → Inv p
      → takes_finals p.state ≡ true
      → SchedulerInvariant.Inv f s
      → (IsQuiet p.scheduler → IsQuiet s)
      → length s.finals ≡ length p.scheduler.finals + added o
      → Held p (count_submission (record (count_received p) { scheduler = s }) o).0
  unfolding count_submission
  count_submission-Held p s (refused e) v h k q n = record {
    inv = record {
      queue = k;
      rest = rest_open p.state _ h;
      quiet = quiet_map p.state p.scheduler s q v.quiet;
      accounted = λ cap. omega (arith, v.accounted cap, n);
    };
    state_kept = refl;
  }
  count_submission-Held p s (accepted FinalSubmission.enqueued) v h k q n = record {
    inv = record {
      queue = k;
      rest = rest_open p.state _ h;
      quiet = quiet_map p.state p.scheduler s q v.quiet;
      accounted = λ cap. omega (arith, cap, v.accounted (omega (arith, cap)), n);
    };
    state_kept = refl;
  }
  count_submission-Held p s (accepted (FinalSubmission.gap g)) v h k q n = record {
    inv = record {
      queue = k;
      rest = rest_open p.state _ h;
      quiet = quiet_map p.state p.scheduler s q v.quiet;
      accounted = λ cap. omega (arith, v.accounted cap, n);
    };
    state_kept = refl;
  }

  queue_final-Held :
      (p : Pipeline S E) (i : ℕ) (u : Utterance S)
      → Inv p
      → takes_finals p.state ≡ true
      → Held p (queue_final f p i u).0
  unfolding queue_final SchedulerOps.step
  queue_final-Held p i u v h =
      count_submission-Held p _ (submit_final f p.scheduler i (request_of u)).1 v h
        (SchedulerInvariant.step-Inv f p.scheduler (SchedulerOps.submits_final i (request_of u))
          v.queue)
        (submit_final-IsQuiet f p.scheduler i (request_of u))
        (length-submit_final f p.scheduler i (request_of u))

  -- The state stays, and so does what the state allows.
  pub then-Held : (p q r : Pipeline S E) → Held p q → Held q r → Held p r
  then-Held p q r g h = record { inv = h.inv; state_kept = h.state_kept ∙ g.state_kept }

  submit_utterance-Held :
      (p : Pipeline S E) (a : AudioSource) (u : Utterance S)
      → Inv p
      → takes_finals p.state ≡ true
      → Held p (submit_utterance f p a u).0
  unfolding submit_utterance
  submit_utterance-Held p a u v h =
      let g = claim_id-Held p a u.start_ms v in
      let q = (claim_id p a u.start_ms).0 in
      elim (Checked-cases ((claim_id p a u.start_ms).1)) [
        | inr (e, k) ↦ rw (k, submit_utterance) g
        | inl (i, k) ↦
            rw (k, submit_utterance)
              (then-Held p q _ g (queue_final-Held q i u g.inv (ap takes_finals g.state_kept ∙ h)))
      ]

  submit_utterances-Held :
      (p : Pipeline S E) (a : AudioSource) (us : List (Utterance S))
      → Inv p
      → takes_finals p.state ≡ true
      → Held p (submit_utterances f p a us).0
  unfolding submit_utterances
  submit_utterances-Held p a [] v h = record { inv = v; state_kept = refl }
  submit_utterances-Held p a (u ∷ us) v h =
      let g = submit_utterance-Held p a u v h in
      let q = (submit_utterance f p a u).0 in
      let rest = submit_utterances-Held q a us g.inv (ap takes_finals g.state_kept ∙ h) in
      elim (Checked-cases ((submit_utterance f p a u).1)) [
        | inr (e, k) ↦ rw (k, submit_utterances) g
        | inl (events, k) ↦ elim (Checked-cases ((submit_utterances f q a us).1)) [
          | inr (e, l) ↦ rw (k, l, submit_utterances) (then-Held p q _ g rest)
          | inl (more, l) ↦ rw (k, l, submit_utterances) (then-Held p q _ g rest)
        ]
      ]

  checked_state :
      (p : Pipeline S E) (a : AudioSource) (us : List (Utterance S)) (t : Option ℕ)
      → check_batch f p a us t ≡ done tt
      → takes_finals p.state ≡ true
  unfolding check_batch
  checked_state p a us t h = elim (Bool-cases (takes_finals p.state)) [
    | inl e ↦ e
    | inr e ↦ absurd (ground arith)
  ]

  moved_frontier :
      (p : Pipeline S E) {s : SourceFrontiers} → Inv p → Inv (record p { frontiers = s })
  moved_frontier p v = record {
    queue = v.queue;
    rest = v.rest;
    quiet = v.quiet;
    accounted = v.accounted;
  }

  pub submit_finalized_vad-Held :
      (p : Pipeline S E) (a : AudioSource) (us : List (Utterance S)) (t : Option ℕ)
      → Inv p
      → Held p (submit_finalized_vad f p a us t).0
  unfolding submit_finalized_vad
  submit_finalized_vad-Held p a us t v = elim (Checked-cases (check_batch f p a us t)) [
    | inr (e, k) ↦ rw (k, submit_finalized_vad) (record { inv = v; state_kept = refl })
    | inl (u, k) ↦
        let g = submit_utterances-Held p a us v (checked_state p a us t k) in
        elim (Checked-cases ((submit_utterances f p a us).1)) [
          | inr (e, l) ↦ rw (k, l, submit_finalized_vad) g
          | inl (events, l) ↦
              rw (k, l, submit_finalized_vad)
                (record { inv = moved_frontier _ g.inv; state_kept = g.state_kept })
        ]
  ]
