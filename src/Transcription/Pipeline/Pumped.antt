-- ===== src/Transcription/Pipeline/Pumped.antt =====
-- transcription/integration.rs: what one call of `pump_one` takes out, asks of the engine and reports.
use kokoro_koe.Prelude.{
  ℕ, ◌<◌, ◌≡◌, ◌⊎◌, inl, inr, refl, ap, ◌∙◌, true, false, ◌||◌, not, is_empty, if_elim, Option,
  none, some, List, [], ◌∷◌, ltb, is_some, arith, Bool-cases, Option-cases,
}
use kokoro_koe.Transcription.Request.{Result, ok, err}
use kokoro_koe.Transcription.Scheduler.{Scheduler, Job}
use kokoro_koe.Transcription.Scheduler.Cases.{
  List-cases, next_final_job_taken, next_final_job_pops, next_partial_job_cases,
}
use kokoro_koe.Transcription.Scheduler.Order.{update_partial_mode_queue}
use kokoro_koe.Transcription.Scheduler.Ops.{
  pop_final, next_final_job, next_partial_job, serve_partial, next_final_start_ms,
}
use kokoro_koe.Transcription.Pipeline.{
  PipelineEvent, partial_text, final_text, gap_left, PipelineDiagnostics, Pipeline, Engine,
  TranscriptionResult, error_code, invalid_result_gap_code,
}
use kokoro_koe.Transcription.Pipeline.Frontier.{both_ready_ms, both_sealed}
use kokoro_koe.Transcription.Pipeline.Submit.{is_running}
use kokoro_koe.Transcription.Pipeline.Pump.{
  job_gap, result_matches_job, judge_final, judge_partial, settle_boundary, transcribe_final,
  transcribe_partial, final_ready, pump_final, count_block, pump_partial, pump_one,
}

module _ {S : Type 0} where
  -- What is reported of a final job, by the answer of the engine.
  abbrev pub IsFinalReport : Job S → Result TranscriptionResult → PipelineEvent → Type 0
  IsFinalReport j (ok r) event =
      ((result_matches_job r j ≡ true) × (event ≡ final_text j.job_id r))
      ⊎ ((result_matches_job r j ≡ false) × (event ≡ gap_left (job_gap j invalid_result_gap_code)))
  IsFinalReport j (err e) event = event ≡ gap_left (job_gap j (error_code e))

  -- Of a partial job only a result that matches is reported.
  abbrev pub IsPartialReport : Job S → Result TranscriptionResult → Option PipelineEvent → Type 0
  IsPartialReport j (ok r) out =
      ((result_matches_job r j ≡ true) × (out ≡ some (partial_text j.job_id r)))
      ⊎ ((result_matches_job r j ≡ false) × (out ≡ none))
  IsPartialReport j (err e) out = out ≡ none

  judge_final-IsFinalReport :
      (j : Job S) (d : PipelineDiagnostics) (r : Result TranscriptionResult)
      → IsFinalReport j r (judge_final j d r).1
  unfolding judge_final
  judge_final-IsFinalReport j d (ok r) =
      if_elim (λ (o : PipelineDiagnostics × PipelineEvent). IsFinalReport j (ok r) o.1)
        (result_matches_job r j) (λ e. inl (e, refl)) (λ e. inr (e, refl))
  judge_final-IsFinalReport j d (err e) = refl

  judge_partial-IsPartialReport :
      (j : Job S) (d : PipelineDiagnostics) (r : Result TranscriptionResult)
      → IsPartialReport j r (judge_partial j d r).1
  unfolding judge_partial
  judge_partial-IsPartialReport j d (ok r) =
      if_elim (λ (o : PipelineDiagnostics × Option PipelineEvent). IsPartialReport j (ok r) o.1)
        (result_matches_job r j) (λ e. inl (e, refl)) (λ e. inr (e, refl))
  judge_partial-IsPartialReport j d (err e) = refl

  next_partial_job_finals : (s : Scheduler S) → (next_partial_job s).0.finals ≡ s.finals
  unfolding serve_partial
  next_partial_job_finals s = next_partial_job_cases (λ t. t.finals ≡ s.finals) s refl (λ a. refl)

module _ {S E : Type 0} where
  -- The sources let the job start: both are sealed, or both are past its start.
  abbrev pub MayStart : Pipeline S E → Job S → Type 0
  MayStart p j =
      (ready : ℕ) × (both_ready_ms p.frontiers ≡ some ready)
      × ((both_sealed p.frontiers ≡ true) ⊎ (j.start_ms < ready))

  -- The first final job may not start, or there is none.
  abbrev pub NoneMayStart : Pipeline S E → Type 0
  NoneMayStart p =
      (j : Job S) (rest : List (Job S)) → p.scheduler.finals ≡ j ∷ rest → ¬ MayStart p j

  module _ (p : Pipeline S E) (j : Job S) (rest : List (Job S))
      (e : p.scheduler.finals ≡ j ∷ rest) where
    final_ready_at :
        (ready : ℕ)
        → both_ready_ms p.frontiers ≡ some ready
        → final_ready p ≡ (both_sealed p.frontiers || ltb j.start_ms ready)
    unfolding next_final_start_ms final_ready
    final_ready_at ready k = rw (e, k, final_ready) refl

    not_ready_at : both_ready_ms p.frontiers ≡ none → final_ready p ≡ false
    unfolding next_final_start_ms final_ready
    not_ready_at k = rw (e, k, final_ready) refl

    final_ready-MayStart : final_ready p ≡ true → MayStart p j
    final_ready-MayStart h = elim (Option-cases (both_ready_ms p.frontiers)) [
      | inl k ↦ absurd (ground (arith, h, not_ready_at k))
      | inr (ready, k) ↦ (ready, k, ground (arith, h, final_ready_at ready k))
    ]

    not_ready-NoneMayStart : final_ready p ≡ false → ¬ MayStart p j
    not_ready-NoneMayStart h m = absurd (ground (arith, h, final_ready_at m.0 m.1, m.2))

  none_ready : (p : Pipeline S E) → p.scheduler.finals ≡ [] → final_ready p ≡ false
  unfolding next_final_start_ms final_ready
  none_ready p e = rw (e, final_ready) refl

  settle_boundary_kept :
      (p : Pipeline S E)
      → ((settle_boundary p).scheduler ≡ p.scheduler)
        × ((settle_boundary p).engine ≡ p.engine)
        × ((settle_boundary p).last_started_key ≡ p.last_started_key)
  unfolding settle_boundary
  settle_boundary_kept p =
      if_elim
        (λ (q : Pipeline S E).
          (q.scheduler ≡ p.scheduler)
          × (q.engine ≡ p.engine)
          × (q.last_started_key ≡ p.last_started_key))
        (not (is_empty p.scheduler.finals) || not (both_sealed p.frontiers))
        (λ _. (refl, refl, refl)) (λ _. (refl, refl, refl))

  count_block_kept :
      (p : Pipeline S E)
      → ((count_block p).scheduler ≡ p.scheduler)
        × ((count_block p).engine ≡ p.engine)
        × ((count_block p).state ≡ p.state)
  count_block_kept p =
      if_elim
        (λ (q : Pipeline S E).
          (q.scheduler ≡ p.scheduler) × (q.engine ≡ p.engine) × (q.state ≡ p.state))
        (is_some (next_final_start_ms p.scheduler)) (λ _. (refl, refl, refl))
        (λ _. (refl, refl, refl))

  -- What one call of `pump_one` does: it answers the first final job, or a partial job, or neither.
  pub data Pumped (en : Engine S E) (p t : Pipeline S E) (out : Option PipelineEvent) : Type 0 where
    answers_final :
        (j : Job S) (rest : List (Job S)) (event : PipelineEvent)
        → p.scheduler.finals ≡ j ∷ rest
        → MayStart p j
        → t.scheduler.finals ≡ rest
        → IsFinalReport j (en.transcribe p.engine j.owned.request).1 event
        → out ≡ some event
        → t.engine ≡ (en.transcribe p.engine j.owned.request).0
        → t.last_started_key ≡ some (j.start_ms, j.end_ms, j.job_id)
        → Pumped en p t out
    answers_partial :
        (j : Job S)
        → NoneMayStart p
        → is_running p.state ≡ true
        → (next_partial_job p.scheduler).1 ≡ some j
        → t.scheduler ≡ (next_partial_job p.scheduler).0
        → t.scheduler.finals ≡ p.scheduler.finals
        → IsPartialReport j (en.transcribe p.engine j.owned.request).1 out
        → t.engine ≡ (en.transcribe p.engine j.owned.request).0
        → t.last_started_key ≡ p.last_started_key
        → Pumped en p t out
    waits :
        NoneMayStart p
        → (is_running p.state ≡ false) ⊎ ((next_partial_job p.scheduler).1 ≡ none)
        → t.scheduler.finals ≡ p.scheduler.finals
        → out ≡ none
        → t.engine ≡ p.engine
        → t.last_started_key ≡ p.last_started_key
        → Pumped en p t out

  module _ (en : Engine S E) where
    pump_final-Pumped :
        (p : Pipeline S E) (j : Job S) (rest : List (Job S))
        → p.scheduler.finals ≡ j ∷ rest
        → final_ready p ≡ true
        → Pumped en p (pump_final en p).0 (pump_final en p).1
    unfolding transcribe_final pop_final pump_final
    pump_final-Pumped p j rest e h =
        let answer = en.transcribe p.engine j.owned.request in
        let kept = settle_boundary_kept (record p {
          scheduler = (next_final_job p.scheduler).0;
          last_started_key = some (j.start_ms, j.end_ms, j.job_id);
          engine = answer.0;
          diagnostics = (judge_final j p.diagnostics answer.1).0;
        }) in
        let popped : (next_final_job p.scheduler).0.finals ≡ rest =
          ap (λ s. s.finals) (next_final_job_pops p.scheduler j rest e)
          ∙ (update_partial_mode_queue (pop_final p.scheduler j rest)).0 in
        rw (next_final_job_taken p.scheduler j rest e, pump_final)
          (answers_final j rest (judge_final j p.diagnostics answer.1).1 e
            (final_ready-MayStart p j rest e h) (ap (λ s. s.finals) kept.0 ∙ popped)
            (judge_final-IsFinalReport j p.diagnostics answer.1) refl kept.1 kept.2)

    pump_partial-Pumped :
        (p : Pipeline S E)
        → NoneMayStart p
        → Pumped en p (pump_partial en p).0 (pump_partial en p).1
    unfolding transcribe_partial pump_partial
    pump_partial-Pumped p n = elim (Bool-cases (is_running p.state)) [
      | inr e ↦
          let kept = settle_boundary_kept p in
          rw (e, pump_partial) (waits n (inl e) (ap (λ s. s.finals) kept.0) refl kept.1 kept.2)
      | inl e ↦ elim (Option-cases ((next_partial_job p.scheduler).1)) [
        | inl k ↦
            let kept =
              settle_boundary_kept (record p { scheduler = (next_partial_job p.scheduler).0 }) in
            rw (e, k, pump_partial)
              (waits n (inr k) (ap (λ s. s.finals) kept.0 ∙ next_partial_job_finals p.scheduler)
                refl kept.1 kept.2)
        | inr (j, k) ↦
            rw (e, k, pump_partial)
              (answers_partial j n e k refl (next_partial_job_finals p.scheduler)
                (judge_partial-IsPartialReport j p.diagnostics
                  (en.transcribe p.engine j.owned.request).1)
                refl refl)
      ]
    ]

    -- A pipeline whose first final job, if there is one, may not start
    blocked-Pumped :
        (p : Pipeline S E)
        → NoneMayStart p
        → Pumped en p (pump_partial en (count_block p)).0 (pump_partial en (count_block p)).1
    blocked-Pumped p n =
        if_elim (λ (q : Pipeline S E). Pumped en p (pump_partial en q).0 (pump_partial en q).1)
          (is_some (next_final_start_ms p.scheduler)) (λ _. counted (pump_partial-Pumped _ n))
          (λ _. pump_partial-Pumped p n)
      where
        counted :
            {d : PipelineDiagnostics} {t : Pipeline S E} {out : Option PipelineEvent}
            → Pumped en (record p { diagnostics = d }) t out
            → Pumped en p t out
        counted (answers_final j rest event a b c e g h k) =
            answers_final j rest event a b c e g h k
        counted (answers_partial j a b c e g h k l) = answers_partial j a b c e g h k l
        counted (waits a b c e g h) = waits a b c e g h

    -- One call of `pump_one` does one of three things. If the sources let the first final job start,
    -- both sealed or both past its start, it takes just that job out of the queue, asks the engine,
    -- and reports that job: the result if it matches the job, and else a gap that names the job and
    -- why. If not, the final jobs stay queued; a running pipeline that has a partial job takes that
    -- out, asks the engine and reports the result if it matches, and nothing otherwise. With neither
    -- job it asks and reports nothing.
    pub pump_one-Pumped : (p : Pipeline S E) → Pumped en p (pump_one en p).0 (pump_one en p).1
    unfolding pump_one
    pump_one-Pumped p =
        if_elim (λ (o : Pipeline S E × Option PipelineEvent). Pumped en p o.0 o.1) (final_ready p)
          (λ h. elim (List-cases p.scheduler.finals) [
            | inl e ↦ absurd (ground (arith, h, none_ready p e))
            | inr (j, rest, e) ↦ pump_final-Pumped p j rest e h
          ])
          (λ h. blocked-Pumped p (λ j rest e. not_ready-NoneMayStart p j rest e h))
