-- ===== src/Transcription/Pipeline/Queue.antt =====
-- transcription/scheduler.rs, as the pipeline uses it: its operations, the number of final jobs and
-- the lack of partial jobs.
use kokoro_koe.Prelude.{
  ℕ, suc, ◌+◌, ◌≡◌, refl, ap, ◌∙◌, Option, none, some, if_elim, any, length, is_some, arith, ◌==◌,
  Bool-cases, inl, inr, insert_at-position, length-insert_before,
}
use kokoro_koe.Transcription.Request.{SampleTests, TranscriptionRequest, validate}
use kokoro_koe.Transcription.Scheduler.{
  Scheduler, OwnedRequest, FinalSubmission, Submission, accepted, no_partials, key_lt,
  update_partial_mode, update_peaks, remove_id, slot, PartialSubmission,
}
use kokoro_koe.Transcription.Scheduler.Ops.{
  backlog_full, refuse_final, final_job, insert_final, place_final, submit_final, submit_partial,
  place_partial, pop_final, next_final_job, serve_partial, next_partial_job,
}
use kokoro_koe.Transcription.Scheduler.Cases.{
  Result-cases, owned, without_partial, submit_partial_cases, next_partial_job_cases,
  next_final_job_cases, next_final_job_empty, next_final_job_pops, next_final_job_taken, List-cases,
}
use kokoro_koe.Transcription.Scheduler.Order.{update_partial_mode_queue}

-- What a submission adds to the queue.
abbrev pub added : Submission FinalSubmission → ℕ
added (accepted FinalSubmission.enqueued) = 1
added _ = 0

-- The jobs that a taken job stands for.
abbrev pub one_if {ℓ} : {A : Type ℓ} → Option A → ℕ
one_if none = 0
one_if (some a) = 1

module _ {S : Type 0} where
  -- No partial job waits.
  abbrev pub IsQuiet : Scheduler S → Type 0
  IsQuiet s = s.partials ≡ no_partials

  pub update_partial_mode-IsQuiet : (s : Scheduler S) → IsQuiet s → IsQuiet (update_partial_mode s)
  unfolding update_partial_mode
  update_partial_mode-IsQuiet s h = ground (arith, h)

  length-insert_final :
      (s : Scheduler S) (q : OwnedRequest S)
      → length (insert_final s q).finals ≡ suc (length s.finals)
  unfolding insert_final
  length-insert_final s q =
      ap length (insert_at-position (key_lt (final_job s q)) (final_job s q) s.finals)
      ∙ length-insert_before (key_lt (final_job s q)) (final_job s q) s.finals

  length-place_final :
      (s : Scheduler S) (q : OwnedRequest S)
      → length (place_final s q).0.finals ≡ length s.finals + added (place_final s q).1
  unfolding place_final refuse_final update_peaks
  length-place_final s q = elim (Bool-cases (backlog_full s q)) [
    | inl e ↦ rw (e, place_final) (omega arith)
    | inr e ↦
        rw (e, place_final)
          (ap length (update_partial_mode_queue (insert_final s q)).0
            ∙ length-insert_final s q
            ∙ omega arith)
  ]

  place_final-IsQuiet :
      (s : Scheduler S) (q : OwnedRequest S) → IsQuiet s → IsQuiet (place_final s q).0
  unfolding place_final refuse_final update_peaks insert_final
  place_final-IsQuiet s q h = elim (Bool-cases (backlog_full s q)) [
    | inl e ↦ rw (e, place_final) h
    | inr e ↦ rw (e, place_final) (update_partial_mode-IsQuiet (insert_final s q) h)
  ]

  pub length-next_final_job :
      (s : Scheduler S)
      → length s.finals ≡ length (next_final_job s).0.finals + one_if (next_final_job s).1
  unfolding pop_final
  length-next_final_job s = elim (List-cases s.finals) [
    | inl e ↦ rw (next_final_job_empty s e) (omega arith)
    | inr (j, rest, e) ↦
        rw (next_final_job_taken s j rest e, next_final_job_pops s j rest e)
          (ap length e
            ∙ omega (arith, ap length (update_partial_mode_queue (pop_final s j rest)).0))
  ]

  pub next_final_job-IsQuiet : (s : Scheduler S) → IsQuiet s → IsQuiet (next_final_job s).0
  unfolding pop_final
  next_final_job-IsQuiet s h =
      next_final_job_cases IsQuiet s h
        (λ j rest e. update_partial_mode-IsQuiet (pop_final s j rest) h)

  pub length-next_partial_job :
      (s : Scheduler S) → length (next_partial_job s).0.finals ≡ length s.finals
  unfolding serve_partial
  length-next_partial_job s =
      next_partial_job_cases (λ t. length t.finals ≡ length s.finals) s refl (λ a. refl)

module _ {S : Type 0} (f : SampleTests S) (s : Scheduler S) (i : ℕ)
    (r : TranscriptionRequest S) where
  pub length-submit_final :
      length (submit_final f s i r).0.finals ≡ length s.finals + added (submit_final f s i r).1
  unfolding submit_final
  length-submit_final = elim (Result-cases (validate f r)) [
    | inr (e, h) ↦ rw (h, submit_final) (omega arith)
    | inl (q, h) ↦
        rw (h, submit_final)
          (elim (Bool-cases (any (λ j. j.job_id == i) s.finals)) [
            | inl used ↦ rw used (omega arith)
            | inr free ↦ rw free (length-place_final (without_partial s i) (owned i q))
          ])
  ]

  pub submit_final-IsQuiet : IsQuiet s → IsQuiet (submit_final f s i r).0
  unfolding submit_final remove_id
  submit_final-IsQuiet k = elim (Result-cases (validate f r)) [
    | inr (e, h) ↦ rw (h, submit_final) k
    | inl (q, h) ↦
        rw (h, submit_final)
          (elim (Bool-cases (any (λ j. j.job_id == i) s.finals)) [
            | inl used ↦ rw used k
            | inr free ↦ rw free (place_final-IsQuiet (without_partial s i) (owned i q) (rw k refl))
          ])
  ]

  pub length-submit_partial : length (submit_partial f s i r).0.finals ≡ length s.finals
  unfolding place_partial update_peaks
  length-submit_partial =
      submit_partial_cases f (λ t. length t.finals ≡ length s.finals) s i r refl (λ n. refl)
        (λ v free on.
          if_elim
            (λ (o : Scheduler S × Submission PartialSubmission).
              length o.0.finals ≡ length s.finals)
            (is_some (slot s.partials r.source)) (λ _. refl) (λ _. refl))
