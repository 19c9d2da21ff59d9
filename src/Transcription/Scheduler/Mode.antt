-- ===== src/Transcription/Scheduler/Mode.antt =====
-- transcription/scheduler.rs: the switch for partial jobs and the length of the backlog.
use kokoro_koe.Prelude.{ℕ, ◌≤◌, ◌<◌, ◌≡◌, true, false, none, arith, if_elim}
use kokoro_koe.Transcription.Request.{AudioSource, microphone, system_output, SampleTests}
use kokoro_koe.Transcription.Scheduler.{
  OwnedRequest, Scheduler, Submission, FinalSubmission, default, remove_id, update_partial_mode,
  update_peaks, partial_disable_speech_ms, partial_restore_speech_ms,
}
use kokoro_koe.Transcription.Scheduler.Cases.{
  owned, without_partial, submit_final_cases, submit_partial_cases, next_final_job_cases,
  next_partial_job_cases, next_job_cases,
}
use kokoro_koe.Transcription.Scheduler.Ops.{
  backlog_full, refuse_final, insert_final, place_final, place_partial, pop_final, serve_partial,
  submits_final, submits_partial, takes, takes_final, takes_partial, discards, next_final_job,
  discard_partials, Call, step,
}

module _ {S : Type 0} where
  abbrev pub NoPartials : Scheduler S → Type 0
  NoPartials s = (s.partials.microphone_slot ≡ none) × (s.partials.system_output_slot ≡ none)

  -- Partial jobs are on only below the upper limit of the backlog, off only from the lower limit
  -- on, and none waits while they are off.
  pub record Mode (s : Scheduler S) : Type 0 where
    pub on : s.partials_enabled ≡ true → s.queued_final_speech_ms < partial_disable_speech_ms
    pub off : s.partials_enabled ≡ false → partial_restore_speech_ms ≤ s.queued_final_speech_ms
    pub emptied : s.partials_enabled ≡ false → NoPartials s

  update_partial_mode-Mode :
      (s : Scheduler S) → (s.partials_enabled ≡ false → NoPartials s) → Mode (update_partial_mode s)
  unfolding update_partial_mode
  update_partial_mode-Mode s h = ground arith

  without_partial-Mode : (s : Scheduler S) (i : ℕ) → Mode s → Mode (without_partial s i)
  unfolding remove_id
  without_partial-Mode s i v = ground arith

  place_final-Mode : (s : Scheduler S) (q : OwnedRequest S) → Mode s → Mode (place_final s q).0
  unfolding place_final refuse_final update_peaks insert_final
  place_final-Mode s q v =
      let next = update_partial_mode-Mode (insert_final s q) v.emptied in
      if_elim (λ (o : Scheduler S × Submission FinalSubmission). Mode o.0) (backlog_full s q)
        (λ _. record { on = v.on; off = v.off; emptied = v.emptied })
        (λ _. record { on = next.on; off = next.off; emptied = next.emptied })

  next_final_job-Mode : (s : Scheduler S) → Mode s → Mode (next_final_job s).0
  unfolding pop_final
  next_final_job-Mode s v =
      next_final_job_cases Mode s v
        λ j rest _. update_partial_mode-Mode (pop_final s j rest) v.emptied

  serve_partial-Mode : (s : Scheduler S) → Mode s → (a : AudioSource) → Mode (serve_partial s a)
  unfolding serve_partial
  serve_partial-Mode s v microphone = ground arith
  serve_partial-Mode s v system_output = ground arith

  place_partial-Mode :
      (s : Scheduler S) (q : OwnedRequest S)
      → s.partials_enabled ≡ true
      → Mode s
      → Mode (place_partial s q).0
  unfolding place_partial update_peaks
  place_partial-Mode s q e v = ground arith

module _ {S : Type 0} (f : SampleTests S) where
  pub step-Mode : (s : Scheduler S) (c : Call S) → Mode s → Mode (step f s c)
  unfolding step discard_partials
  step-Mode s (submits_final i r) v =
      submit_final_cases f Mode s i r v
        λ _ _. place_final-Mode (without_partial s i) (owned i r) (without_partial-Mode s i v)
  step-Mode s (submits_partial i r) v =
      submit_partial_cases f Mode s i r v
        (λ d. record { on = v.on; off = v.off; emptied = v.emptied })
        λ _ _ on. place_partial-Mode s (owned i r) on v
  step-Mode s takes v =
      next_job_cases Mode s (next_final_job-Mode s v)
        λ _. next_partial_job_cases Mode s v (serve_partial-Mode s v)
  step-Mode s takes_final v = next_final_job-Mode s v
  step-Mode s takes_partial v = next_partial_job_cases Mode s v (serve_partial-Mode s v)
  step-Mode s discards v = ground arith

pub default-Mode : {S : Type 0} → Mode {S = S} default
unfolding default
default-Mode = ground arith
