-- ===== src/Transcription/Scheduler/Accounts.antt =====
-- transcription/scheduler.rs: what the scheduler keeps count of, and the limits of its queue.
use kokoro_koe.Prelude.{
  ℕ, ◌+◌, ◌≤◌, ◌<◌, u64_max, ◌≡◌, false, arith, length, sum_by, insert_at-position,
  sum_by-insert_before, length-insert_before,
}
use kokoro_koe.Transcription.Request.{AudioSource, SampleTests}
use kokoro_koe.Transcription.Scheduler.{
  OwnedRequest, Scheduler, default, key_lt, update_partial_mode, update_peaks, duration_ms,
  sample_count, max_queued_final_jobs, max_queued_final_speech_ms, max_queued_final_samples,
}
use kokoro_koe.Transcription.Scheduler.Cases.{
  owned, without_partial, submit_final_cases, submit_partial_cases, next_partial_job_cases,
  next_job_cases,
}
use kokoro_koe.Transcription.Scheduler.Ops.{
  serve_partial, submits_final, submits_partial, takes, takes_final, takes_partial, discards,
  backlog_full, refuse_final, final_job, insert_final, place_final, place_partial, next_final_job,
  discard_partials, Call, step,
}

module _ {S : Type 0} where
  -- The running totals are those of the queue, and within the limits; while the count of queued
  -- jobs has not reached its end, the jobs queued are those handed out and those that wait.
  pub record Accounts (s : Scheduler S) : Type 0 where
    pub speech : s.queued_final_speech_ms ≡ sum_by duration_ms s.finals
    pub samples : s.queued_final_samples ≡ sum_by sample_count s.finals
    pub speech_cap : s.queued_final_speech_ms ≤ max_queued_final_speech_ms
    pub samples_cap : s.queued_final_samples ≤ max_queued_final_samples
    pub jobs_cap : length s.finals ≤ max_queued_final_jobs
    pub balance :
        s.diagnostics.finals_enqueued < u64_max
        → s.diagnostics.finals_enqueued ≡ s.diagnostics.finals_dequeued + length s.finals

  insert_final-Accounts :
      (s : Scheduler S) (q : OwnedRequest S)
      → backlog_full s q ≡ false
      → Accounts s
      → Accounts (insert_final s q)
  unfolding insert_final backlog_full
  insert_final-Accounts s q h v = ground (
    arith,
    insert_at-position (key_lt (final_job s q)) (final_job s q) s.finals,
    sum_by-insert_before duration_ms (key_lt (final_job s q)) (final_job s q) s.finals,
    sum_by-insert_before sample_count (key_lt (final_job s q)) (final_job s q) s.finals,
    length-insert_before (key_lt (final_job s q)) (final_job s q) s.finals,
  )

  pub update_partial_mode-Accounts :
      (s : Scheduler S) → Accounts s → Accounts (update_partial_mode s)
  unfolding update_partial_mode
  update_partial_mode-Accounts s v = ground arith

  place_final-Accounts :
      (s : Scheduler S) (q : OwnedRequest S) → Accounts s → Accounts (place_final s q).0
  unfolding place_final refuse_final update_peaks
  place_final-Accounts s q v =
      ground (arith, insert_final-Accounts s q, update_partial_mode-Accounts (insert_final s q))

  pub without_partial-Accounts :
      (s : Scheduler S) (i : ℕ) → Accounts s → Accounts (without_partial s i)
  without_partial-Accounts s i v = record {
    speech = v.speech;
    samples = v.samples;
    speech_cap = v.speech_cap;
    samples_cap = v.samples_cap;
    jobs_cap = v.jobs_cap;
    balance = v.balance;
  }

  suppressed-Accounts :
      (s : Scheduler S)
      → Accounts s
      → (n : ℕ)
      → Accounts (record s { diagnostics = record (s.diagnostics) { partials_suppressed = n } })
  suppressed-Accounts s v n = ground arith

  next_final_job-Accounts : (s : Scheduler S) → Accounts s → Accounts (next_final_job s).0
  unfolding next_final_job update_partial_mode
  next_final_job-Accounts s v = ground arith

  serve_partial-Accounts :
      (s : Scheduler S) → Accounts s → (a : AudioSource) → Accounts (serve_partial s a)
  unfolding serve_partial
  serve_partial-Accounts s v a = ground arith

  place_partial-Accounts :
      (s : Scheduler S) (q : OwnedRequest S) → Accounts s → Accounts (place_partial s q).0
  unfolding place_partial update_peaks
  place_partial-Accounts s q v = ground arith

module _ {S : Type 0} (f : SampleTests S) where
  -- Every call keeps the totals right and the queue within its limits.
  pub step-Accounts : (s : Scheduler S) (c : Call S) → Accounts s → Accounts (step f s c)
  unfolding step discard_partials
  step-Accounts s (submits_final i r) v =
      submit_final_cases f Accounts s i r v λ _ _.
        place_final-Accounts (without_partial s i) (owned i r) (without_partial-Accounts s i v)
  step-Accounts s (submits_partial i r) v =
      submit_partial_cases f Accounts s i r v (suppressed-Accounts s v)
        λ _ _ _. place_partial-Accounts s (owned i r) v
  step-Accounts s takes v =
      next_job_cases Accounts s (next_final_job-Accounts s v)
        λ _. next_partial_job_cases Accounts s v (serve_partial-Accounts s v)
  step-Accounts s takes_final v = next_final_job-Accounts s v
  step-Accounts s takes_partial v = next_partial_job_cases Accounts s v (serve_partial-Accounts s v)
  step-Accounts s discards v = ground arith

pub default-Accounts : {S : Type 0} → Accounts {S = S} default
unfolding default
default-Accounts = ground arith
