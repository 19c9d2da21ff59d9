-- ===== src/Transcription/Scheduler/Tests.antt =====
-- Runs of the scheduler on small inputs, and the theorems at them. A sample is a truth value, and
-- every sample is in range.
use kokoro_koe.Prelude.{ℕ, ◌+◌, ◌≡◌, refl, Bool, true, List, [], ◌∷◌, map, some, length}
use kokoro_koe.Transcription.Request.{
  AudioSource, microphone, system_output, SampleTests, TranscriptionRequest, IsValid, validate,
  validate_exact, ok,
}
use kokoro_koe.Transcription.Scheduler.{
  Job, Scheduler, partial, default, key_lt, remove_id, update_partial_mode, update_peaks,
}
use kokoro_koe.Transcription.Scheduler.Cases.{owned}
use kokoro_koe.Transcription.Scheduler.Placement.{Outcome, submit_final-Outcome}
use kokoro_koe.Transcription.Scheduler.Invariant.{Inv, step-Inv, run-Inv}
use kokoro_koe.Transcription.Scheduler.Drain.{
  handed_out, handed_out-queue, partial_after_finals, partials_alternate,
}
use kokoro_koe.Transcription.Scheduler.Ops.{
  submit_final, submit_partial, place_final, place_partial, partial_duplicate, backlog_full,
  insert_final, next_job, next_final_job, next_partial_job, Call, submits_final, submits_partial,
  takes, step, run,
}

abbrev any_sample : SampleTests Bool
any_sample = record { is_finite = λ _. true; in_unit = λ _. true }

-- 16 samples, a millisecond of sound
abbrev sound : List Bool
sound =
    true ∷ true ∷ true ∷ true ∷ true ∷ true ∷ true ∷ true ∷ true ∷ true ∷ true ∷ true ∷ true ∷ true
    ∷ true ∷ true ∷ []

abbrev request_at : AudioSource → ℕ → TranscriptionRequest Bool
request_at a t = record { source = a; start_ms = t; end_ms = t + 1; samples = sound }

abbrev history : List (Call Bool)
history =
    submits_final 1 (request_at microphone 50)
    ∷ submits_partial 2 (request_at system_output 70)
    ∷ submits_final 3 (request_at system_output 20)
    ∷ submits_partial 4 (request_at microphone 80)
    ∷ []

abbrev busy : Scheduler Bool
busy = run any_sample default history

queue_is_chronological : map (λ (j : Job Bool). j.job_id) busy.finals ≡ 3 ∷ 1 ∷ []
unfolding run step default submit_final submit_partial validate place_final backlog_full
    insert_final key_lt update_partial_mode update_peaks remove_id place_partial partial_duplicate
queue_is_chronological = refl

validate_exact_example :
    ((q : TranscriptionRequest Bool)
      → validate any_sample (request_at microphone 5) ≡ ok q
      → IsValid any_sample (request_at microphone 5) × (q ≡ request_at microphone 5))
    × (IsValid any_sample (request_at microphone 5)
        → validate any_sample (request_at microphone 5) ≡ ok (request_at microphone 5))
validate_exact_example = validate_exact any_sample (request_at microphone 5)

run-Inv_example : Inv any_sample busy
run-Inv_example = run-Inv any_sample history

step-Inv_example : Inv any_sample (step any_sample busy takes)
step-Inv_example = step-Inv any_sample busy takes run-Inv_example

submit_final-Outcome_example :
    let (t, out) = submit_final any_sample busy 1 (request_at microphone 9) in
    Outcome any_sample busy 1 (request_at microphone 9) t out
submit_final-Outcome_example =
    submit_final-Outcome any_sample busy 1 (request_at microphone 9) run-Inv_example.accounts
      run-Inv_example.ordered

handed_out-queue_example : handed_out (length busy.finals) busy ≡ map some busy.finals
handed_out-queue_example = handed_out-queue busy

abbrev two_submissions : List (Call Bool)
two_submissions =
    submits_partial 2 (request_at system_output 70)
    ∷ submits_partial 4 (request_at microphone 80)
    ∷ []

abbrev two_partials : Scheduler Bool
two_partials = run any_sample default two_submissions

abbrev partial_job : ℕ → ℕ → TranscriptionRequest Bool → Job Bool
partial_job i n r = record { owned = owned i r; sequence = n; kind = partial }

partials_alternate_example :
    let (t, first) = next_partial_job two_partials in
    (first ≡ some (partial_job 4 1 (request_at microphone 80)))
    × ((next_partial_job (place_partial t (owned 6 (request_at microphone 90))).0).1
        ≡ some (partial_job 2 0 (request_at system_output 70)))
unfolding run step default submit_partial validate update_peaks place_partial partial_duplicate
partials_alternate_example =
    partials_alternate two_partials (partial_job 4 1 (request_at microphone 80))
      (partial_job 2 0 (request_at system_output 70)) (owned 6 (request_at microphone 90)) refl refl
      refl

partial_after_finals_example : two_partials.finals ≡ []
unfolding run step default submit_partial validate update_peaks place_partial partial_duplicate
    next_job next_final_job next_partial_job
partial_after_finals_example =
    partial_after_finals two_partials (partial_job 4 1 (request_at microphone 80))
      (run-Inv any_sample two_submissions).ordered refl refl
