-- ===== src/Transcription/Scheduler/Ops.antt =====
-- transcription/scheduler.rs: the methods of `TranscriptionScheduler`, whole, and a run of them.
use kokoro_koe.Prelude.{
  ℕ, ◌-◌, Bool, not, ◌&&◌, ◌||◌, List, [], ◌∷◌, Option, none, some, ltb, leb, ◌==◌, if◌then◌else◌,
  is_some, length, any, position, insert_at, unwrap_or, sat_add, sub64,
}
use kokoro_koe.Transcription.Request.{
  AudioSource, SampleTests, TranscriptionRequest, ok, err, validate,
}
use kokoro_koe.Transcription.Scheduler.{
  Job, OwnedRequest, final, partial, FinalSubmission, gap, PartialSubmission, Submission, accepted,
  refused, invalid_request, duplicate_job, Diagnostics, Scheduler, no_partials, slot, set_slot,
  has_id, remove_id, contains_id, count, other_source, key_lt, update_partial_mode, update_peaks,
  duration_ms, sample_count, final_backlog_gap_code, max_queued_final_jobs,
  max_queued_final_speech_ms, max_queued_final_samples,
}

-- The three tests that turn a final job away.
unfoldable pub backlog_full : {S : Type 0} → Scheduler S → OwnedRequest S → Bool
backlog_full s q =
    leb max_queued_final_jobs (length s.finals)
    || ltb (sub64 max_queued_final_speech_ms s.queued_final_speech_ms) (sub64 q.end_ms q.start_ms)
    || ltb (sub64 max_queued_final_samples s.queued_final_samples) (length q.samples)

-- The branch of `submit_final` that records a gap.
unfoldable pub refuse_final :
    {S : Type 0} → Scheduler S → OwnedRequest S → Scheduler S × Submission FinalSubmission
refuse_final s q = (
  record s {
    diagnostics = record d {
      final_gaps = sat_add d.final_gaps 1;
      final_gap_speech_ms = sat_add d.final_gap_speech_ms (sub64 q.end_ms q.start_ms);
    };
  },
  accepted (
      gap (record {
        job_id = q.job_id;
        source = q.source;
        start_ms = q.start_ms;
        end_ms = q.end_ms;
        code = final_backlog_gap_code;
      })),
)
  where
    d : Diagnostics
    d = s.diagnostics

-- The job that `submit_final` makes, with the sequence number that it takes.
abbrev pub final_job : {S : Type 0} → Scheduler S → OwnedRequest S → Job S
final_job s q = record { owned = q; sequence = s.next_sequence; kind = final }

-- The branch of `submit_final` that inserts the job, before the mode and the peaks are updated.
unfoldable pub insert_final : {S : Type 0} → Scheduler S → OwnedRequest S → Scheduler S
insert_final s q = record s {
  finals =
      insert_at (unwrap_or (position (key_lt (final_job s q)) s.finals) (length s.finals))
        (final_job s q) s.finals;
  queued_final_speech_ms = sat_add s.queued_final_speech_ms (sub64 q.end_ms q.start_ms);
  queued_final_samples = sat_add s.queued_final_samples (length q.samples);
  next_sequence = sat_add s.next_sequence 1;
  diagnostics = record d { finals_enqueued = sat_add d.finals_enqueued 1 };
}
  where
    d : Diagnostics
    d = s.diagnostics

unfoldable pub place_final :
    {S : Type 0} → Scheduler S → OwnedRequest S → Scheduler S × Submission FinalSubmission
place_final s q =
    if backlog_full s q
    then refuse_final s q
    else (update_peaks (update_partial_mode (insert_final s q)), accepted FinalSubmission.enqueued)

module _ {S : Type 0} (f : SampleTests S) where
  -- `submit_final`
  unfoldable pub submit_final :
      Scheduler S → ℕ → TranscriptionRequest S → Scheduler S × Submission FinalSubmission
  submit_final s job_id request = elim (validate f request) [
    | err e ↦ (s, refused (invalid_request e))
    | ok r ↦
        if any (λ j. j.job_id == job_id) s.finals
        then (s, refused duplicate_job)
        else place_final (record s { partials = remove_id s.partials job_id })
            (record { job_id = job_id; request = r })
  ]

-- The write to the slot in `submit_partial`, with its outcome.
unfoldable pub place_partial :
    {S : Type 0} → Scheduler S → OwnedRequest S → Scheduler S × Submission PartialSubmission
place_partial {S} s q =
    if is_some (slot s.partials q.source)
    then (
      update_peaks (record placed {
        diagnostics = record d { partials_replaced = sat_add d.partials_replaced 1 };
      }),
      accepted PartialSubmission.replaced,
    )
    else (
      update_peaks (record placed {
        diagnostics = record d { partials_enqueued = sat_add d.partials_enqueued 1 };
      }),
      accepted PartialSubmission.enqueued,
    )
  where
    d : Diagnostics
    d = s.diagnostics

    placed : Scheduler S
    placed = record s {
      next_sequence = sat_add s.next_sequence 1;
      partials =
          set_slot s.partials q.source
            (some (record { owned = q; sequence = s.next_sequence; kind = partial }));
    }

-- The test of `submit_partial` for an id in use.
unfoldable pub partial_duplicate : {S : Type 0} → Scheduler S → ℕ → AudioSource → Bool
unfolding contains_id
partial_duplicate s job_id source =
    any (λ j. j.job_id == job_id) s.finals
    || (contains_id s.partials job_id && not (has_id job_id (slot s.partials source)))

module _ {S : Type 0} (f : SampleTests S) where
  -- `submit_partial`
  unfoldable pub submit_partial :
      Scheduler S → ℕ → TranscriptionRequest S → Scheduler S × Submission PartialSubmission
  submit_partial s job_id request = elim (validate f request) [
    | err e ↦ (s, refused (invalid_request e))
    | ok r ↦
        if partial_duplicate s job_id r.source
        then (s, refused duplicate_job)
        else if not s.partials_enabled
        then (
          record s {
            diagnostics = record d { partials_suppressed = sat_add d.partials_suppressed 1 };
          },
          accepted PartialSubmission.suppressed,
        )
        else place_partial s (record { job_id = job_id; request = r })
  ]
    where
      d : Diagnostics
      d = s.diagnostics

module _ {S : Type 0} where
  -- What `next_final_job` does with the job that it takes from the front, before the mode is updated.
  unfoldable pub pop_final : Scheduler S → Job S → List (Job S) → Scheduler S
  pop_final s j rest = record s {
    finals = rest;
    queued_final_speech_ms = s.queued_final_speech_ms - duration_ms j;
    queued_final_samples = s.queued_final_samples - sample_count j;
    diagnostics = record d { finals_dequeued = sat_add d.finals_dequeued 1 };
  }
    where
      d : Diagnostics
      d = s.diagnostics

  -- `next_final_job`
  unfoldable pub next_final_job : Scheduler S → Scheduler S × Option (Job S)
  unfolding pop_final
  next_final_job s = elim s.finals [
    | [] ↦ (s, none)
    | j ∷ rest ↦ (update_partial_mode (pop_final s j rest), some j)
  ]

  -- A slot is emptied, and the other source is preferred next.
  unfoldable pub serve_partial : Scheduler S → AudioSource → Scheduler S
  serve_partial s source = record s {
    partials = set_slot s.partials source none;
    next_partial_source = other_source source;
    diagnostics = record d { partials_dequeued = sat_add d.partials_dequeued 1 };
  }
    where
      d : Diagnostics
      d = s.diagnostics

  -- `next_partial_job`
  unfoldable pub next_partial_job : Scheduler S → Scheduler S × Option (Job S)
  unfolding serve_partial
  next_partial_job s = elim (slot s.partials preferred) [
    | some j ↦ (serve_partial s preferred, some j)
    | none ↦ elim (slot s.partials alternate) [
      | some j ↦ (serve_partial s alternate, some j)
      | none ↦ (s, none)
    ]
  ]
    where
      preferred : AudioSource
      preferred = s.next_partial_source

      alternate : AudioSource
      alternate = other_source s.next_partial_source

  -- `next_job`: a final job, if there is one, before any partial job.
  unfoldable pub next_job : Scheduler S → Scheduler S × Option (Job S)
  next_job s =
      let (s', taken) = next_final_job s in
      elim taken [ some j ↦ (s', some j) | none ↦ next_partial_job s' ]

  -- `next_final_start_ms`
  unfoldable pub next_final_start_ms : Scheduler S → Option ℕ
  next_final_start_ms s = elim s.finals [ [] ↦ none | j ∷ rest ↦ some j.start_ms ]

  -- `discard_partials`
  unfoldable pub discard_partials : Scheduler S → Scheduler S × ℕ
  unfolding count
  discard_partials s = (record s { partials = no_partials }, count s.partials)

-- The calls that change a scheduler.
pub data Call (S : Type 0) : Type 0 where
  submits_final submits_partial : ℕ → TranscriptionRequest S → Call S
  takes takes_final takes_partial discards : Call S

module _ {S : Type 0} (f : SampleTests S) where
  unfoldable pub step : Scheduler S → Call S → Scheduler S
  step s (submits_final i r) = (submit_final f s i r).0
  step s (submits_partial i r) = (submit_partial f s i r).0
  step s takes = (next_job s).0
  step s takes_final = (next_final_job s).0
  step s takes_partial = (next_partial_job s).0
  step s discards = (discard_partials s).0

  unfoldable pub run : Scheduler S → List (Call S) → Scheduler S
  run s [] = s
  run s (c ∷ cs) = run (step s c) cs
