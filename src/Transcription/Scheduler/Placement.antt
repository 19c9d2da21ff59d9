-- ===== src/Transcription/Scheduler/Placement.antt =====
-- transcription/scheduler.rs: what `submit_final` does on each of its four branches.
use kokoro_koe.Prelude.{
  ℕ, ◌+◌, ◌≤◌, ◌<◌, ◌≡◌, refl, ap, ◌⊎◌, inl, inr, true, false, List, [], ◌∷◌, ◌++◌, arith, length,
  any, All, Bool-cases, insert_before, insert_at-position, ◌==◌,
}
use kokoro_koe.Transcription.Request.{
  SampleTests, TranscriptionError, TranscriptionRequest, IsValid, validate, validate_sound,
  validate_complete, err,
}
use kokoro_koe.Transcription.Scheduler.{
  Job, Scheduler, Submission, FinalSubmission, TranscriptionGap, accepted, refused, gap,
  invalid_request, duplicate_job, key_lt, update_partial_mode, update_peaks, remove_id,
  max_queued_final_jobs, max_queued_final_speech_ms, max_queued_final_samples,
  final_backlog_gap_code,
}
use kokoro_koe.Transcription.Scheduler.Cases.{owned, without_partial, Result-cases}
use kokoro_koe.Transcription.Scheduler.Accounts.{Accounts, without_partial-Accounts}
use kokoro_koe.Transcription.Scheduler.Order.{Sorted, Ordered, update_partial_mode_queue}
use kokoro_koe.Transcription.Scheduler.Ops.{
  backlog_full, refuse_final, final_job, insert_final, place_final, submit_final,
}

module _ {S : Type 0} where
  -- The span of `a` comes no later than that of `b`: an earlier start, or the same start and no
  -- later end.
  abbrev pub NoLater : Job S → Job S → Type 0
  NoLater a b = (a.start_ms < b.start_ms) ⊎ ((a.start_ms ≡ b.start_ms) × (a.end_ms ≤ b.end_ms))

  abbrev pub Earlier : Job S → Job S → Type 0
  Earlier a b = (a.start_ms < b.start_ms) ⊎ ((a.start_ms ≡ b.start_ms) × (a.end_ms < b.end_ms))

  -- `ys` is `xs` with `v` behind all that come no later, and before all that come later.
  pub record Placed (v : Job S) (xs ys : List (Job S)) : Type 0 where
    pub before : List (Job S)
    pub after : List (Job S)
    pub split : xs ≡ before ++ after
    pub joined : ys ≡ before ++ (v ∷ after)
    pub no_later : All (λ k. NoLater k v) before
    pub later : All (λ k. Earlier v k) after

  NoLater-of_key : (v k : Job S) → k.sequence ≤ v.sequence → key_lt v k ≡ false → NoLater k v
  unfolding key_lt
  NoLater-of_key v k h e = ground arith

  Earlier-of_key : (v k : Job S) → k.sequence ≤ v.sequence → key_lt v k ≡ true → Earlier v k
  unfolding key_lt
  Earlier-of_key v k h e = ground arith

  Earlier-of_Earlier :
      (v x k : Job S)
      → k.sequence ≤ v.sequence
      → key_lt v x ≡ true
      → key_lt k x ≡ false
      → Earlier v k
  unfolding key_lt
  Earlier-of_Earlier v x k h e g = ground arith

  All-Earlier :
      (v x : Job S) (xs : List (Job S))
      → key_lt v x ≡ true
      → All (λ k. k.sequence ≤ v.sequence) xs
      → All (λ k. key_lt k x ≡ false) xs
      → All (λ k. Earlier v k) xs
  All-Earlier v x [] e h g = tt
  All-Earlier v x (k ∷ xs) e h g =
      (Earlier-of_Earlier v x k h.0 e g.0, All-Earlier v x xs e h.1 g.1)

  insert_before-Placed :
      (v : Job S) (xs : List (Job S))
      → Sorted xs
      → All (λ k. k.sequence ≤ v.sequence) xs
      → Placed v xs (insert_before (key_lt v) v xs)
  insert_before-Placed v [] s h = record {
    before = [];
    after = [];
    split = refl;
    joined = refl;
    no_later = tt;
    later = tt;
  }
  insert_before-Placed v (x ∷ xs) s h = elim (Bool-cases (key_lt v x)) [
    | inl e ↦ record {
      before = [];
      after = x ∷ xs;
      split = refl;
      joined = rw e;
      no_later = tt;
      later = (Earlier-of_key v x h.0 e, All-Earlier v x xs e h.1 s.0);
    }
    | inr e ↦
        let rest = insert_before-Placed v xs s.1 h.1 in
        record {
          before = x ∷ rest.before;
          after = rest.after;
          split = ap (◌∷◌ x) rest.split;
          joined = rw e (ap (◌∷◌ x) rest.joined);
          no_later = (NoLater-of_key v x h.0 e, rest.no_later);
          later = rest.later;
        }
  ]

  -- One more job of this span and size would pass a limit of the queue.
  abbrev pub Exceeds : Scheduler S → TranscriptionRequest S → Type 0
  Exceeds s r =
      (max_queued_final_jobs ≤ length s.finals)
      ⊎ ((max_queued_final_speech_ms + r.start_ms < s.queued_final_speech_ms + r.end_ms)
          ⊎ (max_queued_final_samples < s.queued_final_samples + length r.samples))

  abbrev pub backlog_gap : ℕ → TranscriptionRequest S → TranscriptionGap
  backlog_gap i r = record {
    job_id = i;
    source = r.source;
    start_ms = r.start_ms;
    end_ms = r.end_ms;
    code = final_backlog_gap_code;
  }

  pub data Outcome (f : SampleTests S) (s : Scheduler S) (i : ℕ) (r : TranscriptionRequest S)
      (t : Scheduler S) (out : Submission FinalSubmission) : Type 0 where
    invalid :
        (e : TranscriptionError)
        → validate f r ≡ err e
        → out ≡ refused (invalid_request e)
        → t ≡ s
        → Outcome f s i r t out
    duplicate :
        IsValid f r
        → any (λ j. j.job_id == i) s.finals ≡ true
        → out ≡ refused duplicate_job
        → t ≡ s
        → Outcome f s i r t out
    full :
        IsValid f r
        → any (λ j. j.job_id == i) s.finals ≡ false
        → Exceeds s r
        → out ≡ accepted (gap (backlog_gap i r))
        → t.finals ≡ s.finals
        → t.partials ≡ remove_id s.partials i
        → t.partials_enabled ≡ s.partials_enabled
        → t.queued_final_samples ≡ s.queued_final_samples
        → t.queued_final_speech_ms ≡ s.queued_final_speech_ms
        → Outcome f s i r t out
    placed :
        IsValid f r
        → any (λ j. j.job_id == i) s.finals ≡ false
        → ¬ Exceeds s r
        → out ≡ accepted FinalSubmission.enqueued
        → Placed (final_job s (owned i r)) s.finals t.finals
        → Outcome f s i r t out

module _ {S : Type 0} (f : SampleTests S) where
  full-Exceeds :
      (s : Scheduler S) (i : ℕ) (r : TranscriptionRequest S)
      → Accounts s
      → IsValid f r
      → backlog_full s (owned i r) ≡ true
      → Exceeds s r
  unfolding backlog_full
  full-Exceeds s i r v w e = ground arith

  not_full-Exceeds :
      (s : Scheduler S) (i : ℕ) (r : TranscriptionRequest S)
      → Accounts s
      → IsValid f r
      → backlog_full s (owned i r) ≡ false
      → ¬ Exceeds s r
  unfolding backlog_full
  not_full-Exceeds s i r v w e x = ground arith

  module _ (s : Scheduler S) (i : ℕ) (r : TranscriptionRequest S) where
    abbrev base : Scheduler S
    base = without_partial s i

    finals-Placed :
        Ordered s
        → Placed
            (final_job s (owned i r))
            s.finals
            (update_peaks (update_partial_mode (insert_final base (owned i r)))).finals
    unfolding update_peaks insert_final
    finals-Placed v = rw (update_partial_mode_queue (insert_final base (owned i r))).0 (
        rw (insert_at-position (key_lt (final_job s (owned i r))))
          (insert_before-Placed (final_job s (owned i r)) s.finals v.sorted v.older))

    place_final-Outcome :
        Accounts s
        → Ordered s
        → IsValid f r
        → any (λ j. j.job_id == i) s.finals ≡ false
        → let (t, out) = place_final base (owned i r) in Outcome f s i r t out
    unfolding place_final refuse_final
    place_final-Outcome v w u free = elim (Bool-cases (backlog_full base (owned i r))) [
      | inl e ↦ rw e (
          full u free (full-Exceeds base i r (without_partial-Accounts s i v) u e) refl refl refl
            refl refl refl)
      | inr e ↦ rw e (
          placed u free (not_full-Exceeds base i r (without_partial-Accounts s i v) u e) refl
            (finals-Placed w))
    ]

    -- `submit_final` refuses a request that fails validation, then one whose id is queued, and changes
    -- nothing. A valid request with a new id becomes a gap just if it would pass a limit of the
    -- queue: the queue and its totals stay, and only a partial job with the id is removed. Else its
    -- job is queued in its place, behind all jobs that come no later and before all that come later.
    -- (The totals of the queue must be right, and the queue in order.)
    pub submit_final-Outcome :
        Accounts s → Ordered s → let (t, out) = submit_final f s i r in Outcome f s i r t out
    unfolding submit_final
    submit_final-Outcome v w = elim (Result-cases (validate f r)) [
      | inr (e, h) ↦ rw (h, submit_final) (invalid e h refl refl)
      | inl (q, h) ↦
          let u = (validate_sound f r q h).0 in
          rw (validate_complete f r u, submit_final)
            (elim (Bool-cases (any (λ j. j.job_id == i) s.finals)) [
              | inl used ↦ rw used (duplicate u used refl refl)
              | inr free ↦ rw free (place_final-Outcome v w u free)
            ])
    ]
