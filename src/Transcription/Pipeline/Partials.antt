-- ===== src/Transcription/Pipeline/Partials.antt =====
-- transcription/integration.rs: `submit_partial` and the invariant of the pipeline.
use kokoro_koe.Prelude.{
  ℕ, ◌≡◌, refl, ap, ◌∙◌, true, if_elim, length, ltb, arith, u64_max, Bool-cases, Option-cases, inl,
  inr,
}
use kokoro_koe.Transcription.Request.{AudioSource, SampleTests}
use kokoro_koe.Transcription.Scheduler.{Scheduler, PartialSubmission, Submission, accepted, refused}
use kokoro_koe.Transcription.Scheduler.Ops.{submit_partial}
use kokoro_koe.Transcription.Scheduler.Ops as SchedulerOps
use kokoro_koe.Transcription.Scheduler.Invariant as SchedulerInvariant
use kokoro_koe.Audio.Vad.{Snapshot}
use kokoro_koe.Transcription.Pipeline.{
  Checked, done, Checked-cases, PartialIdentities, PipelineDiagnostics, Pipeline,
}
use kokoro_koe.Transcription.Pipeline.Frontier.{get_identity}
use kokoro_koe.Transcription.Pipeline.Submit.{
  is_running, take_job_id, continues, snapshot_request, count_snapshot, partial_id, count_partial,
  queue_partial, check_partial, submit_snapshot,
}
use kokoro_koe.Transcription.Pipeline.Queue.{length-submit_partial}
use kokoro_koe.Transcription.Pipeline.Invariant.{
  Inv, IsAccounted, Held, then-Held, rest_open, running_open, running_quiet,
}

module _ {S E : Type 0} (f : SampleTests S) where
  other_ids :
      (p : Pipeline S E) {n : ℕ} {ids : PartialIdentities}
      → Inv f p
      → Inv f (record p { next_job_id = n; identities = ids })
  other_ids p v = record {
    queue = v.queue;
    rest = v.rest;
    quiet = v.quiet;
    accounted = v.accounted;
  }

  count_snapshot-Inv : (p : Pipeline S E) → Inv f p → Inv f (count_snapshot p)
  count_snapshot-Inv p v = record {
    queue = v.queue;
    rest = v.rest;
    quiet = v.quiet;
    accounted = v.accounted;
  }

  take_job_id-Held : (p : Pipeline S E) → Inv f p → Held f p (take_job_id p).0
  unfolding take_job_id
  take_job_id-Held p v =
      if_elim (λ (o : Pipeline S E × Checked ℕ). Held f p o.0) (ltb p.next_job_id u64_max)
        (λ _. record { inv = other_ids p v; state_kept = refl })
        (λ _. record { inv = v; state_kept = refl })

  partial_id-Held :
      (p : Pipeline S E) (a : AudioSource) (t : ℕ) → Inv f p → Held f p (partial_id p a t).0
  unfolding partial_id
  partial_id-Held p a t v = elim (Option-cases (continues (get_identity p.identities a) t)) [
    | inr (i, e) ↦ rw (e, partial_id) (record { inv = v; state_kept = refl })
    | inl e ↦
        let g = take_job_id-Held p v in
        elim (Checked-cases ((take_job_id p).1)) [
          | inr (x, k) ↦ rw (e, k, partial_id) g
          | inl (i, k) ↦
              rw (e, k, partial_id)
                (record { inv = other_ids (take_job_id p).0 g.inv; state_kept = g.state_kept })
        ]
  ]

  count_partial-Held :
      (p : Pipeline S E) (s : Scheduler S) (o : Submission PartialSubmission)
      → Inv f p
      → is_running p.state ≡ true
      → SchedulerInvariant.Inv f s
      → length s.finals ≡ length p.scheduler.finals
      → Held f p (count_partial (record p { scheduler = s }) o).0
  unfolding count_partial
  count_partial-Held p s o v h k n = go o
    where
      held :
          {d : PipelineDiagnostics}
          → IsAccounted d (length s.finals)
          → Held f p (record p { scheduler = s; diagnostics = d })
      held a = record {
        inv = record {
          queue = k;
          rest = rest_open p.state _ (running_open p.state h);
          quiet = running_quiet p.state s h;
          accounted = a;
        };
        state_kept = refl;
      }

      counted : IsAccounted p.diagnostics (length s.finals)
      counted cap = omega (arith, v.accounted cap, n)

      go :
          (o : Submission PartialSubmission)
          → Held f p (count_partial (record p { scheduler = s }) o).0
      go (refused e) = held counted
      go (accepted PartialSubmission.enqueued) = held counted
      go (accepted PartialSubmission.replaced) = held counted
      go (accepted PartialSubmission.suppressed) = held counted

  checked_running :
      (p : Pipeline S E) (u : Snapshot S)
      → check_partial f p u ≡ done tt
      → is_running p.state ≡ true
  checked_running p u h = elim (Bool-cases (is_running p.state)) [
    | inl e ↦ e
    | inr e ↦ absurd (ground arith)
  ]

  queue_partial-Held :
      (p : Pipeline S E) (i : ℕ) (u : Snapshot S)
      → Inv f p
      → is_running p.state ≡ true
      → Held f p (queue_partial f p i u).0
  unfolding queue_partial SchedulerOps.step
  queue_partial-Held p i u v h =
      count_partial-Held p _ (submit_partial f p.scheduler i (snapshot_request u)).1 v h
        (SchedulerInvariant.step-Inv f p.scheduler
          (SchedulerOps.submits_partial i (snapshot_request u)) v.queue)
        (length-submit_partial f p.scheduler i (snapshot_request u))

  pub submit_snapshot-Held :
      (p : Pipeline S E) (u : Snapshot S) → Inv f p → Held f p (submit_snapshot f p u).0
  unfolding submit_snapshot
  submit_snapshot-Held p u v = elim (Checked-cases (check_partial f p u)) [
    | inr (e, k) ↦ rw (k, submit_snapshot) (record { inv = v; state_kept = refl })
    | inl (x, k) ↦
        let counted = count_snapshot p in
        let g = partial_id-Held counted u.source u.start_ms (count_snapshot-Inv p v) in
        let q = (partial_id counted u.source u.start_ms).0 in
        let at_start : Held f p counted = record {
          inv = count_snapshot-Inv p v;
          state_kept = refl;
        } in
        elim (Checked-cases ((partial_id counted u.source u.start_ms).1)) [
          | inr (e, l) ↦ rw (k, l, submit_snapshot) (then-Held f p counted q at_start g)
          | inl (i, l) ↦
              rw (k, l, submit_snapshot)
                (then-Held f p q _ (then-Held f p counted q at_start g) (
                  queue_partial-Held q i u g.inv
                    (ap is_running g.state_kept ∙ checked_running p u k)))
        ]
  ]
