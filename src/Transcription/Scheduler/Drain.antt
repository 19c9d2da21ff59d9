-- ===== src/Transcription/Scheduler/Drain.antt =====
-- transcription/scheduler.rs: in what order jobs are handed out.
use kokoro_koe.Prelude.{
  ℕ, zero, suc, ◌≡◌, ◌≢◌, refl, ap₂, sym, ◌∙◌, inl, inr, List, [], ◌∷◌, map, Option, some, arith,
  length,
}
use kokoro_koe.Transcription.Scheduler.{
  Job, OwnedRequest, Scheduler, final, partial, slot, other_source, update_peaks,
}
use kokoro_koe.Transcription.Scheduler.Cases.{List-cases, next_final_job_taken, next_final_job_pops}
use kokoro_koe.Transcription.Scheduler.Order.{Ordered, update_partial_mode_queue}
use kokoro_koe.Transcription.Scheduler.Ops.{next_partial_job, next_job, pop_final, place_partial}

module _ {S : Type 0} where
  next_job_front :
      (s : Scheduler S) (j : Job S) (rest : List (Job S))
      → s.finals ≡ j ∷ rest
      → ((next_job s).1 ≡ some j) × ((next_job s).0.finals ≡ rest)
  unfolding next_job pop_final
  next_job_front s j rest e =
      let taken = next_final_job_taken s j rest e in
      (
        rw (taken, next_job),
        rw (taken, next_job)
            (rw (next_final_job_pops s j rest e)
              (update_partial_mode_queue (pop_final s j rest)).0),
      )

  -- The jobs that `n` calls of `next_job` hand out.
  unfoldable pub handed_out : ℕ → Scheduler S → List (Option (Job S))
  handed_out zero s = []
  handed_out (suc n) s = let (t, j) = next_job s in j ∷ handed_out n t

  handed_out-finals :
      (js : List (Job S)) (s : Scheduler S) → s.finals ≡ js → handed_out (length js) s ≡ map some js
  unfolding handed_out
  handed_out-finals [] s e = refl
  handed_out-finals (j ∷ js) s e =
      let front = next_job_front s j js e in
      ap₂ ◌∷◌ front.0 (handed_out-finals js (next_job s).0 front.1)

  -- With `n` final jobs queued, the next `n` calls of `next_job` hand out exactly those jobs, in the
  -- order of the queue, whatever partial jobs wait.
  pub handed_out-queue : (s : Scheduler S) → handed_out (length s.finals) s ≡ map some s.finals
  handed_out-queue s = handed_out-finals s.finals s refl

  final_in_front :
      (s : Scheduler S) (j k : Job S) (rest : List (Job S))
      → Ordered s
      → s.finals ≡ k ∷ rest
      → (next_job s).1 ≡ some j
      → j.kind ≡ final
  final_in_front s j k rest v e h = ground (arith, next_job_front s k rest e, v.kinds)

  -- A partial job is handed out only when no final job is queued.
  pub partial_after_finals :
      (s : Scheduler S) (j : Job S)
      → Ordered s
      → (next_job s).1 ≡ some j
      → j.kind ≡ partial
      → s.finals ≡ []
  partial_after_finals s j v h p = elim (List-cases s.finals) [
    | inl e ↦ e
    | inr (k, rest, e) ↦ absurd (final≢partial (sym (final_in_front s j k rest v e h) ∙ p))
  ]
    where
      final≢partial : final ≢ partial
      final≢partial e = cc

  -- When both sources have a partial job waiting, the source that is served first does not come
  -- again before the other, even if it has a new job by then.
  pub partials_alternate :
      (s : Scheduler S) (a b : Job S) (q : OwnedRequest S)
      → slot s.partials s.next_partial_source ≡ some a
      → slot s.partials (other_source s.next_partial_source) ≡ some b
      → q.source ≡ s.next_partial_source
      → let (t, first) = next_partial_job s in
        (first ≡ some a) × ((next_partial_job (place_partial t q).0).1 ≡ some b)
  unfolding next_partial_job place_partial update_peaks
  partials_alternate s a b q ha hb e = ground arith
