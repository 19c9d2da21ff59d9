-- ===== src/Transcription/Scheduler/Order.antt =====
-- transcription/scheduler.rs: the order of the queue of final jobs, and where a new job goes.
use kokoro_koe.Prelude.{
  ◌≤◌, ◌≡◌, refl, inl, inr, true, false, List, [], ◌∷◌, arith, All, Bool-cases, insert_before,
  insert_at-position, All-insert_before, All-map, if_elim, is_some, sat_add,
}
use kokoro_koe.Transcription.Request.{AudioSource, SampleTests}
use kokoro_koe.Transcription.Scheduler.{
  Job, OwnedRequest, Scheduler, Submission, FinalSubmission, PartialSubmission, PartialSlots,
  Diagnostics, slot, default, key_lt, update_partial_mode, update_peaks, final,
}
use kokoro_koe.Transcription.Scheduler.Cases.{
  owned, without_partial, submit_final_cases, submit_partial_cases, next_partial_job_cases,
  next_job_cases, next_final_job_cases,
}
use kokoro_koe.Transcription.Scheduler.Ops.{
  backlog_full, refuse_final, final_job, insert_final, place_final, place_partial, serve_partial,
  submits_final, submits_partial, takes, takes_final, takes_partial, discards, pop_final,
  next_final_job, discard_partials, Call, step,
}

module _ {S : Type 0} where
  -- No later job has a smaller key.
  abbrev pub Sorted : List (Job S) → Type 0
  Sorted [] = Unit
  Sorted (x ∷ xs) = All (λ y. key_lt y x ≡ false) xs × Sorted xs

  key_lt_asym : (a b : Job S) → key_lt a b ≡ true → key_lt b a ≡ false
  unfolding key_lt
  key_lt_asym a b h = ground arith

  key_lt_trans : (v x y : Job S) → key_lt v x ≡ true → key_lt y x ≡ false → key_lt y v ≡ false
  unfolding key_lt
  key_lt_trans v x y h k = ground arith

  Sorted-insert_before :
      (v : Job S) (xs : List (Job S)) → Sorted xs → Sorted (insert_before (key_lt v) v xs)
  Sorted-insert_before v [] h = (tt, tt)
  Sorted-insert_before v (x ∷ xs) h = elim (Bool-cases (key_lt v x)) [
    | inl e ↦ rw e ((key_lt_asym v x e, All-map xs (λ y k. key_lt_trans v x y e k) h.0), h)
    | inr e ↦ rw e (
      All-insert_before (λ y. key_lt y x ≡ false) (key_lt v) v xs e h.0,
      Sorted-insert_before v xs h.1,
    )
  ]

  -- The queue is sorted, holds final jobs only, and no job in it is newer than the next.
  pub record Ordered (s : Scheduler S) : Type 0 where
    pub sorted : Sorted s.finals
    pub kinds : All (λ j. j.kind ≡ final) s.finals
    pub older : All (λ j. j.sequence ≤ s.next_sequence) s.finals
    pub counted : s.next_sequence ≤ 18446744073709551615

  insert_final-Ordered :
      (s : Scheduler S) (q : OwnedRequest S) → Ordered s → Ordered (insert_final s q)
  unfolding insert_final
  insert_final-Ordered s q v =
      let p = key_lt (final_job s q) in
      record {
        sorted = rw (insert_at-position p) (Sorted-insert_before (final_job s q) s.finals v.sorted);
        kinds =
            rw (insert_at-position p)
              (All-insert_before (λ j. j.kind ≡ final) p (final_job s q) s.finals refl v.kinds);
        older = rw (insert_at-position p) (
            All-insert_before (λ j. j.sequence ≤ _) p (final_job s q) s.finals
              (omega (arith, v.counted))
              (All-map s.finals (λ j h. omega (arith, v.counted)) v.older));
        counted = omega arith;
      }

  -- A change of the mode or of the peaks leaves the queue and the sequence alone.
  same_queue :
      (s t : Scheduler S)
      → t.finals ≡ s.finals
      → t.next_sequence ≡ s.next_sequence
      → Ordered s
      → Ordered t
  same_queue s t e k v = record {
    sorted = rw e v.sorted;
    kinds = rw e v.kinds;
    older = rw (e, k) v.older;
    counted = rw k v.counted;
  }

  pub update_partial_mode_queue :
      (s : Scheduler S)
      → ((update_partial_mode s).finals ≡ s.finals)
        × ((update_partial_mode s).next_sequence ≡ s.next_sequence)
  unfolding update_partial_mode
  update_partial_mode_queue s = ground arith

  place_final-Ordered :
      (s : Scheduler S) (q : OwnedRequest S) → Ordered s → Ordered (place_final s q).0
  unfolding place_final refuse_final update_peaks
  place_final-Ordered s q v =
      let placed = insert_final s q in
      if_elim (λ (o : Scheduler S × Submission FinalSubmission). Ordered o.0) (backlog_full s q)
        (λ _. same_queue s _ refl refl v)
        (λ _.
          same_queue placed _ (update_partial_mode_queue placed).0
            (update_partial_mode_queue placed).1 (insert_final-Ordered s q v))

  next_final_job-Ordered : (s : Scheduler S) → Ordered s → Ordered (next_final_job s).0
  unfolding pop_final
  next_final_job-Ordered s v = next_final_job_cases Ordered s v λ j rest e.
      let q = update_partial_mode_queue (pop_final s j rest) in
      let sorted = rw e at (v.sorted) in
      let kinds = rw e at (v.kinds) in
      let older = rw e at (v.older) in
      same_queue (pop_final s j rest) _ q.0 q.1
        (record { sorted = sorted.1; kinds = kinds.1; older = older.1; counted = v.counted })

  serve_partial-Ordered :
      (s : Scheduler S) → Ordered s → (a : AudioSource) → Ordered (serve_partial s a)
  unfolding serve_partial
  serve_partial-Ordered s v a = same_queue s _ refl refl v

  place_partial-Ordered :
      (s : Scheduler S) (q : OwnedRequest S) → Ordered s → Ordered (place_partial s q).0
  unfolding place_partial update_peaks
  place_partial-Ordered s q v =
      if_elim (λ (o : Scheduler S × Submission PartialSubmission). Ordered o.0)
        (is_some (slot s.partials q.source)) (λ _. later) (λ _. later)
    where
      later :
          {d : Diagnostics} {p : PartialSlots S}
          → Ordered (record s {
            next_sequence = sat_add s.next_sequence 1;
            partials = p;
            diagnostics = d;
          })
      later = record {
        sorted = v.sorted;
        kinds = v.kinds;
        older = All-map s.finals (λ j h. omega (arith, v.counted)) v.older;
        counted = omega arith;
      }

module _ {S : Type 0} (f : SampleTests S) where
  pub step-Ordered : (s : Scheduler S) (c : Call S) → Ordered s → Ordered (step f s c)
  unfolding step discard_partials
  step-Ordered s (submits_final i r) v =
      submit_final_cases f Ordered s i r v
        λ _ _. place_final-Ordered (without_partial s i) (owned i r) (same_queue s _ refl refl v)
  step-Ordered s (submits_partial i r) v =
      submit_partial_cases f Ordered s i r v (λ d. same_queue s _ refl refl v)
        λ _ _ _. place_partial-Ordered s (owned i r) v
  step-Ordered s takes v =
      next_job_cases Ordered s (next_final_job-Ordered s v)
        λ _. next_partial_job_cases Ordered s v (serve_partial-Ordered s v)
  step-Ordered s takes_final v = next_final_job-Ordered s v
  step-Ordered s takes_partial v = next_partial_job_cases Ordered s v (serve_partial-Ordered s v)
  step-Ordered s discards v = same_queue s _ refl refl v

pub default-Ordered : {S : Type 0} → Ordered {S = S} default
unfolding default
default-Ordered = record { sorted = tt; kinds = tt; older = tt; counted = omega arith }
