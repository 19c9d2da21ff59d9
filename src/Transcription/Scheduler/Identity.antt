-- ===== src/Transcription/Scheduler/Identity.antt =====
-- transcription/scheduler.rs: the ids of jobs, and the validity of their requests.
use mathlib.Core.Path.{subst}
use kokoro_koe.Prelude.{
  ℕ, ◌≡◌, ◌≢◌, refl, sym, ◌⊎◌, inl, inr, Bool, false, List, [], ◌∷◌, Option, none, some, arith, any,
  All, Bool-cases, insert_before, insert_at-position, All-insert_before, if_elim, is_some, ◌==◌,
}
use kokoro_koe.Transcription.Request.{
  AudioSource, microphone, system_output, SampleTests, TranscriptionRequest, IsValid,
}
use kokoro_koe.Transcription.Scheduler.{
  Job, Scheduler, Submission, FinalSubmission, PartialSubmission, partial, no_partials,
  other_source, default, key_lt, slot, drop_id, set_slot, remove_id, update_partial_mode,
  update_peaks,
}
use kokoro_koe.Transcription.Scheduler.Order.{update_partial_mode_queue}
use kokoro_koe.Transcription.Scheduler.Cases.{
  owned, without_partial, submit_final_cases, submit_partial_cases, next_final_job_cases,
  next_partial_job_cases, next_job_cases,
}
use kokoro_koe.Transcription.Scheduler.Ops.{
  backlog_full, refuse_final, final_job, insert_final, place_final, place_partial,
  partial_duplicate, pop_final, serve_partial, submits_final, submits_partial, takes, takes_final,
  takes_partial, discards, next_final_job, discard_partials, Call, step,
}

module _ {S : Type 0} where
  abbrev pub Unused : ℕ → List (Job S) → Type 0
  Unused i = All (λ k. k.job_id ≢ i)

  abbrev pub Distinct : List (Job S) → Type 0
  Distinct [] = Unit
  Distinct (j ∷ js) = Unused j.job_id js × Distinct js

  not_any-Unused : (i : ℕ) (xs : List (Job S)) → any (λ j. j.job_id == i) xs ≡ false → Unused i xs
  not_any-Unused i [] h = tt
  not_any-Unused i (x ∷ xs) h = ground (arith, not_any-Unused i xs)

  Distinct-insert_before :
      (p : Job S → Bool) (v : Job S) (xs : List (Job S))
      → Unused v.job_id xs
      → Distinct xs
      → Distinct (insert_before p v xs)
  Distinct-insert_before p v [] u d = (tt, tt)
  Distinct-insert_before p v (x ∷ xs) u d = elim (Bool-cases (p x)) [
    | inl e ↦ rw e (u, d)
    | inr e ↦ rw e (
      All-insert_before (λ k. k.job_id ≢ x.job_id) p v xs (λ h. u.0 (sym h)) d.0,
      Distinct-insert_before p v xs u.1 d.1,
    )
  ]

update_partial_mode_partials :
    {S : Type 0} (s : Scheduler S)
    → ((update_partial_mode s).partials ≡ s.partials)
      ⊎ ((update_partial_mode s).partials ≡ no_partials)
unfolding update_partial_mode
update_partial_mode_partials s = ground arith

module _ {S : Type 0} (f : SampleTests S) where
  -- A waiting partial job stands in its source's slot, is valid, and has an id of its own.
  abbrev pub SlotOk : AudioSource → List (Job S) → Option (Job S) → Type 0
  SlotOk a finals none = Unit
  SlotOk a finals (some j) =
      (j.source ≡ a) × (j.kind ≡ partial) × IsValid f j.request × Unused j.job_id finals

  abbrev pub Apart : Option (Job S) → Option (Job S) → Type 0
  Apart none b = Unit
  Apart (some a) none = Unit
  Apart (some a) (some b) = a.job_id ≢ b.job_id

  pub record Identity (s : Scheduler S) : Type 0 where
    pub distinct : Distinct s.finals
    pub valid : All (λ j. IsValid f j.request) s.finals
    pub microphone_ok : SlotOk microphone s.finals s.partials.microphone_slot
    pub system_output_ok : SlotOk system_output s.finals s.partials.system_output_slot
    pub apart : Apart s.partials.microphone_slot s.partials.system_output_slot

  same_jobs :
      (s t : Scheduler S) → t.finals ≡ s.finals → t.partials ≡ s.partials → Identity s → Identity t
  same_jobs s t e k v = record {
    distinct = rw e v.distinct;
    valid = rw e v.valid;
    microphone_ok = rw (e, k) v.microphone_ok;
    system_output_ok = rw (e, k) v.system_output_ok;
    apart = rw k v.apart;
  }

  cleared-Identity :
      (s t : Scheduler S) → t.finals ≡ s.finals → t.partials ≡ no_partials → Identity s → Identity t
  cleared-Identity s t e k v = record {
    distinct = rw e v.distinct;
    valid = rw e v.valid;
    microphone_ok = rw k tt;
    system_output_ok = rw k tt;
    apart = rw k tt;
  }

  update_partial_mode-Identity : (s : Scheduler S) → Identity s → Identity (update_partial_mode s)
  update_partial_mode-Identity s v = elim (update_partial_mode_partials s) [
    | inl e ↦ same_jobs s _ (update_partial_mode_queue s).0 e v
    | inr e ↦ cleared-Identity s _ (update_partial_mode_queue s).0 e v
  ]

  drop_id-SlotOk :
      (a : AudioSource) (p : Job S → Bool) (v : Job S) (finals : List (Job S)) (o : Option (Job S))
      → SlotOk a finals o
      → SlotOk a finals (drop_id v.job_id o)
        × SlotOk a (insert_before p v finals) (drop_id v.job_id o)
  drop_id-SlotOk a p v finals none h = (tt, tt)
  drop_id-SlotOk a p v finals (some j) h = elim (Bool-cases (j.job_id == v.job_id)) [
    | inl e ↦ rw e (tt, tt)
    | inr e ↦ rw e (
      h,
      (h.0, h.1, h.2, All-insert_before (λ k. k.job_id ≢ j.job_id) p v finals (ground arith) h.3),
    )
  ]

  drop_id-Apart : (i : ℕ) (a b : Option (Job S)) → Apart a b → Apart (drop_id i a) (drop_id i b)
  drop_id-Apart i none b h = tt
  drop_id-Apart i (some a) none h = ground arith
  drop_id-Apart i (some a) (some b) h = ground arith

  -- The queue and the slots once a final job with this id has been let in or turned away.
  place_final-Identity :
      (s : Scheduler S) (i : ℕ) (r : TranscriptionRequest S)
      → IsValid f r
      → any (λ j. j.job_id == i) s.finals ≡ false
      → Identity s
      → Identity (place_final (without_partial s i) (owned i r)).0
  unfolding place_final refuse_final insert_final remove_id update_peaks
  place_final-Identity s i r u free v =
      if_elim (λ (o : Scheduler S × Submission FinalSubmission). Identity o.0)
        (backlog_full (without_partial s i) (owned i r))
        (λ _. record {
          distinct = v.distinct;
          valid = v.valid;
          microphone_ok = mic.0;
          system_output_ok = sys.0;
          apart = parted;
        })
        (λ _. same_jobs _ _ refl refl (update_partial_mode-Identity _ inserted))
    where
      job : Job S
      job = final_job s (owned i r)

      p : Job S → Bool
      p = key_lt job

      mic :
          SlotOk microphone s.finals (drop_id i s.partials.microphone_slot)
          × SlotOk microphone (insert_before p job s.finals) (drop_id i s.partials.microphone_slot)
      mic = drop_id-SlotOk microphone p job s.finals s.partials.microphone_slot v.microphone_ok

      sys :
          SlotOk system_output s.finals (drop_id i s.partials.system_output_slot)
          × SlotOk system_output
              (insert_before p job s.finals)
              (drop_id i s.partials.system_output_slot)
      sys =
          drop_id-SlotOk system_output p job s.finals s.partials.system_output_slot
            v.system_output_ok

      parted :
          Apart (drop_id i s.partials.microphone_slot) (drop_id i s.partials.system_output_slot)
      parted = drop_id-Apart i s.partials.microphone_slot s.partials.system_output_slot v.apart

      inserted : Identity (insert_final (without_partial s i) (owned i r))
      inserted = record {
        distinct =
            rw (insert_at-position p)
              (Distinct-insert_before p job s.finals (not_any-Unused i s.finals free) v.distinct);
        valid =
            rw (insert_at-position p)
              (All-insert_before (λ j. IsValid f j.request) p job s.finals u v.valid);
        microphone_ok = rw (insert_at-position p) mic.1;
        system_output_ok = rw (insert_at-position p) sys.1;
        apart = parted;
      }

  SlotOk-tail :
      (a : AudioSource) (j : Job S) (rest : List (Job S)) (o : Option (Job S))
      → SlotOk a (j ∷ rest) o
      → SlotOk a rest o
  SlotOk-tail a j rest none h = tt
  SlotOk-tail a j rest (some k) h = (h.0, h.1, h.2, h.3.1)

  next_final_job-Identity : (s : Scheduler S) → Identity s → Identity (next_final_job s).0
  unfolding pop_final
  next_final_job-Identity s v = next_final_job_cases Identity s v λ j rest e.
      let distinct = rw e at (v.distinct) in
      let valid = rw e at (v.valid) in
      let mic = rw e at (v.microphone_ok) in
      let sys = rw e at (v.system_output_ok) in
      update_partial_mode-Identity (pop_final s j rest) (record {
        distinct = distinct.1;
        valid = valid.1;
        microphone_ok = SlotOk-tail microphone j rest s.partials.microphone_slot mic;
        system_output_ok = SlotOk-tail system_output j rest s.partials.system_output_slot sys;
        apart = v.apart;
      })

  Apart-none : (a : Option (Job S)) → Apart a none
  Apart-none none = tt
  Apart-none (some a) = tt

  serve_partial-Identity :
      (s : Scheduler S) → Identity s → (a : AudioSource) → Identity (serve_partial s a)
  unfolding serve_partial
  serve_partial-Identity s v microphone = record {
    distinct = v.distinct;
    valid = v.valid;
    microphone_ok = tt;
    system_output_ok = v.system_output_ok;
    apart = tt;
  }
  serve_partial-Identity s v system_output = record {
    distinct = v.distinct;
    valid = v.valid;
    microphone_ok = v.microphone_ok;
    system_output_ok = tt;
    apart = Apart-none s.partials.microphone_slot;
  }

  Apart-left :
      (j : Job S) (o : Option (Job S))
      → ((k : Job S) → o ≡ some k → k.job_id ≢ j.job_id)
      → Apart (some j) o
  Apart-left j none h = tt
  Apart-left j (some k) h = λ e. h k refl (sym e)

  Apart-right :
      (o : Option (Job S)) (j : Job S)
      → ((k : Job S) → o ≡ some k → k.job_id ≢ j.job_id)
      → Apart o (some j)
  Apart-right none j h = tt
  Apart-right (some k) j h = h k refl

  -- An id that `submit_partial` lets in is not queued, and not in the other source's slot.
  fresh_other :
      (s : Scheduler S) (i : ℕ) (a : AudioSource) (j : Job S)
      → partial_duplicate s i a ≡ false
      → Apart s.partials.microphone_slot s.partials.system_output_slot
      → slot s.partials (other_source a) ≡ some j
      → j.job_id ≢ i
  unfolding partial_duplicate
  fresh_other s i microphone j h d e = ground arith
  fresh_other s i system_output j h d e = ground arith

  fresh-Unused :
      (s : Scheduler S) (i : ℕ) (a : AudioSource)
      → partial_duplicate s i a ≡ false
      → Unused i s.finals
  unfolding partial_duplicate
  fresh-Unused s i a h = not_any-Unused i s.finals (ground arith)

  place_partial-Identity :
      (s : Scheduler S) (i : ℕ) (r : TranscriptionRequest S)
      → IsValid f r
      → partial_duplicate s i r.source ≡ false
      → Identity s
      → Identity (place_partial s (owned i r)).0
  unfolding place_partial update_peaks
  place_partial-Identity s i r u free v =
      if_elim (λ (o : Scheduler S × Submission PartialSubmission). Identity o.0)
        (is_some (slot s.partials r.source)) (λ _. placed _ refl refl) (λ _. placed _ refl refl)
    where
      job : Job S
      job = record { owned = owned i r; sequence = s.next_sequence; kind = partial }

      unused : Unused i s.finals
      unused = fresh-Unused s i r.source free

      -- Whatever else changes, the job stands alone in its source's slot.
      by_source :
          (a : AudioSource)
          → r.source ≡ a
          → (t : Scheduler S) → t.finals ≡ s.finals
          → t.partials ≡ set_slot s.partials a (some job)
          → Identity t
      by_source microphone e t h k =
          same_jobs (record s { partials = set_slot s.partials microphone (some job) }) t h k
            (record {
              distinct = v.distinct;
              valid = v.valid;
              microphone_ok = (e, refl, u, unused);
              system_output_ok = v.system_output_ok;
              apart = Apart-left job s.partials.system_output_slot λ k g.
                  fresh_other s i microphone k (subst (λ a. partial_duplicate s i a ≡ false) e free)
                    v.apart g;
            })
      by_source system_output e t h k =
          same_jobs (record s { partials = set_slot s.partials system_output (some job) }) t h k
            (record {
              distinct = v.distinct;
              valid = v.valid;
              microphone_ok = v.microphone_ok;
              system_output_ok = (e, refl, u, unused);
              apart = Apart-right s.partials.microphone_slot job λ k g.
                  fresh_other s i system_output k
                    (subst (λ a. partial_duplicate s i a ≡ false) e free) v.apart g;
            })

      placed :
          (t : Scheduler S)
          → t.finals ≡ s.finals
          → t.partials ≡ set_slot s.partials r.source (some job)
          → Identity t
      placed t h k = by_source r.source refl t h k

  -- Every call keeps the ids apart and the waiting requests valid.
  pub step-Identity : (s : Scheduler S) (c : Call S) → Identity s → Identity (step f s c)
  unfolding step discard_partials
  step-Identity s (submits_final i r) v =
      submit_final_cases f Identity s i r v λ u free. place_final-Identity s i r u free v
  step-Identity s (submits_partial i r) v =
      submit_partial_cases f Identity s i r v (λ d. same_jobs s _ refl refl v)
        λ u free _. place_partial-Identity s i r u free v
  step-Identity s takes v =
      next_job_cases Identity s (next_final_job-Identity s v)
        λ _. next_partial_job_cases Identity s v (serve_partial-Identity s v)
  step-Identity s takes_final v = next_final_job-Identity s v
  step-Identity s takes_partial v = next_partial_job_cases Identity s v (serve_partial-Identity s v)
  step-Identity s discards v = cleared-Identity s _ refl refl v

pub default-Identity : {S : Type 0} (f : SampleTests S) → Identity f default
unfolding default
default-Identity f = record {
  distinct = tt;
  valid = tt;
  microphone_ok = tt;
  system_output_ok = tt;
  apart = tt;
}
