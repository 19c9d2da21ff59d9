-- ===== src/Transcription/Scheduler/Cases.antt =====
-- Case rules for the methods of the scheduler: what a property of the result comes down to.
use mathlib.Core.Path.{subst}
use kokoro_koe.Prelude.{
  ℕ, ◌≡◌, refl, sym, inl, inr, true, false, List, [], ◌∷◌, none, some, any, Bool-cases, if_elim,
  not, Option-cases, ◌==◌, arith, ◌⊎◌,
}
use kokoro_koe.Transcription.Request.{
  AudioSource, SampleTests, TranscriptionRequest, TranscriptionError, IsValid, validate,
  validate_sound, validate_complete, ok, err, Result,
}
use kokoro_koe.Transcription.Scheduler.{
  Job, OwnedRequest, Scheduler, Submission, PartialSubmission, slot, remove_id, other_source,
  update_partial_mode,
}
use kokoro_koe.Transcription.Scheduler.Ops.{
  place_final, submit_final, place_partial, submit_partial, partial_duplicate, serve_partial,
  pop_final, next_final_job, next_partial_job, next_job,
}

abbrev pub owned : {S : Type 0} → ℕ → TranscriptionRequest S → OwnedRequest S
owned i r = record { job_id = i; request = r }

-- The scheduler on which `submit_final` goes on once the request is accepted.
abbrev pub without_partial : {S : Type 0} → Scheduler S → ℕ → Scheduler S
without_partial s i = record s { partials = remove_id s.partials i }

pub Result-cases {ℓ} :
    {A : Type ℓ} (o : Result A) → ((a : A) × (o ≡ ok a)) ⊎ ((e : TranscriptionError) × (o ≡ err e))
Result-cases (ok a) = inl (a, refl)
Result-cases (err e) = inr (e, refl)

pub List-cases {ℓ} :
    {A : Type ℓ} (xs : List A) → (xs ≡ []) ⊎ ((y : A) × (ys : List A) × (xs ≡ y ∷ ys))
List-cases [] = inl refl
List-cases (x ∷ xs) = inr (x, xs, refl)

module _ {S : Type 0} (f : SampleTests S) where
  pub submit_final_cases {ℓ} :
      (P : Scheduler S → Type ℓ) (s : Scheduler S) (i : ℕ) (r : TranscriptionRequest S)
      → P s
      → (IsValid f r
          → any (λ j. j.job_id == i) s.finals ≡ false
          → P (place_final (without_partial s i) (owned i r)).0)
      → P (submit_final f s i r).0
  unfolding submit_final
  submit_final_cases P s i r same placed = elim (Result-cases (validate f r)) [
    | inr (e, h) ↦ rw (h, submit_final) same
    | inl (q, h) ↦
        let v = (validate_sound f r q h).0 in
        rw (validate_complete f r v, submit_final)
          (elim (Bool-cases (any (λ j. j.job_id == i) s.finals)) [
            | inl used ↦ rw used same
            | inr free ↦ rw free (placed v free)
          ])
  ]

  pub submit_partial_cases {ℓ} :
      (P : Scheduler S → Type ℓ) (s : Scheduler S) (i : ℕ) (r : TranscriptionRequest S)
      → P s
      → ((n : ℕ)
          → P (record s { diagnostics = record (s.diagnostics) { partials_suppressed = n } }))
      → (IsValid f r
          → partial_duplicate s i r.source ≡ false
          → s.partials_enabled ≡ true
          → P (place_partial s (owned i r)).0)
      → P (submit_partial f s i r).0
  unfolding submit_partial
  submit_partial_cases P s i r same counted placed = elim (Result-cases (validate f r)) [
    | inr (e, h) ↦ rw (h, submit_partial) same
    | inl (q, h) ↦
        let v = (validate_sound f r q h).0 in
        rw (validate_complete f r v, submit_partial)
          (elim (Bool-cases (partial_duplicate s i r.source)) [
            | inl used ↦ rw used same
            | inr free ↦ rw free (
                if_elim (λ (o : Scheduler S × Submission PartialSubmission). P o.0)
                  (not s.partials_enabled) (λ off. counted _) (λ on. placed v free (ground arith)))
          ])
  ]

module _ {S : Type 0} where
  pub next_partial_job_cases {ℓ} :
      (P : Scheduler S → Type ℓ) (s : Scheduler S)
      → P s
      → ((a : AudioSource) → P (serve_partial s a))
      → P (next_partial_job s).0
  unfolding next_partial_job
  next_partial_job_cases P s same served =
      elim (Option-cases (slot s.partials s.next_partial_source)) [
        | inr (j, e) ↦ rw (e, next_partial_job) (served s.next_partial_source)
        | inl e ↦
            rw (e, next_partial_job)
              (elim (Option-cases (slot s.partials (other_source s.next_partial_source))) [
                | inr (j, h) ↦
                    rw (h, next_partial_job) (served (other_source s.next_partial_source))
                | inl h ↦ rw (h, next_partial_job) same
              ])
      ]

  pub next_final_job_empty : (s : Scheduler S) → s.finals ≡ [] → next_final_job s ≡ (s, none)
  unfolding next_final_job
  next_final_job_empty s e = ground arith

  pub next_final_job_pops :
      (s : Scheduler S) (j : Job S) (rest : List (Job S))
      → s.finals ≡ j ∷ rest
      → (next_final_job s).0 ≡ update_partial_mode (pop_final s j rest)
  unfolding next_final_job
  next_final_job_pops s j rest e = ground arith

  pub next_final_job_taken :
      (s : Scheduler S) (j : Job S) (rest : List (Job S))
      → s.finals ≡ j ∷ rest
      → (next_final_job s).1 ≡ some j
  unfolding next_final_job
  next_final_job_taken s j rest e = ground arith

  pub next_final_job_cases {ℓ} :
      (P : Scheduler S → Type ℓ) (s : Scheduler S)
      → P s
      → ((j : Job S) (rest : List (Job S))
          → s.finals ≡ j ∷ rest
          → P (update_partial_mode (pop_final s j rest)))
      → P (next_final_job s).0
  next_final_job_cases P s same taken = elim (List-cases s.finals) [
    | inl e ↦ rw (next_final_job_empty s e) same
    | inr (y, ys, e) ↦ subst P (sym (next_final_job_pops s y ys e)) (taken y ys e)
  ]

  pub next_job_cases {ℓ} :
      (P : Scheduler S → Type ℓ) (s : Scheduler S)
      → P (next_final_job s).0
      → (s.finals ≡ [] → P (next_partial_job s).0)
      → P (next_job s).0
  unfolding next_job
  next_job_cases P s fin part = elim (List-cases s.finals) [
    | inl e ↦ simp (next_final_job_empty s e, next_job) (part e)
    | inr (y, ys, e) ↦ rw (next_final_job_taken s y ys e, next_job) fin
  ]
