-- ===== src/Transcription/Fallback.antt =====
-- transcription/fallback.rs: `CpuFallbackEngine`, an engine made of two engines. Each of the two is a
-- state with an answer to each request; so is the whole.
mod Tests
use kokoro_koe.Prelude.{
  ℕ, ◌≡◌, refl, ap, ◌∙◌, Option, none, some, List, [], ◌∷◌, ◌++◌, take, drop, All, sat_add, suc,
}
use kokoro_koe.Transcription.Request.{
  SampleTests, TranscriptionRequest, Result, ok, err, TranscriptionError, validate, IsValid,
  validate_complete,
}
use kokoro_koe.Transcription.Pipeline.{Engine, TranscriptionResult}

-- `CpuFallbackDiagnostics`
pub record FallbackDiagnostics : Type 0 where
  pub acceleration_startup_failures : ℕ
  pub acceleration_inference_failures : ℕ
  pub accelerated_results : ℕ
  pub cpu_fallback_attempts : ℕ
  pub cpu_fallback_results : ℕ

-- `CpuFallbackEngine`
pub record FallbackEngine (A C : Type 0) : Type 0 where
  pub accelerated : Option A
  pub cpu : C
  pub diagnostics : FallbackDiagnostics

abbrev pub diagnostics_from : ℕ → FallbackDiagnostics
diagnostics_from startup_failures = record {
  acceleration_startup_failures = startup_failures;
  acceleration_inference_failures = 0;
  accelerated_results = 0;
  cpu_fallback_attempts = 0;
  cpu_fallback_results = 0;
}

unfoldable pub new_fallback : {A C : Type 0} → Result A → C → FallbackEngine A C
new_fallback (ok engine) cpu = record {
  accelerated = some engine;
  cpu = cpu;
  diagnostics = diagnostics_from 0;
}
new_fallback (err e) cpu = record {
  accelerated = none;
  cpu = cpu;
  diagnostics = diagnostics_from 1;
}

-- `transcribe` after the answer of the processor
unfoldable pub answered_by_cpu :
    {A C : Type 0}
    → FallbackEngine A C
    → C × Result TranscriptionResult
    → FallbackEngine A C × Result TranscriptionResult
answered_by_cpu st (cpu, err e) = (record st { cpu = cpu }, err e)
answered_by_cpu st (cpu, ok result) = (
  record st {
    cpu = cpu;
    diagnostics = record st.diagnostics {
      cpu_fallback_results = sat_add st.diagnostics.cpu_fallback_results 1;
    };
  },
  ok result,
)

module _ {S A C : Type 0} where
  unfoldable pub ask_cpu :
      Engine S C
      → FallbackEngine A C
      → TranscriptionRequest S
      → FallbackEngine A C × Result TranscriptionResult
  unfolding answered_by_cpu
  ask_cpu ec st r =
      answered_by_cpu
        (record st {
          diagnostics = record st.diagnostics {
            cpu_fallback_attempts = sat_add st.diagnostics.cpu_fallback_attempts 1;
          };
        })
        (ec.transcribe st.cpu r)

  -- `transcribe` after the answer of the accelerated engine
  unfoldable pub answered_by_accelerated :
      Engine S C
      → FallbackEngine A C
      → TranscriptionRequest S
      → A × Result TranscriptionResult
      → FallbackEngine A C × Result TranscriptionResult
  unfolding ask_cpu
  answered_by_accelerated ec st r (a, ok result) = (
    record st {
      accelerated = some a;
      diagnostics = record st.diagnostics {
        accelerated_results = sat_add st.diagnostics.accelerated_results 1;
      };
    },
    ok result,
  )
  answered_by_accelerated ec st r (a, err e) =
      ask_cpu ec
        (record st {
          accelerated = none;
          diagnostics = record st.diagnostics {
            acceleration_inference_failures =
                sat_add st.diagnostics.acceleration_inference_failures 1;
          };
        })
        r

  unfoldable pub ask_accelerated :
      Engine S A
      → Engine S C
      → FallbackEngine A C
      → TranscriptionRequest S
      → Option A
      → FallbackEngine A C × Result TranscriptionResult
  unfolding answered_by_accelerated ask_cpu
  ask_accelerated ea ec st r none = ask_cpu ec st r
  ask_accelerated ea ec st r (some a) = answered_by_accelerated ec st r (ea.transcribe a r)

  unfoldable pub transcribe_validated :
      Engine S A
      → Engine S C
      → FallbackEngine A C
      → Result (TranscriptionRequest S)
      → FallbackEngine A C × Result TranscriptionResult
  unfolding ask_accelerated
  transcribe_validated ea ec st (err e) = (st, err e)
  transcribe_validated ea ec st (ok r) = ask_accelerated ea ec st r st.accelerated

  -- `TranscriptionEngine for CpuFallbackEngine`
  unfoldable pub with_fallback :
      SampleTests S → Engine S A → Engine S C → Engine S (FallbackEngine A C)
  unfolding transcribe_validated
  with_fallback f ea ec = record {
    transcribe = λ st r. transcribe_validated ea ec st (validate f r);
  }

-- The answers of an engine to requests that follow each other.
abbrev pub answers :
    {S E : Type 0}
    → Engine S E
    → E
    → List (TranscriptionRequest S)
    → List (Result TranscriptionResult)
answers en e [] = []
answers en e (r ∷ rs) = let (e', out) = en.transcribe e r in out ∷ answers en e' rs

abbrev is_answer : Result TranscriptionResult → ℕ → ℕ
is_answer (ok result) later = suc later
is_answer (err e) later = 0

-- How many of the requests an engine answers before the first that it fails.
abbrev pub served : {S E : Type 0} → Engine S E → E → List (TranscriptionRequest S) → ℕ
served en e [] = 0
served en e (r ∷ rs) =
    let (e', out) = en.transcribe e r in let rest = served en e' rs in is_answer out rest

-- What is to be answered: the accelerated engine answers up to its first failure, and the processor
-- answers the request that failed and all later ones; without an accelerated engine the processor
-- answers all.
abbrev pub accelerated_then_cpu :
    {S A C : Type 0}
    → Engine S A
    → Engine S C
    → Result A
    → C
    → List (TranscriptionRequest S)
    → List (Result TranscriptionResult)
accelerated_then_cpu ea ec (err e) c rs = answers ec c rs
accelerated_then_cpu ea ec (ok a) c rs =
    let n = served ea a rs in take n (answers ea a rs) ++ answers ec c (drop n rs)

-- The processor's answer is passed on; of the rest only the counts change.
ask_cpu-cases :
    {S A C : Type 0} (ec : Engine S C) (st : FallbackEngine A C) (r : TranscriptionRequest S)
    → (d : FallbackDiagnostics) × (ask_cpu ec st r ≡ (
      record st { cpu = (ec.transcribe st.cpu r).0; diagnostics = d },
      (ec.transcribe st.cpu r).1,
    ))
unfolding ask_cpu answered_by_cpu
ask_cpu-cases {A = A} {C = C} ec st r = by_answer (ec.transcribe st.cpu r)
  where
    counted : FallbackEngine A C
    counted = record st {
      diagnostics = record st.diagnostics {
        cpu_fallback_attempts = sat_add st.diagnostics.cpu_fallback_attempts 1;
      };
    }

    by_answer :
        (p : C × Result TranscriptionResult)
        → (d : FallbackDiagnostics) × (answered_by_cpu counted p
            ≡ (record st { cpu = p.0; diagnostics = d }, p.1))
    by_answer (c, ok result) = (_, refl)
    by_answer (c, err e) = (_, refl)

module _ {S A C : Type 0} (f : SampleTests S) (ea : Engine S A) (ec : Engine S C) where
  answers-without :
      (d : FallbackDiagnostics) (c : C) (rs : List (TranscriptionRequest S))
      → All (IsValid f) rs
      → answers (with_fallback f ea ec) (record { accelerated = none; cpu = c; diagnostics = d }) rs
        ≡ answers ec c rs
  unfolding with_fallback transcribe_validated ask_accelerated
  answers-without d c [] v = refl
  answers-without d c (r ∷ rs) v =
      let asked =
        ask_cpu-cases {A = A} ec (record { accelerated = none; cpu = c; diagnostics = d }) r in
      rw (validate_complete f r v.0, asked.1)
        (ap (◌∷◌ (ec.transcribe c r).1) (answers-without asked.0 (ec.transcribe c r).0 rs v.1))

  answers-with_fallback :
      (st : FallbackEngine A C) (a : A) (rs : List (TranscriptionRequest S))
      → st.accelerated ≡ some a
      → All (IsValid f) rs
      → answers (with_fallback f ea ec) st rs
        ≡ take (served ea a rs) (answers ea a rs) ++ answers ec st.cpu (drop (served ea a rs) rs)
  unfolding with_fallback transcribe_validated ask_accelerated answered_by_accelerated
  answers-with_fallback st a [] e v = refl
  answers-with_fallback st a (r ∷ rs) e v =
      rw (validate_complete f r v.0, e)
        (by_answer (ea.transcribe a r) (λ st' a' e'. answers-with_fallback st' a' rs e' v.1))
    where
      by_answer :
          (p : A × Result TranscriptionResult)
          → ((st' : FallbackEngine A C) (a' : A)
              → st'.accelerated ≡ some a'
              → answers (with_fallback f ea ec) st' rs
                ≡ take (served ea a' rs) (answers ea a' rs)
                  ++ answers ec st'.cpu (drop (served ea a' rs) rs))
          → (answered_by_accelerated ec st r p).1
              ∷ answers (with_fallback f ea ec) (answered_by_accelerated ec st r p).0 rs
            ≡ take (is_answer p.1 (served ea p.0 rs)) (p.1 ∷ answers ea p.0 rs)
              ++ answers ec st.cpu (drop (is_answer p.1 (served ea p.0 rs)) (r ∷ rs))
      by_answer (a', ok result) later =
          ap (◌∷◌ (ok result)) (later (answered_by_accelerated ec st r (a', ok result)).0 a' refl)
      by_answer (a', err code) later =
          let asked = ask_cpu-cases ec failed r in
          rw asked.1 (
            ap (◌∷◌ (ec.transcribe st.cpu r).1)
              (answers-without asked.0 (ec.transcribe st.cpu r).0 rs v.1))
        where
          failed : FallbackEngine A C
          failed = record st {
            accelerated = none;
            diagnostics = record st.diagnostics {
              acceleration_inference_failures =
                  sat_add st.diagnostics.acceleration_inference_failures 1;
            };
          }

  -- A new engine with a fallback, whether its accelerated engine has started or not, answers valid
  -- requests as `accelerated_then_cpu` says: each request is answered, the accelerated engine is not
  -- asked again after its first failure, and the request that it failed goes to the processor.
  pub answers-new_fallback :
      (accelerated : Result A) (cpu : C) (rs : List (TranscriptionRequest S))
      → All (IsValid f) rs
      → answers (with_fallback f ea ec) (new_fallback accelerated cpu) rs
        ≡ accelerated_then_cpu ea ec accelerated cpu rs
  unfolding new_fallback
  answers-new_fallback (ok a) cpu rs v = answers-with_fallback (new_fallback (ok a) cpu) a rs refl v
  answers-new_fallback (err e) cpu rs v = answers-without (diagnostics_from 1) cpu rs v
