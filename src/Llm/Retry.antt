-- ===== src/Llm/Retry.antt =====
-- llm/retry.rs: `complete_with_retry`. The service that sends a request, the clock that waits and the
-- source of new request ids are an interface on the state `W` of the program; a content is of any type
-- `C`, an id a number and a duration a number of milliseconds.
pub mod Sent
mod Tests
use Prim.Native.String.{String}
use kokoro_koe.Prelude.{
  ℕ, zero, suc, ◌+◌, ◌-◌, ◌≤◌, ◌≡◌, ◌≢◌, refl, Bool, true, false, not, ◌||◌, ◌&&◌, ◌==◌,
  if◌then◌else◌, if_elim, any, Option, none, some, List, [], ◌∷◌, ◌++◌, map, length, unwrap_or, All,
  arith,
}
use text.Mathlib.Text.{◌==◌ as str_eq}

abbrev pub max_attempts : ℕ
max_attempts = 3

-- `FALLBACK_BACKOFF`, by the number of the attempt that failed
abbrev pub fallback_backoff : ℕ → ℕ
fallback_backoff attempt = if attempt == 1 then 250 else 1000

-- `ReservationDisposition`
pub data Disposition : Type 0 where
  not_reserved released retained reconciled : Disposition

-- `CompletionError`
pub record CompletionError : Type 0 where
  pub code : String
  pub reservation : Disposition
  pub retry_after : Option ℕ

-- The answer to a request
pub data Answer {ℓ} (C : Type ℓ) : Type ℓ where
  completed : C → Answer C
  failed : CompletionError → Answer C

-- `RetriedCompletion`, an error, or a panic
pub data Retried {ℓ} (C : Type ℓ) : Type ℓ where
  returned : C → ℕ → Retried C
  raised : CompletionError → Retried C
  panicked : Retried C

-- `stream_completion`, and `RetryRuntime`: `wait` says whether the call goes on.
pub record Service (W C : Type 0) : Type 0 where
  pub stream_completion : W → ℕ → W × Answer C
  pub wait : W → ℕ → W × Bool
  pub next_request_id : W → W × ℕ

abbrev pub is_settled : Disposition → Bool
is_settled released = true
is_settled reconciled = true
is_settled _ = false

unfoldable pub should_retry : CompletionError → Bool
should_retry e =
    is_settled e.reservation
    && (str_eq e.code "completion_rate_limited"
        || str_eq e.code "completion_provider_overloaded"
        || str_eq e.code "completion_provider_unavailable"
        || str_eq e.code "completion_provider_requirements_unavailable"
        || str_eq e.code "completion_timeout"
        || str_eq e.code "completion_network_unavailable")

abbrev pub not_sent : String → CompletionError
not_sent code = record { code = code; reservation = not_reserved; retry_after = none }

module _ {W C : Type 0} (sv : Service W C) where
  -- After the wait: a new id, and the next attempt with it.
  unfoldable pub go_on : List ℕ → (W → ℕ → W × Retried C) → W × Bool → W × Retried C
  go_on used next (w, false) = (w, raised (not_sent "completion_cancelled"))
  go_on used next (w, true) =
      let (w', id) = sv.next_request_id w in
      if any (λ i. i == id) used
      then (w', raised (not_sent "completion_request_duplicate"))
      else next w' id

  -- After the answer to an attempt
  unfoldable pub answered : ℕ → List ℕ → (W → ℕ → W × Retried C) → W × Answer C → W × Retried C
  unfolding go_on should_retry
  answered attempt used next (w, completed c) = (w, returned c attempt)
  answered attempt used next (w, failed e) =
      if attempt == max_attempts || not (should_retry e)
      then (w, raised e)
      else go_on used next (sv.wait w (unwrap_or e.retry_after (fallback_backoff attempt)))

  -- The loop, with the number of attempts that are left: behind the last it panics.
  unfoldable pub attempts : ℕ → ℕ → List ℕ → W → ℕ → W × Retried C
  unfolding answered
  attempts zero attempt used w id = (w, panicked)
  attempts (suc left) attempt used w id =
      answered attempt (used ++ id ∷ [])
        (λ w' id'. attempts left (suc attempt) (used ++ id ∷ []) w' id') (sv.stream_completion w id)

  unfoldable pub complete_with_retry : W → ℕ → W × Retried C
  unfolding attempts
  complete_with_retry w id = attempts max_attempts 1 [] w id
