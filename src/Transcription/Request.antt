-- ===== src/Transcription/Request.antt =====
-- transcription/model.rs: a transcription request and its validation; audio/model.rs: the sources.
use Prim.Native.Nat.{◌≤◌}
use kokoro_koe.Prelude.{
  ℕ, ◌+◌, ◌-◌, ◌*◌, ◌/◌, ◌<◌, ◌≡◌, Bool, false, not, ◌||◌, List, arith, ltb, leb, ◌==◌,
  if◌then◌else◌, length, any, is_empty, mul64,
}

-- `AudioSource`
pub data AudioSource : Type 0 where
  microphone system_output : AudioSource

-- `TranscriptionError`
pub data TranscriptionError : Type 0 where
  adapter_unavailable adapter_incompatible model_unavailable model_load_failed : TranscriptionError
  unsupported_language backend_unavailable invalid_audio invalid_timeline : TranscriptionError
  inference_failed invalid_native_result worker_startup_failed : TranscriptionError
  worker_protocol_failed worker_write_timeout worker_inference_timeout : TranscriptionError
  worker_cancelled worker_terminated : TranscriptionError

-- `Result<T, TranscriptionError>`
pub data Result {ℓ} (A : Type ℓ) : Type ℓ where
  ok : A → Result A
  err : TranscriptionError → Result A

-- What the code asks of an `f32`: `is_finite()` and `(-1.0..=1.0).contains`.
pub record SampleTests (S : Type 0) : Type 0 where
  pub is_finite : S → Bool
  pub in_unit : S → Bool

-- `TranscriptionRequest`
pub record TranscriptionRequest (S : Type 0) : Type 0 where
  pub source : AudioSource
  pub start_ms : ℕ
  pub end_ms : ℕ
  pub samples : List S

abbrev pub transcription_sample_rate : ℕ
transcription_sample_rate = 16000

abbrev pub max_transcription_samples : ℕ
max_transcription_samples = 480000

-- `samples.len() as u64 * 1_000 / TRANSCRIPTION_SAMPLE_RATE as u64`
abbrev pub samples_ms : ℕ → ℕ
samples_ms n = mul64 n 1000 / transcription_sample_rate

-- `saturating_sub` is `-`, which stops at 0.
unfoldable pub validate :
    {S : Type 0} → SampleTests S → TranscriptionRequest S → Result (TranscriptionRequest S)
validate f r =
    if is_empty r.samples || ltb max_transcription_samples (length r.samples)
    then err invalid_audio
    else if any (λ s. not (f.is_finite s) || not (f.in_unit s)) r.samples
    then err invalid_audio
    else if leb r.end_ms r.start_ms || not (r.end_ms - r.start_ms == samples_ms (length r.samples))
    then err invalid_timeline
    else ok r

-- What an accepted request promises.
pub record IsValid {S : Type 0} (f : SampleTests S) (r : TranscriptionRequest S) : Type 0 where
  pub nonempty : 0 < length r.samples
  pub bounded : length r.samples ≤ max_transcription_samples
  pub in_range : any (λ s. not (f.is_finite s) || not (f.in_unit s)) r.samples ≡ false
  pub forward : r.start_ms < r.end_ms
  pub timed : r.end_ms ≡ r.start_ms + length r.samples * 1000 / transcription_sample_rate

pub validate_sound :
    {S : Type 0} (f : SampleTests S) (r q : TranscriptionRequest S)
    → validate f r ≡ ok q
    → IsValid f r × (q ≡ r)
unfolding validate
validate_sound f r q h = ground arith

pub validate_complete :
    {S : Type 0} (f : SampleTests S) (r : TranscriptionRequest S)
    → IsValid f r
    → validate f r ≡ ok r
unfolding validate
validate_complete f r v = ground arith

-- What validation accepts is a valid request, returned unchanged, and every valid request is
-- accepted.
pub validate_exact :
    {S : Type 0} (f : SampleTests S) (r : TranscriptionRequest S)
    → ((q : TranscriptionRequest S) → validate f r ≡ ok q → IsValid f r × (q ≡ r))
      × (IsValid f r → validate f r ≡ ok r)
validate_exact f r = (validate_sound f r, validate_complete f r)
