-- ===== src/Transcription/Fallback/Tests.antt =====
-- An engine that fails its second request, with a fallback.
use kokoro_koe.Prelude.{ℕ, ◌+◌, ◌≡◌, refl, Bool, true, List, [], ◌∷◌, arith, if◌then◌else◌, ltb}
use kokoro_koe.Transcription.Request.{
  microphone, SampleTests, TranscriptionRequest, ok, err, inference_failed, IsValid,
}
use kokoro_koe.Transcription.Pipeline.{Engine, TranscriptionResult}
use kokoro_koe.Transcription.Fallback.{
  with_fallback, new_fallback, answers, accelerated_then_cpu, answers-new_fallback,
}

abbrev any_sample : SampleTests Bool
any_sample = record { is_finite = λ _. true; in_unit = λ _. true }

abbrev request_at : ℕ → TranscriptionRequest Bool
request_at t = record {
  source = microphone;
  start_ms = t;
  end_ms = t + 1;
  samples =
      true ∷ true ∷ true ∷ true ∷ true ∷ true ∷ true ∷ true ∷ true ∷ true ∷ true ∷ true ∷ true
      ∷ true ∷ true ∷ true ∷ [];
}

abbrev result_of : ℕ → TranscriptionRequest Bool → TranscriptionResult
result_of word r = record {
  source = r.source;
  utterance_start_ms = r.start_ms;
  utterance_end_ms = r.end_ms;
  language = [];
  text = word ∷ [];
  segments = [];
}

-- It answers one request.
abbrev once : Engine Bool ℕ
once = record {
  transcribe = λ n r. (n + 1, if ltb n 1 then ok (result_of 1 r) else err inference_failed);
}

abbrev always : Engine Bool ℕ
always = record { transcribe = λ n r. (n + 1, ok (result_of 2 r)) }

abbrev requests : List (TranscriptionRequest Bool)
requests = request_at 10 ∷ request_at 20 ∷ request_at 30 ∷ []

request_at-IsValid : (t : ℕ) → IsValid any_sample (request_at t)
request_at-IsValid t = record {
  nonempty = omega arith;
  bounded = omega arith;
  in_range = refl;
  forward = omega arith;
  timed = refl;
}

takes_over :
    accelerated_then_cpu once always (ok 0) 0 requests
    ≡ ok (result_of 1 (request_at 10))
      ∷ ok (result_of 2 (request_at 20))
      ∷ ok (result_of 2 (request_at 30))
      ∷ []
takes_over = refl

answers-new_fallback_example :
    answers (with_fallback any_sample once always) (new_fallback (ok 0) 0) requests
    ≡ accelerated_then_cpu once always (ok 0) 0 requests
answers-new_fallback_example =
    answers-new_fallback any_sample once always (ok 0) 0 requests
      (request_at-IsValid 10, (request_at-IsValid 20, (request_at-IsValid 30, tt)))
