-- ===== src/Audio/Vad/Handoff.antt =====
-- audio/vad.rs and transcription/model.rs: which utterances a transcription request can be made of.
use kokoro_koe.Prelude.{
  ◌+◌, ◌≤◌, ◌<◌, ◌≡◌, refl, true, false, not, ◌||◌, List, [], ◌∷◌, some, ltb, arith, u64_max,
  length, any, length-append,
}
use kokoro_koe.Transcription.Request.{
  AudioSource, SampleTests, TranscriptionRequest, invalid_audio, ok, err, validate,
  validate_complete,
}
use kokoro_koe.Audio.Vad.{
  Utterance, Active, Segmenter, Predictor, no_outcome, minimum_speech_samples,
  max_utterance_samples,
}
use kokoro_koe.Audio.Vad.Frame.{emit}
use kokoro_koe.Audio.Vad.Ops.{finish, finish_outcome}
use kokoro_koe.Audio.Vad.Sizes.{IsSound, IsClean}

-- `TranscriptionRequest::from` of a detected utterance
abbrev pub request_of : {S : Type 0} → Utterance S → TranscriptionRequest S
request_of u = record {
  source = u.source;
  start_ms = u.start_ms;
  end_ms = u.end_ms;
  samples = u.samples;
}

module _ {S : Type 0} (f : SampleTests S)
    (finite : (s : S) → f.in_unit s ≡ true → f.is_finite s ≡ true) where
  clean_request :
      (xs : List S) → IsClean f xs → any (λ s. not (f.is_finite s) || not (f.in_unit s)) xs ≡ false
  clean_request [] c = refl
  clean_request (x ∷ xs) c = ground (arith, finite x, clean_request xs)

  -- A sound utterance of at most 30 seconds that starts at least that long before the end of time
  -- passes the validation of transcription requests, if numbers between -1 and 1 are finite.
  pub sound-valid :
      (source : AudioSource) (u : Utterance S)
      → IsSound f source u
      → length u.samples ≤ max_utterance_samples
      → u.start_ms + 30000 ≤ u64_max
      → validate f (request_of u) ≡ ok (request_of u)
  sound-valid source u s b t = validate_complete f (request_of u) (record {
    nonempty = omega (arith, s.spoken);
    bounded = b;
    in_range = clean_request u.samples s.clean;
    forward = omega (arith, s.timed, s.spoken, b, t);
    timed = omega (arith, s.timed, b, t);
  })

-- An utterance that is longer than a request may be, when the samples that are still pending are
-- added to it, is reported by `finish` all the same, and validation refuses it.
pub finish-refused :
    {S D : Type 0} (f : SampleTests S) (p : Predictor S D) (st : Segmenter S D) (a : Active S)
    → st.active ≡ some a
    → minimum_speech_samples ≤ a.speech_samples
    → max_utterance_samples < length a.samples + length st.pending
    → (u : Utterance S) × ((finish p st).1.utterances ≡ u ∷ [])
      × (validate f (request_of u) ≡ err invalid_audio)
unfolding finish finish_outcome no_outcome emit validate
finish-refused f p st a h s l =
    rw (h, too_short) (_, refl, rw (length-append a.samples st.pending, too_long) (ground arith))
  where
    too_short : ltb a.speech_samples minimum_speech_samples ≡ false
    too_short = ground arith

    too_long : ltb max_utterance_samples (length a.samples + length st.pending) ≡ true
    too_long = ground arith
