-- ===== src/Audio/Vad/Tests.antt =====
-- Runs of the segmenter on small inputs, and the theorems at them. A sample is a truth value, every
-- sample is in range, and a frame is speech when its first sample is true.
use kokoro_koe.Prelude.{
  ℕ, zero, suc, ◌+◌, ◌/◌, ◌%◌, ◌≡◌, refl, ap, Bool, true, false, List, [], ◌∷◌, some, length, arith,
  any, not,
}
use kokoro_koe.Transcription.Request.{microphone, SampleTests, ok, err, invalid_audio, validate}
use kokoro_koe.Audio.Vad.{
  Predictor, Active, Segmenter, segmenter, Utterance, end_of_stream, vad_frame_samples,
}
use kokoro_koe.Audio.Vad.Ops.{pushes, push, finish, step}
use kokoro_koe.Audio.Vad.Sizes.{IsSound}
use kokoro_koe.Audio.Vad.Emitted.{Kept, segmenter-Inv, step-Kept}
use kokoro_koe.Audio.Vad.Counts.{push_frames}
use kokoro_koe.Audio.Vad.Handoff.{request_of, sound-valid, finish-refused}

abbrev any_sample : SampleTests Bool
any_sample = record { is_finite = λ _. true; in_unit = λ _. true }

abbrev first_sample : List Bool → Bool
first_sample [] = false
first_sample (b ∷ bs) = b

abbrev judges_first : Predictor Bool (Unit {0})
judges_first = record { predict = λ d frame. (d, first_sample frame); reset = λ d. d }

-- `n` samples of one value
repeat : ℕ → Bool → List Bool
repeat zero b = []
repeat (suc n) b = b ∷ repeat n b

length-repeat : (n : ℕ) (b : Bool) → length (repeat n b) ≡ n
unfolding repeat
length-repeat zero b = refl
length-repeat (suc n) b = ap suc (length-repeat n b)

abbrev fresh : Segmenter Bool (Unit {0})
fresh = segmenter microphone tt

step-Kept_example :
    Kept any_sample fresh
      (step any_sample judges_first fresh (pushes microphone 40 (repeat 600 true)))
step-Kept_example =
    step-Kept any_sample judges_first fresh (pushes microphone 40 (repeat 600 true))
      (segmenter-Inv any_sample microphone tt)

push_frames_example :
    let r = push any_sample judges_first fresh microphone 40 (true ∷ false ∷ true ∷ []) in
    (r.1.frames_analyzed ≡ 3 / vad_frame_samples)
    × (r.1.pending_samples ≡ 3 % vad_frame_samples)
    × (r.1.speech_frames + r.1.silence_frames ≡ r.1.frames_analyzed)
unfolding segmenter
push_frames_example =
    push_frames any_sample judges_first fresh 40 (true ∷ false ∷ true ∷ []) refl refl (omega arith)

-- Half a second of speech
abbrev utterance : Utterance Bool
utterance = record {
  source = microphone;
  start_ms = 100;
  end_ms = 600;
  samples = repeat 8000 true;
  reason = end_of_stream;
}

no_bad : (n : ℕ) → any (λ s. not (any_sample.in_unit s)) (repeat n true) ≡ false
unfolding repeat
no_bad zero = refl
no_bad (suc n) = no_bad n

utterance-IsSound : IsSound any_sample microphone utterance
utterance-IsSound = record {
  same_source = refl;
  spoken = omega (arith, length-repeat 8000 true);
  bounded = omega (arith, length-repeat 8000 true);
  clean = no_bad 8000;
  timed = omega (arith, length-repeat 8000 true);
}

sound-valid_example : validate any_sample (request_of utterance) ≡ ok (request_of utterance)
sound-valid_example =
    sound-valid any_sample (λ s h. refl) microphone utterance utterance-IsSound
      (omega (arith, length-repeat 8000 true)) (omega arith)

-- An utterance that began with a full pre-roll, 1856 frames on, and 100 pending samples
abbrev long_active : Active Bool
long_active = record {
  start_ms = 0;
  samples = repeat 479936 true;
  speech_samples = 475136;
  silent_samples = 0;
}

abbrev nearly_full : Segmenter Bool (Unit {0})
nearly_full = record fresh { pending = repeat 100 true; active = some long_active }

finish-refused_example :
    (u : Utterance Bool) × ((finish judges_first nearly_full).1.utterances ≡ u ∷ [])
    × (validate any_sample (request_of u) ≡ err invalid_audio)
finish-refused_example =
    finish-refused any_sample judges_first nearly_full long_active refl (omega arith)
      (omega (arith, length-repeat 479936 true, length-repeat 100 true))
