-- ===== src/Audio/Vad/Frame.antt =====
-- audio/vad.rs: what `VadSegmenter` does with one frame. A call takes the segmenter and returns it
-- changed, with the outcome that the source writes to.
use kokoro_koe.Prelude.{
  ℕ, ◌-◌, Bool, true, false, List, [], ◌∷◌, ◌++◌, Option, none, some, ltb, leb, if◌then◌else◌,
  length, take, drop, sat_add,
}
use kokoro_koe.Transcription.Request.{samples_ms}
use kokoro_koe.Audio.Vad.{
  EndReason, trailing_silence, forced_split, Outcome, Active, Segmenter, pre_roll_samples,
  trailing_silence_samples, minimum_speech_samples, max_utterance_samples,
}

module _ {S : Type 0} where
  -- The front samples are dropped while there are more than `n`.
  unfoldable pub pop_front_to : ℕ → List S → List S
  pop_front_to n [] = []
  pop_front_to n (x ∷ xs) = elim (ltb n (length (x ∷ xs))) [
    | true ↦ pop_front_to n xs
    | false ↦ x ∷ xs
  ]

  unfoldable pub extend_active : Active S → List S → Bool → Active S
  extend_active a frame speech = record a {
    samples = a.samples ++ frame;
    speech_samples = if speech then sat_add a.speech_samples (length frame) else a.speech_samples;
    silent_samples = if speech then 0 else sat_add a.silent_samples (length frame);
  }

module _ {S D : Type 0} where
  -- `emit`
  unfoldable pub emit : Segmenter S D → Active S → EndReason → Outcome S → Outcome S
  emit st a reason out =
      if ltb a.speech_samples minimum_speech_samples
      then record out { short_utterances_rejected = sat_add out.short_utterances_rejected 1 }
      else record out {
        utterances =
            out.utterances
            ++ (record {
              source = st.source;
              start_ms = a.start_ms;
              end_ms = sat_add a.start_ms (samples_ms (length a.samples));
              samples = a.samples;
              reason = reason;
            }
                ∷ []);
      }

  unfoldable pub extend_pre_roll : Segmenter S D → List S → Segmenter S D
  unfolding pop_front_to
  extend_pre_roll st frame = record st {
    pre_roll = pop_front_to pre_roll_samples (st.pre_roll ++ frame);
  }

  abbrev pub first_active : Segmenter S D → List S → ℕ → Active S
  first_active st frame frame_start_ms = record {
    start_ms = frame_start_ms - samples_ms (length st.pre_roll);
    samples = st.pre_roll ++ frame;
    speech_samples = length frame;
    silent_samples = 0;
  }

  -- Speech begins: the utterance takes over the pre-roll.
  unfoldable pub begin_utterance : Segmenter S D → List S → ℕ → Segmenter S D
  begin_utterance st frame frame_start_ms = record st {
    pre_roll = [];
    active = some (first_active st frame frame_start_ms);
  }

  -- The branch of an utterance that is full; its tail is the pre-roll of the next one.
  unfoldable pub split_utterance : Segmenter S D → Active S → Outcome S → Segmenter S D × Outcome S
  unfolding emit
  split_utterance st a out = (
    record st {
      active = none;
      last_partial_end_ms = none;
      pre_roll = st.pre_roll ++ drop (length samples - pre_roll_samples) samples;
    },
    let emitted = emit st (record a { samples = samples }) forced_split out in
        record emitted { forced_splits = sat_add emitted.forced_splits 1 },
  )
    where
      samples : List S
      samples = take max_utterance_samples a.samples

  -- The branch of an utterance that is followed by enough silence.
  unfoldable pub end_utterance : Segmenter S D → Active S → Outcome S → Segmenter S D × Outcome S
  unfolding emit
  end_utterance st a out = (
    record st { active = none; last_partial_end_ms = none },
    emit st
        (record a {
          samples =
              take (length a.samples - (a.silent_samples - trailing_silence_samples)) a.samples;
        })
        trailing_silence out,
  )

  -- The two tests that follow each frame of an utterance.
  unfoldable pub close_utterance : Segmenter S D → Active S → Outcome S → Segmenter S D × Outcome S
  unfolding split_utterance end_utterance
  close_utterance st a out =
      if leb max_utterance_samples (length a.samples)
      then split_utterance st a out
      else if leb trailing_silence_samples a.silent_samples
      then end_utterance st a out
      else (record st { active = some a }, out)

  -- What a frame does, by whether an utterance is being collected.
  unfoldable pub observe_in :
      Segmenter S D → List S → ℕ → Bool → Outcome S → Option (Active S) → Segmenter S D × Outcome S
  unfolding extend_pre_roll begin_utterance extend_active close_utterance
  observe_in st frame frame_start_ms true out none =
      let begun = first_active st frame frame_start_ms in
      close_utterance (begin_utterance st frame frame_start_ms) begun out
  observe_in st frame frame_start_ms false out none = (extend_pre_roll st frame, out)
  observe_in st frame frame_start_ms speech out (some a) =
      close_utterance st (extend_active a frame speech) out

  unfoldable pub observe_frame :
      Segmenter S D → List S → ℕ → Bool → Outcome S → Segmenter S D × Outcome S
  unfolding observe_in
  observe_frame st frame frame_start_ms speech out =
      observe_in st frame frame_start_ms speech out st.active
