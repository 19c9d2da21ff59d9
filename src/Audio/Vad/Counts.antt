-- ===== src/Audio/Vad/Counts.antt =====
-- audio/vad.rs: how much of the sound that is pushed is analyzed.
use kokoro_koe.Prelude.{
  ℕ, zero, suc, ◌+◌, ◌-◌, ◌*◌, ◌/◌, ◌%◌, ◌≤◌, ◌≡◌, refl, sym, ap, ◌∙◌, Bool, true, false, not, List,
  Option, none, some, ltb, leb, arith, if_elim, leb-of_le, length, any, take, u64_max,
  length-append, length-drop,
}
use kokoro_koe.Transcription.Request.{AudioSource, microphone, system_output, SampleTests}
use kokoro_koe.Audio.Vad.{
  Outcome, Predictor, Active, Segmenter, EndReason, forced_split, trailing_silence, no_outcome,
  vad_frame_samples, minimum_speech_samples, max_utterance_samples, trailing_silence_samples,
}
use kokoro_koe.Audio.Vad.Frame.{
  emit, split_utterance, end_utterance, close_utterance, first_active, observe_in, observe_frame,
  extend_active, begin_utterance, extend_pre_roll,
}
use kokoro_koe.Audio.Vad.Ops.{
  finish_outcome, next_frame, analyze, frames_in, accept, push_chunk, take_frame, count_frame,
  judge, frame_start, push, unexpected, same_source,
}

-- The counts of frames, and of resets.
pub record Counts : Type 0 where
  pub resets : ℕ
  pub analyzed : ℕ
  pub speech : ℕ
  pub silence : ℕ

abbrev pub counts_of : {S : Type 0} → Outcome S → Counts
counts_of out = record {
  resets = out.resets;
  analyzed = out.frames_analyzed;
  speech = out.speech_frames;
  silence = out.silence_frames;
}

module _ {S : Type 0} where
  -- Each frame is speech or silence.
  abbrev pub Tallied : Outcome S → Type 0
  Tallied out = out.speech_frames + out.silence_frames ≡ out.frames_analyzed

  count_frame_lem :
      (speech : Bool) (out : Outcome S)
      → out.frames_analyzed + 1 ≤ u64_max
      → Tallied out
      → ((count_frame speech out).frames_analyzed ≡ out.frames_analyzed + 1)
        × Tallied (count_frame speech out)
  count_frame_lem true out cap e = (omega (arith, cap), omega (arith, cap, e))
  count_frame_lem false out cap e = (omega (arith, cap), omega (arith, cap, e))

module _ {S D : Type 0} where
  -- What observing a frame leaves alone.
  pub record Untouched (st : Segmenter S D) (out : Outcome S) (next : Segmenter S D × Outcome S)
      : Type 0 where
    pub pending : next.0.pending ≡ st.pending
    pub expected : next.0.expected_chunk_start_ms ≡ st.expected_chunk_start_ms
    pub same : next.0.source ≡ st.source
    pub counts : counts_of next.1 ≡ counts_of out

  emit_counts :
      (st : Segmenter S D) (a : Active S) (r : EndReason) (out : Outcome S)
      → counts_of (emit st a r out) ≡ counts_of out
  unfolding emit
  emit_counts st a r out =
      if_elim (λ (o : Outcome S). counts_of o ≡ counts_of out)
        (ltb a.speech_samples minimum_speech_samples) (λ h. refl) (λ h. refl)

  close-Untouched :
      (st : Segmenter S D) (a : Active S) (out : Outcome S)
      → Untouched st out (close_utterance st a out)
  unfolding close_utterance split_utterance end_utterance
  close-Untouched st a out =
      if_elim (Untouched st out) (leb max_utterance_samples (length a.samples))
        (λ h. record {
          pending = refl;
          expected = refl;
          same = refl;
          counts =
              emit_counts st (record a { samples = take max_utterance_samples a.samples })
                forced_split out;
        })
        (λ h.
          if_elim (Untouched st out) (leb trailing_silence_samples a.silent_samples)
            (λ k. record {
              pending = refl;
              expected = refl;
              same = refl;
              counts =
                  emit_counts st
                    (record a {
                      samples =
                          take (length a.samples - (a.silent_samples - trailing_silence_samples))
                            a.samples;
                    })
                    trailing_silence out;
            })
            (λ k. record { pending = refl; expected = refl; same = refl; counts = refl }))

  pub observe-Untouched :
      (st : Segmenter S D) (frame : List S) (t : ℕ) (speech : Bool) (out : Outcome S)
      → Untouched st out (observe_frame st frame t speech out)
  unfolding observe_frame observe_in begin_utterance extend_pre_roll
  observe-Untouched st frame t speech out = go speech (st.active)
    where
      begun :
          {next : Segmenter S D × Outcome S}
          → Untouched (begin_utterance st frame t) out next
          → Untouched st out next
      begun c = record {
        pending = c.pending;
        expected = c.expected;
        same = c.same;
        counts = c.counts;
      }

      go :
          (speech : Bool) (o : Option (Active S))
          → Untouched st out (observe_in st frame t speech out o)
      go true none =
          begun (close-Untouched (begin_utterance st frame t) (first_active st frame t) out)
      go false none = record { pending = refl; expected = refl; same = refl; counts = refl }
      go speech (some a) = close-Untouched st (extend_active a frame speech) out

  module _ (p : Predictor S D) where
    next_frame-Counts :
        (start : ℕ) (st : Segmenter S D) (out : Outcome S)
        → out.frames_analyzed + 1 ≤ u64_max
        → Tallied out
        → let r = next_frame p start st out in
          (length r.0.pending ≡ length st.pending - vad_frame_samples)
          × (r.1.frames_analyzed ≡ out.frames_analyzed + 1)
          × Tallied r.1
    unfolding next_frame
    next_frame-Counts start st out cap e =
        let u =
          observe-Untouched (take_frame p start st) (take vad_frame_samples st.pending)
            (frame_start start st) (judge p st).1 (count_frame (judge p st).1 out) in
        let c = count_frame_lem (judge p st).1 out cap e in
        (
          ap length u.pending ∙ length-drop vad_frame_samples st.pending,
          ap (λ (k : Counts). k.analyzed) u.counts ∙ c.0,
          ap (λ (k : Counts). k.speech + k.silence) u.counts
              ∙ c.1
              ∙ sym (ap (λ (k : Counts). k.analyzed) u.counts),
        )

    -- The loop takes whole frames: each is counted once, as speech or as silence.
    pub analyze-Counts :
        (n start : ℕ) (st : Segmenter S D) (out : Outcome S)
        → n * vad_frame_samples ≤ length st.pending
        → out.frames_analyzed + n ≤ u64_max
        → Tallied out
        → let r = analyze p n start st out in
          (length r.0.pending ≡ length st.pending - n * vad_frame_samples)
          × (r.1.frames_analyzed ≡ out.frames_analyzed + n)
          × Tallied r.1
    unfolding analyze
    analyze-Counts zero start st out h cap e = (omega arith, omega arith, e)
    analyze-Counts (suc n) start st out h cap e =
        let next = next_frame p start st out in
        let one = next_frame-Counts start st out (omega (arith, cap)) e in
        let enough : leb vad_frame_samples (length st.pending) ≡ true =
          leb-of_le _ _ (omega (arith, h)) in
        let rest =
          analyze-Counts n start next.0 next.1 (omega (arith, h, one.0)) (omega (arith, cap, one.1))
            one.2 in
        rw (enough, analyze) (omega (arith, rest.0, one.0), omega (arith, rest.1, one.1), rest.2)

pub same_source_refl : (a : AudioSource) → same_source a a ≡ true
same_source_refl microphone = refl
same_source_refl system_output = refl

-- Pushing samples that are in range and follow on from what was pushed before analyzes all whole
-- frames among them and the samples that were pending, and keeps the remainder pending; each frame
-- is counted as speech or as silence. The number of samples is at most the largest `usize`.
pub push_frames :
    {S D : Type 0} (f : SampleTests S) (p : Predictor S D) (st : Segmenter S D) (start : ℕ)
    (samples : List S)
    → any (λ s. not (f.in_unit s)) samples ≡ false
    → unexpected st.expected_chunk_start_ms start ≡ false
    → length st.pending + length samples ≤ u64_max
    → let r = push f p st st.source start samples in
      (r.1.frames_analyzed ≡ (length st.pending + length samples) / vad_frame_samples)
      × (r.1.pending_samples ≡ (length st.pending + length samples) % vad_frame_samples)
      × (r.1.speech_frames + r.1.silence_frames ≡ r.1.frames_analyzed)
unfolding push push_chunk finish_outcome accept no_outcome
push_frames {S = S} {D = D} f p st start samples c x cap =
    rw (same_source_refl (st.source), c, x)
      (omega (arith, l.1, size), omega (arith, l.0, size), l.2)
  where
    taken : Segmenter S D
    taken = accept st start samples

    size : length taken.pending ≡ length st.pending + length samples
    size = length-append st.pending samples

    n : ℕ
    n = frames_in (length taken.pending)

    l :
        let r = analyze p n start taken no_outcome in
        (length r.0.pending ≡ length taken.pending - n * vad_frame_samples)
        × (r.1.frames_analyzed ≡ 0 + n)
        × Tallied r.1
    l = analyze-Counts p n start taken no_outcome (omega arith) (omega (arith, size, cap)) refl
