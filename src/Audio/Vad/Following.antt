-- ===== src/Audio/Vad/Following.antt =====
-- audio/vad.rs: what pushing a chunk that follows on leaves for the next.
use kokoro_koe.Prelude.{
  ℕ, zero, suc, ◌≡◌, refl, ap, ◌∙◌, Bool, true, false, not, List, Option, none, some, leb, length,
  any, take, sat_add, if_elim, is_empty, ltb, ◌||◌,
}
use kokoro_koe.Transcription.Request.{SampleTests, samples_ms}
use kokoro_koe.Audio.Vad.{
  Outcome, Predictor, Active, Snapshot, Segmenter, no_outcome, vad_frame_samples,
  minimum_speech_samples, max_utterance_samples,
}
use kokoro_koe.Audio.Vad.Ops.{
  finish_outcome, next_frame, analyze, frames_in, accept, push_chunk, take_frame, count_frame,
  judge, frame_start, push, unexpected, snapshot_in, take_partial_snapshot, too_soon, end_of,
}
use kokoro_koe.Audio.Vad.Counts.{Counts, observe-Untouched, same_source_refl}

count_frame-resets :
    {S : Type 0} (speech : Bool) (out : Outcome S) → (count_frame speech out).resets ≡ out.resets
count_frame-resets true out = refl
count_frame-resets false out = refl

module _ {S D : Type 0} where
  -- What is expected next stands, and no reset is counted.
  abbrev pub Steady : Segmenter S D → Outcome S → Segmenter S D × Outcome S → Type 0
  Steady st out next =
      (next.0.expected_chunk_start_ms ≡ st.expected_chunk_start_ms)
      × (next.0.source ≡ st.source)
      × (next.1.resets ≡ out.resets)

  next_frame-Steady :
      (p : Predictor S D) (start : ℕ) (st : Segmenter S D) (out : Outcome S)
      → Steady st out (next_frame p start st out)
  unfolding next_frame
  next_frame-Steady p start st out =
      let u =
        observe-Untouched (take_frame p start st) (take vad_frame_samples st.pending)
          (frame_start start st) (judge p st).1 (count_frame (judge p st).1 out) in
      (
        u.expected,
        u.same,
        ap (λ (k : Counts). k.resets) u.counts ∙ count_frame-resets (judge p st).1 out,
      )

  analyze-Steady :
      (p : Predictor S D) (fuel start : ℕ) (st : Segmenter S D) (out : Outcome S)
      → Steady st out (analyze p fuel start st out)
  unfolding analyze
  analyze-Steady p zero start st out = (refl, refl, refl)
  analyze-Steady p (suc fuel) start st out =
      let next = next_frame p start st out in
      let one = next_frame-Steady p start st out in
      let rest = analyze-Steady p fuel start next.0 next.1 in
      by_length (leb vad_frame_samples (length st.pending))
        (rest.0 ∙ one.0, rest.1 ∙ one.1, rest.2 ∙ one.2)
    where
      by_length :
          (b : Bool)
          → Steady st out
              (analyze p fuel start (next_frame p start st out).0 (next_frame p start st out).1)
          → Steady st out (elim b [
            | true ↦
                analyze p fuel start (next_frame p start st out).0 (next_frame p start st out).1
            | false ↦ (st, out)
          ])
      by_length true h = h
      by_length false h = (refl, refl, refl)

  snapshot_in-keeps :
      (st : Segmenter S D) (o : Option (Active S))
      → ((snapshot_in st o).0.expected_chunk_start_ms ≡ st.expected_chunk_start_ms)
        × ((snapshot_in st o).0.source ≡ st.source)
  unfolding snapshot_in
  snapshot_in-keeps st none = (refl, refl)
  snapshot_in-keeps st (some a) =
      if_elim Kept
        (ltb a.speech_samples minimum_speech_samples
          || is_empty a.samples
          || ltb max_utterance_samples (length a.samples))
        (λ _. (refl, refl))
        (λ _.
          if_elim Kept (too_soon st.last_partial_end_ms (end_of a)) (λ _. (refl, refl))
            (λ _. (refl, refl)))
    where
      Kept : Segmenter S D × Option (Snapshot S) → Type 0
      Kept r = (r.0.expected_chunk_start_ms ≡ st.expected_chunk_start_ms) × (r.0.source ≡ st.source)

-- Pushing samples that are in range and follow on resets nothing, and what is expected next is the end
-- of the samples.
pub push_follows :
    {S D : Type 0} (f : SampleTests S) (p : Predictor S D) (st : Segmenter S D) (start : ℕ)
    (samples : List S)
    → any (λ s. not (f.in_unit s)) samples ≡ false
    → unexpected st.expected_chunk_start_ms start ≡ false
    → let r = push f p st st.source start samples in
      (r.0.expected_chunk_start_ms ≡ some (sat_add start (samples_ms (length samples))))
      × (r.0.source ≡ st.source)
      × (r.1.resets ≡ 0)
unfolding push push_chunk finish_outcome take_partial_snapshot accept no_outcome
push_follows f p st start samples c x =
    let st' = accept st start samples in
    let a = analyze-Steady p (frames_in (length st'.pending)) start st' no_outcome in
    let next = analyze p (frames_in (length st'.pending)) start st' no_outcome in
    let k = snapshot_in-keeps next.0 next.0.active in
    rw (same_source_refl (st.source), c, x) (k.0 ∙ a.0, k.1 ∙ a.1, a.2)
