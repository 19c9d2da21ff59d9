-- ===== src/Audio/Vad/Ops.antt =====
-- audio/vad.rs: the calls of `VadSegmenter`. Each takes the segmenter and returns it changed, with
-- the outcome that it reports.
use kokoro_koe.Prelude.{
  ℕ, zero, suc, ◌+◌, ◌-◌, ◌/◌, Bool, true, false, not, ◌||◌, List, [], ◌++◌, Option, none, some,
  ltb, leb, ◌==◌, if◌then◌else◌, length, any, is_empty, take, drop, unwrap_or, sat_add,
}
use kokoro_koe.Transcription.Request.{
  AudioSource, microphone, system_output, SampleTests, samples_ms,
}
use kokoro_koe.Audio.Vad.{
  EndReason, format_change, timeline_discontinuity, end_of_stream, Snapshot, Outcome, no_outcome,
  or_else, merge, Predictor, Active, Segmenter, vad_frame_samples, minimum_speech_samples,
  max_utterance_samples, partial_snapshot_interval_ms,
}
use kokoro_koe.Audio.Vad.Frame.{emit, observe_frame}

abbrev pub same_source : AudioSource → AudioSource → Bool
same_source microphone microphone = true
same_source system_output system_output = true
same_source _ _ = false

abbrev pub too_soon : Option ℕ → ℕ → Bool
too_soon none end_ms = false
too_soon (some previous) end_ms = ltb (end_ms - previous) partial_snapshot_interval_ms

abbrev pub frames_in : ℕ → ℕ
frames_in n = n / vad_frame_samples

abbrev pub unexpected : Option ℕ → ℕ → Bool
unexpected none start_ms = false
unexpected (some expected) start_ms = not (expected == start_ms)

module _ {S : Type 0} where
  abbrev pub end_of : Active S → ℕ
  end_of a = sat_add a.start_ms (samples_ms (length a.samples))

  abbrev pub count_frame : Bool → Outcome S → Outcome S
  count_frame speech out = record out {
    frames_analyzed = sat_add out.frames_analyzed 1;
    speech_frames = if speech then sat_add out.speech_frames 1 else out.speech_frames;
    silence_frames = if speech then out.silence_frames else sat_add out.silence_frames 1;
  }

  abbrev pub active_samples : Option (Active S) → ℕ
  active_samples none = 0
  active_samples (some a) = length a.samples

  -- `append_pending_to_active`
  abbrev pub append_pending : List S → Option (Active S) → Option (Active S)
  append_pending pending none = none
  append_pending pending (some a) = some (record a { samples = a.samples ++ pending })

module _ {S D : Type 0} where
  unfoldable pub ordering_watermark_ms : Segmenter S D → Option ℕ
  ordering_watermark_ms st = elim (st.active) [
    | some a ↦ some a.start_ms
    | none ↦ elim (or_else st.pending_start_ms st.expected_chunk_start_ms) [
      | none ↦ none
      | some t ↦ some (t - samples_ms (length st.pre_roll))
    ]
  ]

  unfoldable pub finish_outcome : Segmenter S D → Outcome S → Outcome S
  unfolding ordering_watermark_ms
  finish_outcome st out = record out {
    pending_samples = length st.pending;
    buffered_samples = length st.pending + length st.pre_roll + active_samples st.active;
    ordering_watermark_ms = ordering_watermark_ms st;
  }

  -- What a snapshot does, by whether an utterance is being collected.
  unfoldable pub snapshot_in :
      Segmenter S D → Option (Active S) → Segmenter S D × Option (Snapshot S)
  snapshot_in st none = (st, none)
  snapshot_in st (some a) =
      if ltb a.speech_samples minimum_speech_samples
        || is_empty a.samples
        || ltb max_utterance_samples (length a.samples)
      then (st, none)
      else if too_soon st.last_partial_end_ms (end_of a)
      then (st, none)
      else (
        record st { last_partial_end_ms = some (end_of a) },
        some (record {
          source = st.source;
          start_ms = a.start_ms;
          end_ms = end_of a;
          samples = a.samples;
        }),
      )

  unfoldable pub take_partial_snapshot : Segmenter S D → Segmenter S D × Option (Snapshot S)
  unfolding snapshot_in
  take_partial_snapshot st = snapshot_in st st.active

  -- `finalize_active`
  abbrev pub finalize_active : Segmenter S D → Option (Active S) → EndReason → Outcome S
  finalize_active st none reason = no_outcome
  finalize_active st (some a) reason = emit st a reason no_outcome

  abbrev pub clear_state : Predictor S D → Segmenter S D → Segmenter S D
  clear_state p st = record st {
    predictor = p.reset st.predictor;
    pending = [];
    pending_start_ms = none;
    expected_chunk_start_ms = none;
    pre_roll = [];
    active = none;
    last_partial_end_ms = none;
  }

  unfoldable pub finish : Predictor S D → Segmenter S D → Segmenter S D × Outcome S
  unfolding emit no_outcome finish_outcome
  finish p st = (
    clear_state p st,
    finish_outcome (clear_state p st)
        (finalize_active st (append_pending st.pending st.active) end_of_stream),
  )

  unfoldable pub reset : Predictor S D → Segmenter S D → EndReason → Segmenter S D × Outcome S
  unfolding emit no_outcome finish_outcome
  reset p st reason = (
    clear_state p st,
    finish_outcome (clear_state p st)
        (record (finalize_active st (append_pending st.pending st.active) reason) { resets = 1 }),
  )

  abbrev pub format_changed : Predictor S D → Segmenter S D → Segmenter S D × Outcome S
  format_changed p st = reset p st format_change

  abbrev pub judge : Predictor S D → Segmenter S D → D × Bool
  judge p st = p.predict st.predictor (take vad_frame_samples st.pending)

  abbrev pub frame_start : ℕ → Segmenter S D → ℕ
  frame_start start_ms st = unwrap_or st.pending_start_ms start_ms

  -- The frame at the front of the pending samples is taken out.
  abbrev pub take_frame : Predictor S D → ℕ → Segmenter S D → Segmenter S D
  take_frame p start_ms st =
      let rest = drop vad_frame_samples st.pending in
      record st {
        predictor = (judge p st).0;
        pending = rest;
        pending_start_ms =
            if is_empty rest then none else some (sat_add (frame_start start_ms st) 16);
      }

  -- The body of the loop of `push`.
  unfoldable pub next_frame :
      Predictor S D → ℕ → Segmenter S D → Outcome S → Segmenter S D × Outcome S
  unfolding observe_frame
  next_frame p start_ms st out =
      observe_frame (take_frame p start_ms st) (take vad_frame_samples st.pending)
        (frame_start start_ms st) (judge p st).1 (count_frame (judge p st).1 out)

  -- The `while` loop of `push`, which runs at most as often as there are whole frames.
  unfoldable pub analyze :
      Predictor S D → ℕ → ℕ → Segmenter S D → Outcome S → Segmenter S D × Outcome S
  unfolding next_frame
  analyze p zero start_ms st out = (st, out)
  analyze p (suc fuel) start_ms st out = elim (leb vad_frame_samples (length st.pending)) [
    | true ↦ let next = next_frame p start_ms st out in analyze p fuel start_ms next.0 next.1
    | false ↦ (st, out)
  ]

  -- The samples join the pending ones.
  unfoldable pub accept : Segmenter S D → ℕ → List S → Segmenter S D
  accept st start_ms samples = record st {
    expected_chunk_start_ms = some (sat_add start_ms (samples_ms (length samples)));
    pending_start_ms = if is_empty st.pending then some start_ms else st.pending_start_ms;
    pending = st.pending ++ samples;
  }

  -- `push` of samples that follow on from what was pushed before.
  unfoldable pub push_chunk :
      Predictor S D → Segmenter S D → ℕ → List S → Outcome S → Segmenter S D × Outcome S
  unfolding accept analyze finish_outcome take_partial_snapshot
  push_chunk p st start_ms samples out =
      let st' = accept st start_ms samples in
      let next = analyze p (frames_in (length st'.pending)) start_ms st' out in
      let last = take_partial_snapshot next.0 in
      (last.0, record (finish_outcome next.0 next.1) { snapshot = last.1 })

  -- `VadSegmenter::push`
  unfoldable pub push :
      SampleTests S
      → Predictor S D
      → Segmenter S D
      → AudioSource
      → ℕ
      → List S
      → Segmenter S D × Outcome S
  unfolding reset merge no_outcome push_chunk
  push f p st source start_ms samples =
      if not (same_source source st.source) || any (λ s. not (f.in_unit s)) samples
      then (let (st', out) = reset p st timeline_discontinuity in (st', merge no_outcome out))
      else if unexpected st.expected_chunk_start_ms start_ms
      then (let (st', out) = reset p st timeline_discontinuity in
          push_chunk p st' start_ms samples (merge no_outcome out))
      else push_chunk p st start_ms samples no_outcome

-- The calls of a segmenter.
pub data Call (S : Type 0) : Type 0 where
  pushes : AudioSource → ℕ → List S → Call S
  changes_format finishes : Call S

unfoldable pub step :
    {S D : Type 0}
    → SampleTests S
    → Predictor S D
    → Segmenter S D
    → Call S
    → Segmenter S D × Outcome S
unfolding push reset finish
step f p st (pushes source start_ms samples) = push f p st source start_ms samples
step f p st changes_format = format_changed p st
step f p st finishes = finish p st
