-- ===== src/Audio/Processing/Ops.antt =====
-- audio/processing.rs: `SourceProcessor` and the pipeline of a format. Slices of the length asked for
-- are always valid; a call that panics in the source has no place here.
use kokoro_koe.Prelude.{
  ℕ, zero, suc, ◌*◌, ◌/◌, ◌%◌, Bool, true, false, not, ◌&&◌, ◌||◌, Option, none, some, List, [],
  ◌∷◌, ◌++◌, length, take, drop, is_empty, ltb, leb, ◌==◌, if◌then◌else◌, sat_add, u64_max,
}
use Prim.Native.Nat.{min}
use kokoro_koe.Prelude.Coded.{Coded, ok, err, fail_if, some_or, ◌>>=◌, ◌>>◌}
use kokoro_koe.Transcription.Request.{AudioSource}
use kokoro_koe.Audio.Vad.{Outcome, Predictor, Segmenter, segmenter, no_outcome, or_else}
use kokoro_koe.Audio.Vad.Ops.{push, finish, format_changed, finish_outcome, same_source}
use kokoro_koe.Audio.Processing.{
  target_sample_rate, normalized_chunk_samples, SampleType, float, integer, unknown, Format, Packet,
  SampleOps, Resampling, Meter, Chunk, FormatPipeline, PipelineOutput, ProcessingOutcome,
  SourceProcessor,
}

abbrev pub supported : Format → Bool
supported f = elim f.sample_type [
  | float ↦
      (f.bits_per_sample == 32 || f.bits_per_sample == 64)
      && f.valid_bits_per_sample == f.bits_per_sample
  | integer ↦
      (f.bits_per_sample == 8
        || f.bits_per_sample == 16
        || f.bits_per_sample == 24
        || f.bits_per_sample == 32)
      && leb 1 f.valid_bits_per_sample
      && leb f.valid_bits_per_sample f.bits_per_sample
      && (not (f.bits_per_sample == 8) || f.valid_bits_per_sample == 8)
  | unknown ↦ false
]

-- The product of two `u16` values fits a `u32`, so that `checked_mul` never fails.
unfoldable pub validate_format : Format → Coded (Unit {0})
validate_format f =
    fail_if
      (ltb f.sample_rate 8000
        || ltb 384000 f.sample_rate
        || ltb f.channels 1
        || ltb 32 f.channels
        || f.bits_per_sample == 0
        || not (f.bits_per_sample % 8 == 0))
      "audio_processing_format_invalid"
    >> fail_if (not (f.block_align == f.channels * (f.bits_per_sample / 8)))
        "audio_processing_format_invalid"
    >> fail_if (not (supported f)) "audio_processing_format_unsupported"
    >> ok tt

abbrev pub same_sample_type : SampleType → SampleType → Bool
same_sample_type float float = true
same_sample_type integer integer = true
same_sample_type unknown unknown = true
same_sample_type _ _ = false

-- The derived equality of formats
abbrev pub same_format : Format → Format → Bool
same_format a b =
    a.sample_rate == b.sample_rate
    && a.channels == b.channels
    && a.bits_per_sample == b.bits_per_sample
    && a.valid_bits_per_sample == b.valid_bits_per_sample
    && a.block_align == b.block_align
    && a.channel_mask == b.channel_mask
    && same_sample_type a.sample_type b.sample_type

module _ {S : Type 0} (o : SampleOps S) where
  -- A sample that is not finite becomes 0 and is counted.
  abbrev pub sanitize : S → S × ℕ
  sanitize s = if o.tests.is_finite s then (s, 0) else (o.silence, 1)

  -- The channels of one frame, with what was sanitized
  unfoldable pub decode_frame : ℕ → ℕ → List ℕ → Format → ℕ → List S × ℕ
  decode_frame zero bytes_per_sample frame format sanitized = ([], sanitized)
  decode_frame (suc channels) bytes_per_sample frame format sanitized =
      let (s, n) = sanitize (o.decode_sample (take bytes_per_sample frame) format) in
      let (rest, total) =
        decode_frame channels bytes_per_sample (drop bytes_per_sample frame) format
          (sat_add sanitized n) in
      (s ∷ rest, total)

  unfoldable pub downmix : ℕ → List ℕ → Format → ℕ → List S × ℕ
  unfolding decode_frame
  downmix zero bytes format sanitized = ([], sanitized)
  downmix (suc frames) bytes format sanitized =
      let (channels, n) =
        decode_frame format.channels (format.bits_per_sample / 8) (take format.block_align bytes)
          format sanitized in
      let (rest, total) = downmix frames (drop format.block_align bytes) format n in
      (o.mean channels ∷ rest, total)

  unfoldable pub decode_and_downmix : Packet → Coded (List S × ℕ)
  unfolding validate_format downmix
  decode_and_downmix packet =
      validate_format packet.format
      >> fail_if
          (ltb u64_max (packet.frames * packet.format.block_align)
            || not (length packet.bytes == packet.frames * packet.format.block_align))
          "audio_processing_packet_size_invalid"
      >> ok (downmix packet.frames packet.bytes packet.format 0)

  -- What becomes of the samples that the resampler produces.
  unfoldable pub normalize : List S → ℕ → List S × ℕ
  normalize [] sanitized = ([], sanitized)
  normalize (s ∷ samples) sanitized =
      let rest =
        normalize samples (if o.tests.is_finite s then sanitized else sat_add sanitized 1) in
      ((if o.tests.is_finite s then o.clamp s else o.silence) ∷ rest.0, rest.1)

-- The start of the chunk that comes after `emitted` others. The product saturates twice.
abbrev pub chunk_start : ℕ → ℕ → ℕ
chunk_start origin emitted =
    sat_add origin
      (min (min (emitted * normalized_chunk_samples) u64_max * 1000) u64_max / target_sample_rate)

module _ {S R M L : Type 0} (rs : Resampling S R) (meter : Meter S M L) where
  abbrev pub new_resampler : Format → Coded (Option R)
  new_resampler format =
      if format.sample_rate == target_sample_rate
      then ok none
      else (some_or (rs.new_sinc format.sample_rate) "audio_resampler_unavailable"
          >>= (λ r. ok (some r)))

  abbrev pub delay_of : Option R → ℕ
  delay_of none = 0
  delay_of (some r) = rs.output_delay r

  -- `FormatPipeline::new`
  unfoldable pub new_format_pipeline : Format → ℕ → AudioSource → Coded (FormatPipeline S R M)
  unfolding validate_format
  new_format_pipeline format origin source =
      validate_format format
      >> (new_resampler format >>= (λ resampler. ok (record {
        source = source;
        format = format;
        resampler = resampler;
        native_buffer = [];
        normalized_buffer = [];
        timeline_origin_ms = origin;
        normalized_chunks_emitted = 0;
        resampler_delay_frames = delay_of resampler;
        meter = meter.default;
      })))

module _ {S R M : Type 0} (o : SampleOps S) where
  -- The resampled sound joins the normalized sound.
  unfoldable pub resampled : FormatPipeline S R M → R → ℕ × List S → ℕ → FormatPipeline S R M × ℕ
  unfolding normalize
  resampled fp r produced sanitized =
      let normal = normalize o produced.1 sanitized in
      (
        record fp {
          resampler = some r;
          native_buffer = drop produced.0 fp.native_buffer;
          normalized_buffer = fp.normalized_buffer ++ normal.0;
        },
        normal.1,
      )

  -- After a turn of the resampler
  unfoldable pub after_turn :
      (FormatPipeline S R M → R → ℕ → FormatPipeline S R M × Coded ℕ)
      → FormatPipeline S R M
      → ℕ
      → R × Option (ℕ × List S)
      → FormatPipeline S R M × Coded ℕ
  unfolding resampled
  after_turn next fp sanitized (r, none) =
      (record fp { resampler = some r }, err "audio_resampler_failed")
  after_turn next fp sanitized (r, some produced) =
      let (fp', n) = resampled fp r produced sanitized in next fp' r n

module _ {S R M : Type 0} (o : SampleOps S) (rs : Resampling S R) where
  -- The loop over the native samples, which ends when too few are left.
  unfoldable pub resample : ℕ → FormatPipeline S R M → R → ℕ → FormatPipeline S R M × Coded ℕ
  unfolding after_turn
  resample zero fp r sanitized = (fp, ok sanitized)
  resample (suc fuel) fp r sanitized =
      if ltb (length fp.native_buffer) (rs.input_frames_next r)
      then (fp, ok sanitized)
      else after_turn o (λ fp' r' n. resample fuel fp' r' n) fp sanitized
          (rs.process_into_buffer r (take (rs.input_frames_next r) fp.native_buffer))

  unfoldable pub take_in : FormatPipeline S R M → List S → Option R → FormatPipeline S R M × Coded ℕ
  unfolding resample
  take_in fp mono none = (record fp { normalized_buffer = fp.normalized_buffer ++ mono }, ok 0)
  take_in fp mono (some r) =
      let filled = record fp { native_buffer = fp.native_buffer ++ mono } in
      resample (suc (length filled.native_buffer)) filled r 0

module _ {S R M L : Type 0} (meter : Meter S M L) where
  -- The loop that cuts chunks, with as many turns as there are whole chunks.
  unfoldable pub cut : ℕ → FormatPipeline S R M → FormatPipeline S R M × List (Chunk S) × List L
  cut zero fp = (fp, [], [])
  cut (suc turns) fp =
      let samples = take normalized_chunk_samples fp.normalized_buffer in
      let start_ms = chunk_start fp.timeline_origin_ms fp.normalized_chunks_emitted in
      let (m, levels) = meter.observe fp.meter samples start_ms in
      let rest = cut turns (record fp {
        normalized_buffer = drop normalized_chunk_samples fp.normalized_buffer;
        normalized_chunks_emitted = sat_add fp.normalized_chunks_emitted 1;
        meter = m;
      }) in
      (
        rest.0,
        record { source = fp.source; start_ms = start_ms; samples = samples } ∷ rest.1,
        levels ++ rest.2,
      )

module _ {S R M L : Type 0} (meter : Meter S M L) where
  -- `FormatPipeline::push` once the samples are taken in
  unfoldable pub cut_all :
      FormatPipeline S R M × Coded ℕ → FormatPipeline S R M × Coded (PipelineOutput S L)
  unfolding cut
  cut_all (fp, err code) = (fp, err code)
  cut_all (fp, ok sanitized) =
      let done = cut meter (length fp.normalized_buffer / normalized_chunk_samples) fp in
      (
        done.0,
        ok (record {
          chunks = done.1;
          non_finite_samples_sanitized = sanitized;
          level_updates = done.2;
        }),
      )

module _ {S R M L : Type 0} (o : SampleOps S) (rs : Resampling S R) (meter : Meter S M L) where
  -- `FormatPipeline::push`
  unfoldable pub push_mono :
      FormatPipeline S R M → List S → FormatPipeline S R M × Coded (PipelineOutput S L)
  unfolding take_in cut_all
  push_mono fp mono = cut_all meter (take_in o rs fp mono fp.resampler)

-- `merge_vad`
unfoldable pub merge_vad :
    {S L : Type 0} → ProcessingOutcome S L → Outcome S → ProcessingOutcome S L
merge_vad out v = record out {
  utterances = out.utterances ++ v.utterances;
  snapshot = or_else v.snapshot out.snapshot;
  vad_frames_analyzed = sat_add out.vad_frames_analyzed v.frames_analyzed;
  vad_speech_frames = sat_add out.vad_speech_frames v.speech_frames;
  vad_silence_frames = sat_add out.vad_silence_frames v.silence_frames;
  short_utterances_rejected = sat_add out.short_utterances_rejected v.short_utterances_rejected;
  forced_splits = sat_add out.forced_splits v.forced_splits;
  vad_resets = sat_add out.vad_resets v.resets;
  vad_pending_samples = v.pending_samples;
  vad_buffered_samples = v.buffered_samples;
  vad_ordering_watermark_ms = v.ordering_watermark_ms;
}

-- `VadSegmenter::snapshot`
unfoldable pub vad_snapshot : {S D : Type 0} → Segmenter S D → Outcome S
unfolding finish_outcome no_outcome
vad_snapshot st = finish_outcome st no_outcome

-- What the pipeline reports, before the segmenter has seen it.
abbrev pub piped :
    {S R M L : Type 0}
    → Packet
    → Bool
    → FormatPipeline S R M
    → ℕ
    → PipelineOutput S L
    → ProcessingOutcome S L
piped packet changed fp sanitized processed = record {
  chunks = processed.chunks;
  native_frames_decoded = packet.frames;
  non_finite_samples_sanitized = sat_add sanitized processed.non_finite_samples_sanitized;
  format_changed = changed;
  resampler_delay_frames = fp.resampler_delay_frames;
  pending_native_frames = length fp.native_buffer;
  pending_normalized_samples = length fp.normalized_buffer;
  level_updates = processed.level_updates;
  utterances = [];
  snapshot = none;
  vad_frames_analyzed = 0;
  vad_speech_frames = 0;
  vad_silence_frames = 0;
  short_utterances_rejected = 0;
  forced_splits = 0;
  vad_resets = 0;
  vad_pending_samples = 0;
  vad_buffered_samples = 0;
  vad_ordering_watermark_ms = none;
}

abbrev pub merge_reset :
    {S L : Type 0} → ProcessingOutcome S L → Option (Outcome S) → ProcessingOutcome S L
merge_reset out none = out
merge_reset out (some v) = merge_vad out v

abbrev pub is_new_format : {S R M : Type 0} → Option (FormatPipeline S R M) → Format → Bool
is_new_format none format = false
is_new_format (some fp) format = not (same_format fp.format format)

module _ {S D L : Type 0} (o : SampleOps S) (p : Predictor S D) where
  -- The chunks go through the segmenter, and what it reports is merged in the same order.
  unfoldable pub push_chunks :
      Segmenter S D → List (Chunk S) → ProcessingOutcome S L → Segmenter S D × ProcessingOutcome S L
  unfolding merge_vad push
  push_chunks vad [] out = (vad, out)
  push_chunks vad (c ∷ chunks) out =
      let (vad', v) = push o.tests p vad c.source c.start_ms c.samples in
      push_chunks vad' chunks (merge_vad out v)

  unfoldable pub feed :
      Segmenter S D → List (Chunk S) → ProcessingOutcome S L → Segmenter S D × ProcessingOutcome S L
  unfolding push_chunks vad_snapshot merge_vad
  feed vad chunks out =
      if is_empty chunks
      then (vad, merge_vad out (vad_snapshot vad))
      else push_chunks vad chunks out

module _ {S R M L : Type 0} (rs : Resampling S R) (meter : Meter S M L) where
  -- The pipeline that is there, or a new one
  unfoldable pub pipeline_for :
      AudioSource → Option (FormatPipeline S R M) → Packet → Coded (FormatPipeline S R M)
  unfolding new_format_pipeline
  pipeline_for source none packet =
      new_format_pipeline rs meter packet.format packet.start_ms source
  pipeline_for source (some fp) packet =
      if same_format fp.format packet.format
      then ok fp
      else new_format_pipeline rs meter packet.format packet.start_ms source

module _ {S D R M L : Type 0} (o : SampleOps S) (p : Predictor S D) where
  -- `process` once the pipeline has answered
  unfoldable pub finish_packet :
      AudioSource
      → Segmenter S D
      → Option (Outcome S)
      → Packet
      → Bool
      → ℕ
      → FormatPipeline S R M × Coded (PipelineOutput S L)
      → SourceProcessor S D R M × Coded (ProcessingOutcome S L)
  unfolding feed merge_vad
  finish_packet source vad reset packet changed sanitized (fp, err code) =
      (record { source = source; pipeline = some fp; vad = vad }, err code)
  finish_packet source vad reset packet changed sanitized (fp, ok processed) =
      let (vad', out) =
        feed o p vad processed.chunks
          (merge_reset (piped packet changed fp sanitized processed) reset) in
      (record { source = source; pipeline = some fp; vad = vad' }, ok out)

module _ {S D R M L : Type 0} (o : SampleOps S) (p : Predictor S D) (rs : Resampling S R)
    (meter : Meter S M L) where
  -- `process` once the packet is decoded
  unfoldable pub use_decoded :
      AudioSource
      → Segmenter S D
      → Option (Outcome S)
      → Packet
      → Bool
      → FormatPipeline S R M
      → Coded (List S × ℕ)
      → SourceProcessor S D R M × Coded (ProcessingOutcome S L)
  unfolding finish_packet push_mono
  use_decoded source vad reset packet changed fp (err code) =
      (record { source = source; pipeline = some fp; vad = vad }, err code)
  use_decoded source vad reset packet changed fp (ok decoded) =
      finish_packet o p source vad reset packet changed decoded.1
        (push_mono o rs meter fp decoded.0)

  -- `process` once there is a pipeline for the format
  unfoldable pub use_pipeline :
      SourceProcessor S D R M
      → Segmenter S D
      → Option (Outcome S)
      → Packet
      → Bool
      → Coded (FormatPipeline S R M)
      → SourceProcessor S D R M × Coded (ProcessingOutcome S L)
  unfolding use_decoded decode_and_downmix
  use_pipeline pr vad reset packet changed (err code) = (record pr { vad = vad }, err code)
  use_pipeline pr vad reset packet changed (ok fp) =
      use_decoded pr.source vad reset packet changed fp (decode_and_downmix o packet)

  -- `SourceProcessor::process`
  unfoldable pub process :
      SourceProcessor S D R M → Packet → SourceProcessor S D R M × Coded (ProcessingOutcome S L)
  unfolding use_pipeline pipeline_for
  process pr packet =
      if not (same_source packet.source pr.source)
      then (pr, err "audio_processing_source_mismatch")
      else if is_new_format pr.pipeline packet.format
      then (let (vad, reset) = format_changed p pr.vad in
          use_pipeline pr vad (some reset) packet true
            (pipeline_for rs meter pr.source pr.pipeline packet))
      else use_pipeline pr pr.vad none packet false
          (pipeline_for rs meter pr.source pr.pipeline packet)

-- `vad_only`
abbrev pub vad_only : {S L : Type 0} → Outcome S → ProcessingOutcome S L
vad_only v =
    merge_vad
      (record {
        chunks = [];
        native_frames_decoded = 0;
        non_finite_samples_sanitized = 0;
        format_changed = false;
        resampler_delay_frames = 0;
        pending_native_frames = 0;
        pending_normalized_samples = 0;
        level_updates = [];
        utterances = [];
        snapshot = none;
        vad_frames_analyzed = 0;
        vad_speech_frames = 0;
        vad_silence_frames = 0;
        short_utterances_rejected = 0;
        forced_splits = 0;
        vad_resets = 0;
        vad_pending_samples = 0;
        vad_buffered_samples = 0;
        vad_ordering_watermark_ms = none;
      })
      v

abbrev pub with_pipeline :
    {S R M L : Type 0}
    → Option (FormatPipeline S R M)
    → ProcessingOutcome S L
    → ProcessingOutcome S L
with_pipeline none out = out
with_pipeline (some fp) out = record out {
  resampler_delay_frames = fp.resampler_delay_frames;
  pending_native_frames = length fp.native_buffer;
  pending_normalized_samples = length fp.normalized_buffer;
}

-- `SourceProcessor::finish`
unfoldable pub finish_source :
    {S D R M L : Type 0}
    → Predictor S D
    → SourceProcessor S D R M
    → SourceProcessor S D R M × ProcessingOutcome S L
unfolding finish merge_vad
finish_source p pr =
    let (vad, out) = finish p pr.vad in
    (record pr { vad = vad }, with_pipeline pr.pipeline (vad_only out))

-- `SourceProcessor::new`
abbrev pub new_processor : {S D R M : Type 0} → AudioSource → D → SourceProcessor S D R M
new_processor source predictor = record {
  source = source;
  pipeline = none;
  vad = segmenter source predictor;
}
