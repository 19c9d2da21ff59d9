-- ===== src/Audio/Processing/Chunks.antt =====
-- audio/processing.rs: the chunks that are cut from the sound of a packet.
use mathlib.Core.List.{append_assoc}
use mathlib.Core.Path.{subst}
use kokoro_koe.Prelude.{
  take-append-drop, ℕ, zero, suc, ◌+◌, ◌*◌, ◌/◌, ◌%◌, ◌≤◌, ◌<◌, ◌≡◌, refl, sym, ap, ◌∙◌, true,
  false, not, ◌||◌, ◌==◌, if_elim, Option, none, some, List, [], ◌∷◌, ◌++◌, length, take, drop, any,
  any-append, any-take, any-drop, length-take, length-drop, All, ltb, sat_add, u64_max, arith,
  Bool-cases, inl, inr,
}
use kokoro_koe.Prelude.Coded.{Coded, IfOk, IfOk-of, IfOk-then, IfOk-unless}
use kokoro_koe.Transcription.Request.{AudioSource}
use kokoro_koe.Audio.Processing.{
  SampleOps, Resampling, Meter, Chunk, Format, Packet, FormatPipeline, PipelineOutput,
  normalized_chunk_samples,
}
use kokoro_koe.Audio.Processing.Ops.{
  validate_format, supported, sanitize, decode_frame, downmix, decode_and_downmix, normalize,
  chunk_start, resampled, after_turn, resample, take_in, cut, cut_all, push_mono,
}

-- Arithmetic on samples: 0 is finite and in range, clamping a finite sample puts it in range, and so
-- is the mean of finite samples, if there are any.
pub record Clamps {S : Type 0} (o : SampleOps S) : Type 0 where
  pub silence_finite : o.tests.is_finite o.silence ≡ true
  pub silence_in_unit : o.tests.in_unit o.silence ≡ true
  pub clamp_in_unit : (s : S) → o.tests.is_finite s ≡ true → o.tests.in_unit (o.clamp s) ≡ true
  pub mean_in_unit :
      (samples : List S)
      → 0 < length samples
      → All (λ s. o.tests.is_finite s ≡ true) samples
      → o.tests.in_unit (o.mean samples) ≡ true

abbrev pub InRange : {S : Type 0} → SampleOps S → List S → Type 0
InRange o samples = any (λ s. not (o.tests.in_unit s)) samples ≡ false

validate_format-channels : (f : Format) → IfOk (λ _. 0 < f.channels) (validate_format f)
unfolding validate_format
validate_format-channels f =
    IfOk-unless (λ _. 0 < f.channels)
      (ltb f.sample_rate 8000
        || ltb 384000 f.sample_rate
        || ltb f.channels 1
        || ltb 32 f.channels
        || f.bits_per_sample == 0
        || not (f.bits_per_sample % 8 == 0))
      "audio_processing_format_invalid" _
      (λ e.
        IfOk-unless (λ _. 0 < f.channels)
          (not (f.block_align == f.channels * (f.bits_per_sample / 8)))
          "audio_processing_format_invalid" _
          (λ _.
            IfOk-unless (λ _. 0 < f.channels) (not (supported f))
              "audio_processing_format_unsupported" _ (λ _. ground arith)))

module _ {S : Type 0} (o : SampleOps S) (c : Clamps o) where
  sanitize-finite : (s : S) → o.tests.is_finite (sanitize o s).0 ≡ true
  sanitize-finite s =
      if_elim (λ (r : S × ℕ). o.tests.is_finite r.0 ≡ true) (o.tests.is_finite s) (λ e. e)
        (λ e. c.silence_finite)

  decode_frame-finite :
      (channels bytes_per_sample : ℕ) (frame : List ℕ) (format : Format) (n : ℕ)
      → All
          (λ s. o.tests.is_finite s ≡ true)
          (decode_frame o channels bytes_per_sample frame format n).0
        × (length (decode_frame o channels bytes_per_sample frame format n).0 ≡ channels)
  unfolding decode_frame
  decode_frame-finite zero b frame format n = (tt, refl)
  decode_frame-finite (suc channels) b frame format n =
      let s = o.decode_sample (take b frame) format in
      let rest =
        decode_frame-finite channels b (drop b frame) format (sat_add n (sanitize o s).1) in
      ((sanitize-finite s, rest.0), ap suc rest.1)

  downmix-InRange :
      (frames : ℕ) (bytes : List ℕ) (format : Format) (n : ℕ)
      → 0 < format.channels
      → InRange o (downmix o frames bytes format n).0
  unfolding downmix
  downmix-InRange zero bytes format n h = refl
  downmix-InRange (suc frames) bytes format n h =
      let d =
        decode_frame o format.channels (format.bits_per_sample / 8) (take format.block_align bytes)
          format n in
      let finite =
        decode_frame-finite format.channels (format.bits_per_sample / 8)
          (take format.block_align bytes) format n in
      rw (c.mean_in_unit d.0 (omega (arith, finite.1, h)) finite.0)
        (downmix-InRange frames (drop format.block_align bytes) format d.1 h)

  pub decode_and_downmix-InRange :
      (packet : Packet) → IfOk (λ (d : List S × ℕ). InRange o d.0) (decode_and_downmix o packet)
  unfolding decode_and_downmix
  decode_and_downmix-InRange packet = IfOk-then P (validate_format packet.format) _ (λ t e.
      IfOk-unless P
        (ltb u64_max (packet.frames * packet.format.block_align)
          || not (length packet.bytes == packet.frames * packet.format.block_align))
        "audio_processing_packet_size_invalid" _
        (λ _.
          downmix-InRange packet.frames packet.bytes packet.format 0
            (IfOk-of (λ _. 0 < packet.format.channels) e (validate_format-channels packet.format))))
    where
      P : List S × ℕ → Type 0
      P d = InRange o d.0

  normalize-InRange : (samples : List S) (n : ℕ) → InRange o (normalize o samples n).0
  unfolding normalize
  normalize-InRange [] n = refl
  normalize-InRange (s ∷ samples) n = elim (Bool-cases (o.tests.is_finite s)) [
    | inl e ↦ rw (e, c.clamp_in_unit s e) (normalize-InRange samples n)
    | inr e ↦ rw (e, c.silence_in_unit) (normalize-InRange samples (sat_add n 1))
  ]

-- What taking sound in keeps of a pipeline, whose normalized sound is in range.
abbrev pub Fills :
    {S R M : Type 0} → SampleOps S → FormatPipeline S R M → FormatPipeline S R M → Type 0
Fills o fp fp' =
    (fp'.source ≡ fp.source)
    × (fp'.timeline_origin_ms ≡ fp.timeline_origin_ms)
    × (fp'.normalized_chunks_emitted ≡ fp.normalized_chunks_emitted)
    × InRange o fp'.normalized_buffer

InRange-append :
    {S : Type 0} (o : SampleOps S) (xs ys : List S)
    → InRange o xs
    → InRange o ys
    → InRange o (xs ++ ys)
InRange-append o xs ys h k = any-append (λ s. not (o.tests.in_unit s)) xs ys ∙ rw (h, k) refl

module _ {S R M : Type 0} (o : SampleOps S) (rs : Resampling S R) (c : Clamps o) where
  resample-Fills :
      (fuel : ℕ) (fp : FormatPipeline S R M) (r : R) (n : ℕ)
      → InRange o fp.normalized_buffer
      → Fills o fp (resample o rs fuel fp r n).0
  unfolding resample after_turn resampled
  resample-Fills zero fp r n h = (refl, refl, refl, h)
  resample-Fills (suc fuel) fp r n h =
      if_elim (λ (x : FormatPipeline S R M × Coded ℕ). Fills o fp x.0)
        (ltb (length fp.native_buffer) (rs.input_frames_next r)) (λ e. (refl, refl, refl, h))
        (λ e.
          by_turn (rs.process_into_buffer r (take (rs.input_frames_next r) fp.native_buffer))
            (λ fp' r' n' h'. resample-Fills fuel fp' r' n' h'))
    where
      by_turn :
          (x : R × Option (ℕ × List S))
          → ((fp' : FormatPipeline S R M) (r' : R) (n' : ℕ)
              → InRange o fp'.normalized_buffer
              → Fills o fp' (resample o rs fuel fp' r' n').0)
          → Fills o fp (after_turn o (λ fp' r' n'. resample o rs fuel fp' r' n') fp n x).0
      by_turn (r', none) later = (refl, refl, refl, h)
      by_turn (r', some produced) later =
          later (resampled o fp r' produced n).0 r' (resampled o fp r' produced n).1 (
            InRange-append o fp.normalized_buffer (normalize o produced.1 n).0 h
              (normalize-InRange o c produced.1 n))

  pub take_in-Fills :
      (fp : FormatPipeline S R M) (mono : List S) (resampler : Option R)
      → InRange o fp.normalized_buffer
      → InRange o mono
      → Fills o fp (take_in o rs fp mono resampler).0
  unfolding take_in
  take_in-Fills fp mono none h k =
      (refl, refl, refl, InRange-append o fp.normalized_buffer mono h k)
  take_in-Fills fp mono (some r) h k =
      resample-Fills (suc (length (fp.native_buffer ++ mono)))
        (record fp { native_buffer = fp.native_buffer ++ mono }) r 0 h

-- Chunks in range that follow each other from the one with a number: each has 160 samples and starts
-- where the chunk of its number does.
abbrev pub Linked : {S : Type 0} → SampleOps S → AudioSource → ℕ → ℕ → List (Chunk S) → Type 0
Linked o source origin k [] = Unit
Linked o source origin k (c ∷ chunks) =
    (c.source ≡ source)
    × (c.start_ms ≡ chunk_start origin k)
    × (length c.samples ≡ normalized_chunk_samples)
    × InRange o c.samples
    × Linked o source origin (sat_add k 1) chunks

-- The number after so many chunks
abbrev pub number_after : {S : Type 0} → ℕ → List (Chunk S) → ℕ
number_after k [] = k
number_after k (c ∷ chunks) = number_after (sat_add k 1) chunks

module _ {S R M L : Type 0} (o : SampleOps S) (meter : Meter S M L) where
  pub cut-Linked :
      (turns : ℕ) (fp : FormatPipeline S R M)
      → InRange o fp.normalized_buffer
      → turns * normalized_chunk_samples ≤ length fp.normalized_buffer
      → let r = cut meter turns fp in
        Linked o fp.source fp.timeline_origin_ms fp.normalized_chunks_emitted r.1
        × (r.0.normalized_chunks_emitted ≡ number_after fp.normalized_chunks_emitted r.1)
        × (r.0.source ≡ fp.source)
        × (r.0.timeline_origin_ms ≡ fp.timeline_origin_ms)
        × InRange o r.0.normalized_buffer
  unfolding cut
  cut-Linked zero fp h k = (tt, refl, refl, refl, h)
  cut-Linked (suc turns) fp h k =
      let size = length-take normalized_chunk_samples fp.normalized_buffer in
      let rest =
        cut-Linked turns
          (record fp {
            normalized_buffer = drop normalized_chunk_samples fp.normalized_buffer;
            normalized_chunks_emitted = sat_add fp.normalized_chunks_emitted 1;
            meter =
                (meter.observe fp.meter (take normalized_chunk_samples fp.normalized_buffer)
                  (chunk_start fp.timeline_origin_ms fp.normalized_chunks_emitted)).0;
          })
          (any-drop (λ s. not (o.tests.in_unit s)) normalized_chunk_samples fp.normalized_buffer h)
          (omega (arith, k, length-drop normalized_chunk_samples fp.normalized_buffer)) in
      (
        (
          refl,
          refl,
          omega (arith, size, k),
          any-take (λ s. not (o.tests.in_unit s)) normalized_chunk_samples fp.normalized_buffer h,
          rest.0,
        ),
        rest.1,
        rest.2,
        rest.3,
        rest.4,
      )

-- The sound of chunks
abbrev pub sound_of : {S : Type 0} → List (Chunk S) → List S
sound_of [] = []
sound_of (c ∷ chunks) = c.samples ++ sound_of chunks

module _ {S R M L : Type 0} (meter : Meter S M L) where
  cut_sound :
      (turns : ℕ) (fp : FormatPipeline S R M)
      → turns * normalized_chunk_samples ≤ length fp.normalized_buffer
      → (sound_of (cut meter turns fp).1 ++ (cut meter turns fp).0.normalized_buffer
          ≡ fp.normalized_buffer)
        × (length (cut meter turns fp).0.normalized_buffer + turns * normalized_chunk_samples
            ≡ length fp.normalized_buffer)
  unfolding cut
  cut_sound zero fp h = (refl, omega arith)
  cut_sound (suc turns) fp h =
      let samples = take normalized_chunk_samples fp.normalized_buffer in
      let rest =
        cut_sound turns
          (record fp {
            normalized_buffer = drop normalized_chunk_samples fp.normalized_buffer;
            normalized_chunks_emitted = sat_add fp.normalized_chunks_emitted 1;
            meter =
                (meter.observe fp.meter samples
                  (chunk_start fp.timeline_origin_ms fp.normalized_chunks_emitted)).0;
          })
          (omega (arith, h, length-drop normalized_chunk_samples fp.normalized_buffer)) in
      (
        append_assoc samples _ _
            ∙ ap (λ xs. samples ++ xs) rest.0
            ∙ take-append-drop normalized_chunk_samples fp.normalized_buffer,
        omega (arith, h, rest.1, length-drop normalized_chunk_samples fp.normalized_buffer),
      )

-- The chunks and the sound that is kept are a sound, of which less than a chunk is kept.
abbrev pub Cuts :
    {S R M L : Type 0} → List S → FormatPipeline S R M × Coded (PipelineOutput S L) → Type 0
Cuts sound r =
    IfOk
      (λ out.
        (sound_of out.chunks ++ r.0.normalized_buffer ≡ sound)
        × (length r.0.normalized_buffer < normalized_chunk_samples))
      r.1

-- Sound that needs no resampling is cut without a loss: the chunks and what is kept for the next call
-- are what was kept and what was pushed, in order, and less than a chunk is kept.
pub push_mono-lossless :
    {S R M L : Type 0} (o : SampleOps S) (rs : Resampling S R) (meter : Meter S M L)
    (fp : FormatPipeline S R M) (mono : List S)
    → fp.resampler ≡ none
    → Cuts (fp.normalized_buffer ++ mono) (push_mono o rs meter fp mono)
unfolding push_mono take_in cut_all
push_mono-lossless o rs meter fp mono e =
    let filled = record fp { normalized_buffer = fp.normalized_buffer ++ mono } in
    let k =
      cut_sound meter (length filled.normalized_buffer / normalized_chunk_samples) filled
        (omega arith) in
    subst
      (λ resampler.
        Cuts (fp.normalized_buffer ++ mono) (cut_all meter (take_in o rs fp mono resampler)))
      (sym e) (k.0, omega (arith, k.1))
