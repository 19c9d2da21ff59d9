-- ===== src/Audio/Processing/Following.antt =====
-- audio/processing.rs and audio/vad.rs: the chunks of a source, on their way through the segmenter.
use mathlib.Core.Path.{subst}
use kokoro_koe.Prelude.{
  ℕ, ◌*◌, ◌/◌, ◌≤◌, ◌≡◌, refl, sym, ap₂, ◌∙◌, Bool, true, false, not, if◌then◌else◌, if_elim,
  Option, none, some, List, [], ◌∷◌, length, sat_add, u64_max, arith,
}
use kokoro_koe.Prelude.Coded.{Coded, ok, err, IfOk, IfOk-then}
use kokoro_koe.Transcription.Request.{AudioSource, samples_ms}
use kokoro_koe.Audio.Vad.{Outcome, Predictor, Segmenter, segmenter, no_outcome}
use kokoro_koe.Audio.Vad.Ops.{
  push, unexpected, reset, finish, finish_outcome, format_changed, same_source,
}
use kokoro_koe.Audio.Vad.Following.{push_follows}
use kokoro_koe.Audio.Processing.{
  SampleOps, Resampling, Meter, Chunk, Format, Packet, FormatPipeline, ProcessingOutcome,
  SourceProcessor, normalized_chunk_samples,
}
use kokoro_koe.Audio.Processing.Ops.{
  chunk_start, take_in, cut, cut_all, push_mono, merge_vad, merge_reset, piped, vad_snapshot,
  push_chunks, feed, finish_packet, use_decoded, use_pipeline, decode_and_downmix,
  new_format_pipeline, new_resampler, validate_format, pipeline_for, is_new_format, same_format,
  process, finish_source, new_processor,
}
use kokoro_koe.Audio.Processing.Chunks.{
  Clamps, InRange, Linked, number_after, take_in-Fills, cut-Linked, decode_and_downmix-InRange,
}

-- Not more chunks than the arithmetic of their times allows.
abbrev pub InTime : ℕ → Type 0
InTime emitted = emitted * 160000 ≤ u64_max

next_start :
    (origin k : ℕ)
    → InTime (sat_add k 1)
    → sat_add (chunk_start origin k) 10 ≡ chunk_start origin (sat_add k 1)
next_start origin k h = omega (arith, h)

number_after-grows :
    {S : Type 0} (chunks : List (Chunk S)) (k : ℕ) → k ≤ u64_max → k ≤ number_after k chunks
number_after-grows [] k h = omega arith
number_after-grows (c ∷ chunks) k h =
    omega (arith, h, number_after-grows chunks (sat_add k 1) (omega arith))

-- The segmenter of a source expects the chunk with a number, or nothing yet.
abbrev pub Expects : {S D : Type 0} → AudioSource → ℕ → ℕ → Segmenter S D → Type 0
Expects source origin k vad =
    (vad.source ≡ source) × (unexpected vad.expected_chunk_start_ms (chunk_start origin k) ≡ false)

on_time : (o : Option ℕ) (a b : ℕ) → o ≡ some a → a ≡ b → unexpected o b ≡ false
on_time o a b e e' = rw e (ground (arith, e'))

module _ {S D : Type 0} (o : SampleOps S) (p : Predictor S D) where
  push-Expects :
      (source : AudioSource) (origin k : ℕ) (c : Chunk S) (vad : Segmenter S D)
      → Linked o source origin k (c ∷ [])
      → Expects source origin k vad
      → InTime (sat_add k 1)
      → let r = push o.tests p vad c.source c.start_ms c.samples in
        Expects source origin (sat_add k 1) r.0 × (r.1.resets ≡ 0)
  push-Expects source origin k c vad l x t =
      let follows = push_follows o.tests p vad (chunk_start origin k) c.samples l.3 x.1 in
      rw (l.0, l.1, sym x.0)
        ((follows.1, on_time _ _ _ follows.0 (end_of_chunk l.2 ∙ next_start origin k t)), follows.2)
    where
      end_of_chunk :
          length c.samples ≡ normalized_chunk_samples
          → sat_add (chunk_start origin k) (samples_ms (length c.samples))
            ≡ sat_add (chunk_start origin k) 10
      end_of_chunk e = rw e refl

module _ {S D L : Type 0} (o : SampleOps S) (p : Predictor S D) where
  push_chunks-Expects :
      (source : AudioSource) (origin k : ℕ) (chunks : List (Chunk S)) (vad : Segmenter S D)
      (out : ProcessingOutcome S L)
      → Linked o source origin k chunks
      → Expects source origin k vad
      → k ≤ u64_max
      → InTime (number_after k chunks)
      → out.vad_resets ≤ 1
      → let r = push_chunks o p vad chunks out in
        Expects source origin (number_after k chunks) r.0 × (r.1.vad_resets ≡ out.vad_resets)
  unfolding push_chunks merge_vad
  push_chunks-Expects source origin k [] vad out l x b t u = (x, refl)
  push_chunks-Expects source origin k (c ∷ chunks) vad out l x b t u =
      let soon : InTime (sat_add k 1) =
        omega (arith, t, number_after-grows chunks (sat_add k 1) (omega arith)) in
      let one = push-Expects o p source origin k c vad (l.0, l.1, l.2, l.3, tt) x soon in
      let v = push o.tests p vad c.source c.start_ms c.samples in
      let kept : sat_add out.vad_resets v.1.resets ≡ out.vad_resets = omega (arith, one.1, u) in
      let rest =
        push_chunks-Expects source origin (sat_add k 1) chunks v.0 (merge_vad out v.1) l.4 one.0
          (omega arith) t (omega (arith, kept, u)) in
      (rest.0, rest.1 ∙ kept)

  -- With no chunk, the segmenter only reports what it holds.
  feed-Expects :
      (source : AudioSource) (origin k : ℕ) (chunks : List (Chunk S)) (vad : Segmenter S D)
      (out : ProcessingOutcome S L)
      → Linked o source origin k chunks
      → Expects source origin k vad
      → k ≤ u64_max
      → InTime (number_after k chunks)
      → out.vad_resets ≤ 1
      → let r = feed o p vad chunks out in
        Expects source origin (number_after k chunks) r.0 × (r.1.vad_resets ≡ out.vad_resets)
  unfolding feed merge_vad vad_snapshot finish_outcome no_outcome
  feed-Expects source origin k [] vad out l x b t u = (x, omega (arith, u))
  feed-Expects source origin k (c ∷ chunks) vad out l x b t u =
      push_chunks-Expects source origin k (c ∷ chunks) vad out l x b t u

-- A processor whose pipeline and segmenter agree.
abbrev pub IsAligned :
    {S D R M : Type 0}
    → SampleOps S
    → AudioSource
    → Segmenter S D
    → Option (FormatPipeline S R M)
    → Type 0
IsAligned o source vad none = (vad.source ≡ source) × (vad.expected_chunk_start_ms ≡ none)
IsAligned o source vad (some fp) =
    (fp.source ≡ source)
    × (fp.normalized_chunks_emitted ≤ u64_max)
    × InRange o fp.normalized_buffer
    × Expects source fp.timeline_origin_ms fp.normalized_chunks_emitted vad

abbrev pub IsInTime : {S R M : Type 0} → Option (FormatPipeline S R M) → Type 0
IsInTime none = Unit
IsInTime (some fp) = InTime fp.normalized_chunks_emitted

-- A call that ends in time leaves the processor aligned, and its outcome has so many resets.
abbrev pub Follows :
    {S D R M L : Type 0}
    → SampleOps S
    → ℕ
    → SourceProcessor S D R M × Coded (ProcessingOutcome S L)
    → Type 0
Follows o resets r =
    IsInTime r.0.pipeline
    → IsAligned o r.0.source r.0.vad r.0.pipeline × IfOk (λ out. out.vad_resets ≡ resets) r.1

module _ {S D R M L : Type 0} (o : SampleOps S) (p : Predictor S D) (meter : Meter S M L) where
  cut_all-Follows :
      (source : AudioSource) (vad : Segmenter S D) (reset : Option (Outcome S)) (packet : Packet)
      (changed : Bool) (sanitized resets : ℕ) (x : FormatPipeline S R M × Coded ℕ)
      → IsAligned o source vad (some x.0)
      → ((out : ProcessingOutcome S L)
          → out.vad_resets ≡ 0
          → (merge_reset out reset).vad_resets ≡ resets)
      → resets ≤ 1
      → Follows o resets
          (finish_packet o p source vad reset packet changed sanitized (cut_all meter x))
  unfolding cut_all finish_packet
  cut_all-Follows source vad reset packet changed sanitized resets (fp, err code) a m u =
      λ t. (a, tt)
  cut_all-Follows source vad reset packet changed sanitized resets (fp, ok n) a m u = λ t.
      let turns = length fp.normalized_buffer / normalized_chunk_samples in
      let c = cut-Linked o meter turns fp a.2 (omega arith) in
      let done = cut meter turns fp in
      let out =
        merge_reset
          (piped packet changed done.0 sanitized
            (record { chunks = done.1; non_finite_samples_sanitized = n; level_updates = done.2 }))
          reset in
      let reset_once =
        m
          (piped packet changed done.0 sanitized
            (record { chunks = done.1; non_finite_samples_sanitized = n; level_updates = done.2 }))
          refl in
      let f =
        feed-Expects o p source fp.timeline_origin_ms fp.normalized_chunks_emitted done.1 vad out
          (subst (λ s. Linked o s fp.timeline_origin_ms fp.normalized_chunks_emitted done.1) a.0
            c.0)
          a.3 a.1 (omega (arith, t, c.1)) (omega (arith, reset_once, u)) in
      let fed = (feed o p vad done.1 out).0 in
      let numbered = subst (λ k. Expects source fp.timeline_origin_ms k fed) (sym c.1) f.0 in
      (
        (
          c.2 ∙ a.0,
          omega (arith, t),
          c.4,
          subst (λ g. Expects source g done.0.normalized_chunks_emitted fed) (sym c.3) numbered,
        ),
        f.1 ∙ reset_once,
      )

module _ {S D R M L : Type 0} (o : SampleOps S) (p : Predictor S D) (rs : Resampling S R)
    (meter : Meter S M L) (c : Clamps o) where
  new_format_pipeline-IsAligned :
      (format : Format) (origin : ℕ) (source : AudioSource) (vad : Segmenter S D)
      → vad.source ≡ source
      → vad.expected_chunk_start_ms ≡ none
      → IfOk
          (λ fp. IsAligned o source vad (some fp))
          (new_format_pipeline rs meter format origin source)
  unfolding new_format_pipeline
  new_format_pipeline-IsAligned format origin source vad s e =
      IfOk-then P (validate_format format) _ (λ _ _.
        IfOk-then P (new_resampler rs meter format) _
          (λ r _. (refl, omega arith, refl, (s, rw e refl))))
    where
      P : FormatPipeline S R M → Type 0
      P fp = IsAligned o source vad (some fp)

  pipeline_for-IsAligned :
      (source : AudioSource) (vad : Segmenter S D) (pipeline : Option (FormatPipeline S R M))
      (packet : Packet)
      → IsAligned o source vad pipeline
      → (is_new_format pipeline packet.format ≡ true → vad.expected_chunk_start_ms ≡ none)
      → IfOk (λ fp. IsAligned o source vad (some fp)) (pipeline_for rs meter source pipeline packet)
  unfolding pipeline_for
  pipeline_for-IsAligned source vad none packet a n =
      new_format_pipeline-IsAligned packet.format packet.start_ms source vad a.0 a.1
  pipeline_for-IsAligned source vad (some fp) packet a n =
      if_elim (IfOk (λ fp'. IsAligned o source vad (some fp')))
        (same_format fp.format packet.format) (λ e. a)
        (λ e.
          new_format_pipeline-IsAligned packet.format packet.start_ms source vad a.3.0
            (n (rw e refl)))

  use_pipeline-Follows :
      (pr : SourceProcessor S D R M) (vad : Segmenter S D) (reset : Option (Outcome S))
      (packet : Packet) (changed : Bool) (resets : ℕ)
      → IsAligned o pr.source vad pr.pipeline
      → (is_new_format pr.pipeline packet.format ≡ true → vad.expected_chunk_start_ms ≡ none)
      → ((out : ProcessingOutcome S L)
          → out.vad_resets ≡ 0
          → (merge_reset out reset).vad_resets ≡ resets)
      → resets ≤ 1
      → Follows o resets (
          use_pipeline o p rs meter pr vad reset packet changed
            (pipeline_for rs meter pr.source pr.pipeline packet))
  unfolding use_pipeline use_decoded push_mono
  use_pipeline-Follows pr vad reset packet changed resets a n m u =
      by_pipeline (pipeline_for rs meter pr.source pr.pipeline packet)
        (pipeline_for-IsAligned pr.source vad pr.pipeline packet a n)
    where
      by_packet :
          (fp : FormatPipeline S R M) (d : Coded (List S × ℕ))
          → IsAligned o pr.source vad (some fp)
          → IfOk (λ (x : List S × ℕ). InRange o x.0) d
          → Follows o resets (use_decoded o p rs meter pr.source vad reset packet changed fp d)
      by_packet fp (err code) b h = λ t. (b, tt)
      by_packet fp (ok d) b h =
          let k = take_in-Fills o rs c fp d.0 fp.resampler b.2 h in
          cut_all-Follows o p meter pr.source vad reset packet changed d.1 resets
            (take_in o rs fp d.0 fp.resampler)
            (
              k.0 ∙ b.0,
              omega (arith, k.2, b.1),
              k.3,
              (
                b.3.0,
                ap₂ (λ g i. unexpected vad.expected_chunk_start_ms (chunk_start g i)) k.1 k.2
                    ∙ b.3.1,
              ),
            )
            m u

      by_pipeline :
          (x : Coded (FormatPipeline S R M))
          → IfOk (λ fp. IsAligned o pr.source vad (some fp)) x
          → Follows o resets (use_pipeline o p rs meter pr vad reset packet changed x)
      by_pipeline (err code) b = λ t. (a, tt)
      by_pipeline (ok fp) b =
          by_packet fp (decode_and_downmix o packet) b (decode_and_downmix-InRange o c packet)

-- A segmenter that is reset expects nothing.
format_changed-IsAligned :
    {S D R M : Type 0} (o : SampleOps S) (p : Predictor S D) (source : AudioSource)
    (vad : Segmenter S D) (pipeline : Option (FormatPipeline S R M))
    → IsAligned o source vad pipeline
    → IsAligned o source (format_changed p vad).0 pipeline
      × ((format_changed p vad).0.expected_chunk_start_ms ≡ none)
      × ((format_changed p vad).1.resets ≡ 1)
unfolding reset finish_outcome
format_changed-IsAligned o p source vad none a = ((a.0, refl), refl, refl)
format_changed-IsAligned o p source vad (some fp) a = ((a.0, a.1, a.2, (a.3.0, refl)), refl, refl)

-- Processing a packet, in time for the arithmetic of the chunks, keeps a processor aligned: its
-- pipeline and its segmenter are those of its source, its sound is in range and the segmenter expects
-- the chunk that the pipeline cuts next, or nothing. So the segmenter is reset just once if the format
-- has changed, and else not at all. (Errors leave the processor aligned too.)
pub process-Follows :
    {S D R M L : Type 0} (o : SampleOps S) (p : Predictor S D) (rs : Resampling S R)
    (meter : Meter S M L) (pr : SourceProcessor S D R M) (packet : Packet)
    → Clamps o
    → IsAligned o pr.source pr.vad pr.pipeline
    → IsInTime (process o p rs meter pr packet).0.pipeline
    → let r = process o p rs meter pr packet in
      IsAligned o r.0.source r.0.vad r.0.pipeline
      × IfOk
          (λ out. out.vad_resets ≡ (if is_new_format pr.pipeline packet.format then 1 else 0))
          r.1
unfolding process merge_vad
process-Follows {S = S} {D = D} {R = R} {M = M} {L = L} o p rs meter pr packet c a =
    if_elim (Follows o once) (not (same_source packet.source pr.source)) (λ _ t. (a, tt))
      (λ _.
        if_elim (Follows o once) (is_new_format pr.pipeline packet.format)
          (λ e.
            let f = format_changed-IsAligned o p pr.source pr.vad pr.pipeline a in
            use_pipeline-Follows o p rs meter c pr (format_changed p pr.vad).0
              (some (format_changed p pr.vad).1) packet true once f.0 (λ _. f.1)
              (λ out z. rw e (omega (arith, z, f.2))) (rw e (omega arith)))
          (λ e.
            use_pipeline-Follows o p rs meter c pr pr.vad none packet false once a
              (λ e'. absurd (ground (arith, e, e'))) (λ out z. rw e z) (rw e (omega arith))))
  where
    once : ℕ
    once = if is_new_format pr.pipeline packet.format then 1 else 0

-- The calls of a processor.
pub data Handles {S D R M L : Type 0} (o : SampleOps S) (p : Predictor S D) (rs : Resampling S R)
    (meter : Meter S M L) : SourceProcessor S D R M → Type 0 where
  made :
      (source : AudioSource) (predictor : D) → Handles o p rs meter (new_processor source predictor)
  processed :
      (pr : SourceProcessor S D R M) (packet : Packet)
      → Handles o p rs meter pr
      → IsInTime (process o p rs meter pr packet).0.pipeline
      → Handles o p rs meter (process o p rs meter pr packet).0
  finished :
      (pr : SourceProcessor S D R M)
      → Handles o p rs meter pr
      → Handles o p rs meter (finish_source {L = L} p pr).0

finish-IsAligned :
    {S D R M : Type 0} (o : SampleOps S) (p : Predictor S D) (source : AudioSource)
    (vad : Segmenter S D) (pipeline : Option (FormatPipeline S R M))
    → IsAligned o source vad pipeline
    → IsAligned o source (finish p vad).0 pipeline
unfolding finish
finish-IsAligned o p source vad none a = (a.0, refl)
finish-IsAligned o p source vad (some fp) a = (a.0, a.1, a.2, (a.3.0, refl))

pub Handles-IsAligned :
    {S D R M L : Type 0} (o : SampleOps S) (p : Predictor S D) (rs : Resampling S R)
    (meter : Meter S M L) (pr : SourceProcessor S D R M)
    → Clamps o
    → Handles o p rs meter pr
    → IsAligned o pr.source pr.vad pr.pipeline
unfolding segmenter finish_source
Handles-IsAligned o p rs meter pr c (made source predictor) = (refl, refl)
Handles-IsAligned o p rs meter pr c (processed pr' packet h t) =
    (process-Follows o p rs meter pr' packet c (Handles-IsAligned o p rs meter pr' c h) t).0
Handles-IsAligned o p rs meter pr c (finished pr' h) =
    finish-IsAligned o p pr'.source pr'.vad pr'.pipeline (Handles-IsAligned o p rs meter pr' c h)
