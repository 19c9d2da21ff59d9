-- ===== src/Audio/Processing/Draining.antt =====
-- audio/processing.rs: the end of the loop that resamples.
use kokoro_koe.Prelude.{
  ℕ, zero, suc, ◌≤◌, ◌<◌, ◌≡◌, refl, if_elim, Option, none, some, List, ◌++◌, length, take,
  length-drop, ltb, arith,
}
use kokoro_koe.Prelude.Coded.{Coded, ok, err}
use kokoro_koe.Audio.Processing.{SampleOps, Resampling, FormatPipeline}
use kokoro_koe.Audio.Processing.Ops.{resampled, after_turn, resample, take_in}

-- A resampler asks for at least one sample, and consumes at least one when it produces sound.
pub record Consumes {S R : Type 0} (rs : Resampling S R) : Type 0 where
  pub asks : (r : R) → 1 ≤ rs.input_frames_next r
  pub eats :
      (r : R) (frame : List S) (produced : ℕ × List S)
      → (rs.process_into_buffer r frame).1 ≡ some produced
      → 1 ≤ produced.0

-- Without an error, fewer samples are left than the resampler asks for.
abbrev pub Drained : {S R M : Type 0} → Resampling S R → FormatPipeline S R M × Coded ℕ → Type 0
Drained rs (fp, err code) = Unit
Drained {R} rs (fp, ok n) =
    (r : R) × (fp.resampler ≡ some r) × (length fp.native_buffer < rs.input_frames_next r)

module _ {S R M : Type 0} (o : SampleOps S) (rs : Resampling S R) (k : Consumes rs) where
  resample-Drained :
      (fuel : ℕ) (fp : FormatPipeline S R M) (r : R) (n : ℕ)
      → length fp.native_buffer < fuel
      → fp.resampler ≡ some r
      → Drained rs (resample o rs fuel fp r n)
  unfolding resample resampled
  resample-Drained zero fp r n h e = absurd (omega (arith, h))
  resample-Drained (suc fuel) fp r n h e =
      if_elim (Drained rs) (ltb (length fp.native_buffer) (rs.input_frames_next r))
        (λ b. (r, e, ground arith))
        (λ b.
          by_turn (rs.process_into_buffer r (take (rs.input_frames_next r) fp.native_buffer))
            (ground (arith, k.asks r))
            (λ produced e'. k.eats r (take (rs.input_frames_next r) fp.native_buffer) produced e')
            (λ fp' r' n' h' e'. resample-Drained fuel fp' r' n' h' e'))
    where
      by_turn :
          (x : R × Option (ℕ × List S))
          → 1 ≤ length fp.native_buffer
          → ((produced : ℕ × List S) → x.1 ≡ some produced → 1 ≤ produced.0)
          → ((fp' : FormatPipeline S R M) (r' : R) (n' : ℕ)
              → length fp'.native_buffer < fuel
              → fp'.resampler ≡ some r'
              → Drained rs (resample o rs fuel fp' r' n'))
          → Drained rs (after_turn o (λ fp' r' n'. resample o rs fuel fp' r' n') fp n x)
      by_turn (r', none) l m later = tt
      by_turn (r', some produced) l m later =
          later (resampled o fp r' produced n).0 r' (resampled o fp r' produced n).1
            (omega (arith, h, l, m produced refl, length-drop produced.0 fp.native_buffer)) refl

  -- The loop that resamples ends, with turns to spare: after the sound of a packet is taken in, fewer
  -- samples are left than the resampler asks for, unless the resampler has failed. A resampler must ask
  -- for samples and consume some whenever it produces sound.
  pub take_in-Drained :
      (fp : FormatPipeline S R M) (mono : List S) (r : R)
      → fp.resampler ≡ some r
      → Drained rs (take_in o rs fp mono (some r))
  unfolding take_in
  take_in-Drained fp mono r e =
      resample-Drained (suc (length (fp.native_buffer ++ mono)))
        (record fp { native_buffer = fp.native_buffer ++ mono }) r 0 (omega arith) e
