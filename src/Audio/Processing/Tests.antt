-- ===== src/Audio/Processing/Tests.antt =====
-- A packet of 170 frames through a processor. A sample is a truth value, and the silent one is in range.
use mathlib.Core.Path.{subst}
use kokoro_koe.Audio.Processing.Draining.{Consumes, Drained, take_in-Drained}
use kokoro_koe.Prelude.{
  ap, ℕ, zero, suc, ◌≤◌, ◌≡◌, refl, Bool, true, false, Option, none, some, List, [], ◌∷◌,
  if◌then◌else◌, arith,
}
use kokoro_koe.Prelude.Coded.{IfOk}
use kokoro_koe.Transcription.Request.{microphone}
use kokoro_koe.Audio.Vad.{Predictor}
use kokoro_koe.Audio.Processing.{
  integer, Format, Packet, SampleOps, Resampling, Meter, FormatPipeline, SourceProcessor,
}
use kokoro_koe.Audio.Processing.Ops.{
  process, push_mono, new_processor, is_new_format, use_pipeline, use_decoded, finish_packet,
  pipeline_for, new_format_pipeline, validate_format, decode_and_downmix, downmix, decode_frame,
  take_in, cut_all, cut,
}
use kokoro_koe.Audio.Processing.Chunks.{Clamps, Cuts, push_mono-lossless}
use kokoro_koe.Audio.Processing.Following.{
  IsAligned, IsInTime, made, Handles-IsAligned, process-Follows,
}

abbrev samples : SampleOps Bool
samples = record {
  tests = record { is_finite = λ _. true; in_unit = λ s. s };
  clamp = λ s. true;
  silence = true;
  decode_sample = λ bytes format. false;
  mean = λ s. true;
}

samples-Clamps : Clamps samples
samples-Clamps = record {
  silence_finite = refl;
  silence_in_unit = refl;
  clamp_in_unit = λ s e. refl;
  mean_in_unit = λ s e f. refl;
}

abbrev no_speech : Predictor Bool (Unit {0})
no_speech = record { predict = λ d frame. (d, false); reset = λ d. d }

abbrev no_resampler : Resampling Bool (Unit {0})
no_resampler = record {
  new_sinc = λ rate. none;
  output_delay = λ r. 0;
  input_frames_next = λ r. 1;
  process_into_buffer = λ r frame. (r, none);
}

abbrev no_meter : Meter Bool (Unit {0}) (Unit {0})
no_meter = record { default = tt; observe = λ m frame at_ms. (m, []) }

abbrev mono_16k : Format
mono_16k = record {
  sample_rate = 16000;
  channels = 1;
  bits_per_sample = 8;
  valid_bits_per_sample = 8;
  block_align = 1;
  channel_mask = 4;
  sample_type = integer;
}

abbrev zeros : ℕ → List ℕ
zeros zero = []
zeros (suc n) = 0 ∷ zeros n

abbrev packet : Packet
packet = record {
  source = microphone;
  start_ms = 40;
  frames = 170;
  bytes = zeros 170;
  format = mono_16k;
}

abbrev processor : SourceProcessor Bool (Unit {0}) (Unit {0}) (Unit {0})
processor = new_processor microphone tt

processor-IsAligned : IsAligned samples microphone processor.vad processor.pipeline
processor-IsAligned =
    Handles-IsAligned samples no_speech no_resampler no_meter processor samples-Clamps
      (made microphone tt)

in_time : IsInTime (process samples no_speech no_resampler no_meter processor packet).0.pipeline
unfolding process use_pipeline use_decoded finish_packet pipeline_for new_format_pipeline
    validate_format decode_and_downmix downmix decode_frame push_mono take_in cut_all cut
in_time = omega arith

process-Follows_example :
    let r = process samples no_speech no_resampler no_meter processor packet in
    IsAligned samples r.0.source r.0.vad r.0.pipeline
    × IfOk
        (λ out. out.vad_resets ≡ (if is_new_format processor.pipeline packet.format then 1 else 0))
        r.1
process-Follows_example =
    process-Follows samples no_speech no_resampler no_meter processor packet samples-Clamps
      processor-IsAligned in_time

abbrev mono_pipeline : FormatPipeline Bool (Unit {0}) (Unit {0})
mono_pipeline = record {
  source = microphone;
  format = mono_16k;
  resampler = none;
  native_buffer = [];
  normalized_buffer = true ∷ [];
  timeline_origin_ms = 40;
  normalized_chunks_emitted = 0;
  resampler_delay_frames = 0;
  meter = tt;
}

push_mono-lossless_example :
    Cuts
      (true ∷ true ∷ true ∷ [])
      (push_mono samples no_resampler no_meter mono_pipeline (true ∷ true ∷ []))
push_mono-lossless_example =
    push_mono-lossless samples no_resampler no_meter mono_pipeline (true ∷ true ∷ []) refl

-- It takes a sample at a time and gives it back.
abbrev copying : Resampling Bool (Unit {0})
copying = record {
  new_sinc = λ rate. some tt;
  output_delay = λ r. 0;
  input_frames_next = λ r. 1;
  process_into_buffer = λ r frame. (r, some (1, frame));
}

copying-Consumes : Consumes copying
copying-Consumes = record {
  asks = λ r. omega arith;
  eats = λ r frame produced e.
      subst (λ (n : ℕ). 1 ≤ n) (ap (λ (x : Option (ℕ × List Bool)). first_of x) e) (omega arith);
}
  where
    first_of : Option (ℕ × List Bool) → ℕ
    first_of none = 0
    first_of (some x) = x.0

take_in-Drained_example :
    Drained copying
      (take_in samples copying (record mono_pipeline { resampler = some tt }) (true ∷ []) (some tt))
take_in-Drained_example =
    take_in-Drained samples copying copying-Consumes (record mono_pipeline { resampler = some tt })
      (true ∷ []) tt refl
