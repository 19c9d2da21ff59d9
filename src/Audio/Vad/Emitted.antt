-- ===== src/Audio/Vad/Emitted.antt =====
-- audio/vad.rs: the bounds of the segmenter along its calls, and the utterances that they report.
use kokoro_koe.Prelude.{
  ℕ, zero, suc, ◌+◌, ◌*◌, ◌≤◌, ◌<◌, ◌≡◌, refl, ◌∙◌, not, ◌||◌, List, ◌++◌, Option, none, some, ltb,
  leb, arith, if_elim, leb→le, is_empty, length, any, take, drop, All, Bool-cases, inl, inr,
  length-append, length-take, length-drop, any-take, any-drop,
}
use kokoro_koe.Transcription.Request.{AudioSource, SampleTests}
use kokoro_koe.Audio.Vad.{
  EndReason, format_change, timeline_discontinuity, end_of_stream, Outcome, Predictor, Active,
  Snapshot, Segmenter, minimum_speech_samples, max_utterance_samples, segmenter, no_outcome, merge,
  vad_frame_samples, max_vad_buffered_samples,
}
use kokoro_koe.Audio.Vad.Ops.{
  finish_outcome, take_partial_snapshot, snapshot_in, too_soon, end_of, judge, frame_start,
  take_frame, count_frame, append_pending, finalize_active, clear_state, finish, reset, next_frame,
  analyze, frames_in, accept, push_chunk, unexpected, push, Call, pushes, changes_format, finishes,
  step, same_source, active_samples,
}
use kokoro_koe.Audio.Vad.Sizes.{
  IsClean, size_limit, IsSound, ActiveOk, Body, Closed, emit-IsSound, observe-Closed,
  append-IsClean,
}

-- What holds between the calls.
pub record Inv {S D : Type 0} (f : SampleTests S) (st : Segmenter S D) : Type 0 where
  pub body : Body f st
  pub pending_short : length st.pending < vad_frame_samples

-- What a call leaves: the bounds, sound utterances, and a count of buffered samples that is within
-- the limit.
pub record Kept {S D : Type 0} (f : SampleTests S) (st : Segmenter S D)
    (next : Segmenter S D × Outcome S) : Type 0 where
  pub inv : Inv f next.0
  pub same : next.0.source ≡ st.source
  pub sound : All (IsSound f st.source) next.1.utterances
  pub buffered : next.1.buffered_samples ≤ max_vad_buffered_samples

pub segmenter-Inv :
    {S D : Type 0} (f : SampleTests S) (a : AudioSource) (d : D) → Inv f (segmenter {S = S} a d)
unfolding segmenter
segmenter-Inv f a d = record {
  body = record {
    pre_roll_cap = omega arith;
    pre_roll_clean = refl;
    pending_clean = refl;
    active_ok = tt;
  };
  pending_short = omega arith;
}

module _ {S D : Type 0} (f : SampleTests S) (p : Predictor S D) where
  -- What the loop keeps.
  record Looped (st : Segmenter S D) (next : Segmenter S D × Outcome S) : Type 0 where
    body : Body f next.0
    same : next.0.source ≡ st.source
    sound : All (IsSound f st.source) next.1.utterances

  next_frame-Looped :
      (start : ℕ) (st : Segmenter S D) (out : Outcome S)
      → Body f st
      → vad_frame_samples ≤ length st.pending
      → All (IsSound f st.source) out.utterances
      → Looped st (next_frame p start st out)
        × ((next_frame p start st out).0.pending ≡ drop vad_frame_samples st.pending)
  unfolding next_frame
  next_frame-Looped start st out b h all =
      (record { body = c.body; same = c.same; sound = c.sound all }, c.kept)
    where
      frame : List S
      frame = take vad_frame_samples st.pending

      c :
          Closed f
            (take_frame p start st)
            (count_frame (judge p st).1 out)
            (next_frame p start st out)
      c =
          observe-Closed f (take_frame p start st)
            (record {
              pre_roll_cap = b.pre_roll_cap;
              pre_roll_clean = b.pre_roll_clean;
              pending_clean = any-drop _ vad_frame_samples st.pending b.pending_clean;
              active_ok = b.active_ok;
            })
            frame (omega (arith, h, length-take vad_frame_samples st.pending))
            (any-take _ vad_frame_samples st.pending b.pending_clean) (frame_start start st)
            (count_frame (judge p st).1 out) (judge p st).1

  analyze-Looped :
      (fuel start : ℕ) (st : Segmenter S D) (out : Outcome S)
      → Body f st
      → All (IsSound f st.source) out.utterances
      → length st.pending < vad_frame_samples * suc fuel
      → Looped st (analyze p fuel start st out)
        × (length (analyze p fuel start st out).0.pending < vad_frame_samples)
  unfolding analyze
  analyze-Looped zero start st out b all h =
      (record { body = b; same = refl; sound = all }, omega (arith, h))
  analyze-Looped (suc fuel) start st out b all h =
      elim (Bool-cases (leb vad_frame_samples (length st.pending))) [
        | inr e ↦ rw (e, analyze) (record { body = b; same = refl; sound = all }, ground arith)
        | inl e ↦
            let l = next_frame-Looped start st out b (leb→le _ _ e) all in
            let next = next_frame p start st out in
            let short : length next.0.pending < vad_frame_samples * suc fuel =
              rw l.1 (omega (arith, h, length-drop vad_frame_samples st.pending)) in
            let looped =
              analyze-Looped fuel start next.0 next.1 l.0.body (rw l.0.same l.0.sound) short in
            rw (e, analyze)
              (
                record {
                  body = looped.0.body;
                  same = looped.0.same ∙ l.0.same;
                  sound = rw l.0.same at looped.0.sound;
                },
                looped.1,
              )
      ]

  finalize-IsSound :
      (st : Segmenter S D) (reason : EndReason) (o : Option (Active S))
      → Inv f st
      → ActiveOk f st.pre_roll o
      → size_limit reason ≡ 480255
      → All
          (IsSound f st.source)
          (finalize_active st (append_pending st.pending o) reason).utterances
  unfolding no_outcome
  finalize-IsSound st reason none inv ok k = tt
  finalize-IsSound st reason (some a) inv ok k =
      emit-IsSound f st (record a { samples = a.samples ++ st.pending }) reason no_outcome
        (λ m. omega (arith, m, ok.parts, length-append a.samples st.pending))
        (omega (arith, k, ok.short, inv.pending_short, length-append a.samples st.pending))
        (omega (arith, ok.short, inv.pending_short, length-append a.samples st.pending))
        (append-IsClean f a.samples st.pending ok.clean inv.body.pending_clean) tt

  cleared-Inv : (st : Segmenter S D) → Inv f (clear_state p st)
  cleared-Inv st = record {
    body = record {
      pre_roll_cap = omega arith;
      pre_roll_clean = refl;
      pending_clean = refl;
      active_ok = tt;
    };
    pending_short = omega arith;
  }

  pub reset-Kept :
      (st : Segmenter S D) (reason : EndReason)
      → Inv f st
      → size_limit reason ≡ 480255
      → Kept f st (reset p st reason)
  unfolding reset finish_outcome
  reset-Kept st reason inv k = record {
    inv = cleared-Inv st;
    same = refl;
    sound = finalize-IsSound st reason (st.active) inv inv.body.active_ok k;
    buffered = omega arith;
  }

  pub finish-Kept : (st : Segmenter S D) → Inv f st → Kept f st (finish p st)
  unfolding finish finish_outcome
  finish-Kept st inv = record {
    inv = cleared-Inv st;
    same = refl;
    sound = finalize-IsSound st end_of_stream (st.active) inv inv.body.active_ok refl;
    buffered = omega arith;
  }

  -- A snapshot changes nothing but the time of the last one.
  snapshot-Inv :
      (st : Segmenter S D)
      → Inv f st
      → Inv f (take_partial_snapshot st).0 × ((take_partial_snapshot st).0.source ≡ st.source)
  unfolding take_partial_snapshot snapshot_in
  snapshot-Inv st inv = go (st.active)
    where
      Fine : Segmenter S D × Option (Snapshot S) → Type 0
      Fine r = Inv f r.0 × (r.0.source ≡ st.source)

      moved : {t : Option ℕ} → Inv f (record st { last_partial_end_ms = t })
      moved = record {
        body = record {
          pre_roll_cap = inv.body.pre_roll_cap;
          pre_roll_clean = inv.body.pre_roll_clean;
          pending_clean = inv.body.pending_clean;
          active_ok = inv.body.active_ok;
        };
        pending_short = inv.pending_short;
      }

      go : (o : Option (Active S)) → Fine (snapshot_in st o)
      go none = (inv, refl)
      go (some a) =
          if_elim Fine
            (ltb a.speech_samples minimum_speech_samples
              || is_empty a.samples
              || ltb max_utterance_samples (length a.samples))
            (λ h. (inv, refl))
            (λ h.
              if_elim Fine (too_soon st.last_partial_end_ms (end_of a)) (λ k. (inv, refl))
                (λ k. (moved, refl)))

  buffered_within :
      (st : Segmenter S D)
      → Inv f st
      → length st.pending + length st.pre_roll + active_samples st.active ≤ max_vad_buffered_samples
  buffered_within st inv = go (st.active) inv.body.active_ok
    where
      go :
          (o : Option (Active S))
          → ActiveOk f st.pre_roll o
          → length st.pending + length st.pre_roll + active_samples o ≤ max_vad_buffered_samples
      go none ok = omega (arith, inv.pending_short, inv.body.pre_roll_cap)
      go (some a) ok = omega (arith, inv.pending_short, ok.alone, ok.short)

  push_chunk-Kept :
      (st : Segmenter S D) (start : ℕ) (samples : List S) (out : Outcome S)
      → Inv f st
      → IsClean f samples
      → All (IsSound f st.source) out.utterances
      → Kept f st (push_chunk p st start samples out)
  unfolding push_chunk finish_outcome accept
  push_chunk-Kept st start samples out inv c all = record {
    inv = (snapshot-Inv next.0 inv').0;
    same = (snapshot-Inv next.0 inv').1 ∙ looped.0.same;
    sound = looped.0.sound;
    buffered = buffered_within next.0 inv';
  }
    where
      taken : Segmenter S D
      taken = accept st start samples

      next : Segmenter S D × Outcome S
      next = analyze p (frames_in (length taken.pending)) start taken out

      looped : Looped taken next × (length next.0.pending < vad_frame_samples)
      looped =
          analyze-Looped (frames_in (length taken.pending)) start taken out
            (record {
              pre_roll_cap = inv.body.pre_roll_cap;
              pre_roll_clean = inv.body.pre_roll_clean;
              pending_clean = append-IsClean f st.pending samples inv.body.pending_clean c;
              active_ok = inv.body.active_ok;
            })
            all (omega arith)

      inv' : Inv f next.0
      inv' = record { body = looped.0.body; pending_short = looped.1 }

  unexpected_push :
      (st : Segmenter S D) (start : ℕ) (samples : List S)
      → Inv f st
      → IsClean f samples
      → let r = reset p st timeline_discontinuity in
        Kept f st (push_chunk p r.0 start samples (merge no_outcome r.1))
  unfolding merge no_outcome
  unexpected_push st start samples inv c =
      let k = reset-Kept st timeline_discontinuity inv refl in
      let r = reset p st timeline_discontinuity in
      let pushed =
        push_chunk-Kept r.0 start samples (merge no_outcome r.1) k.inv c (rw k.same k.sound) in
      record {
        inv = pushed.inv;
        same = pushed.same ∙ k.same;
        sound = rw k.same at pushed.sound;
        buffered = pushed.buffered;
      }

  refused_push :
      (st : Segmenter S D)
      → Inv f st
      → let r = reset p st timeline_discontinuity in Kept f st (r.0, merge no_outcome r.1)
  unfolding merge no_outcome
  refused_push st inv =
      let k = reset-Kept st timeline_discontinuity inv refl in
      record { inv = k.inv; same = k.same; sound = k.sound; buffered = k.buffered }

  pub push-Kept :
      (st : Segmenter S D) (a : AudioSource) (start : ℕ) (samples : List S)
      → Inv f st
      → Kept f st (push f p st a start samples)
  unfolding push no_outcome
  push-Kept st a start samples inv =
      if_elim (Kept f st) (not (same_source a st.source) || any (λ s. not (f.in_unit s)) samples)
        (λ h. refused_push st inv)
        (λ h.
          if_elim (Kept f st) (unexpected st.expected_chunk_start_ms start)
            (λ k. unexpected_push st start samples inv (ground arith))
            (λ k. push_chunk-Kept st start samples no_outcome inv (ground arith) tt))

  -- Every call keeps the segmenter within its bounds, reports at most the number of buffered samples
  -- that the code asserts, and reports sound utterances of its own source only: long enough, of no
  -- more samples than their kind allows, in range, and as long as their times say.
  pub step-Kept : (st : Segmenter S D) (c : Call S) → Inv f st → Kept f st (step f p st c)
  unfolding step
  step-Kept st (pushes a start samples) inv = push-Kept st a start samples inv
  step-Kept st changes_format inv = reset-Kept st format_change inv refl
  step-Kept st finishes inv = finish-Kept st inv
