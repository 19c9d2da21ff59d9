-- ===== src/Audio/Vad/Sizes.antt =====
-- audio/vad.rs: the bounds on what a segmenter keeps, and what each utterance that it reports is.
use kokoro_koe.Prelude.{
  ℕ, ◌+◌, ◌-◌, ◌*◌, ◌/◌, ◌≤◌, ◌<◌, ◌≡◌, refl, Bool, true, false, not, List, [], ◌∷◌, ◌++◌, Option,
  none, some, ltb, leb, arith, length, any, take, drop, sat_add, All, if_elim, leb→le, Bool-cases,
  inl, inr, length-append, length-take, length-drop, any-append, any-take, any-drop, All-append,
}
use kokoro_koe.Transcription.Request.{AudioSource, SampleTests}
use kokoro_koe.Audio.Vad.{
  EndReason, trailing_silence, forced_split, Utterance, Outcome, Active, Segmenter,
  vad_frame_samples, pre_roll_samples, trailing_silence_samples, minimum_speech_samples,
  max_utterance_samples,
}
use kokoro_koe.Audio.Vad.Frame.{
  emit, pop_front_to, extend_pre_roll, begin_utterance, extend_active, split_utterance,
  end_utterance, close_utterance, first_active, observe_in, observe_frame,
}

-- Every sample is in range.
abbrev pub IsClean : {S : Type 0} → SampleTests S → List S → Type 0
IsClean f xs = any (λ s. not (f.in_unit s)) xs ≡ false

-- The most samples that an utterance of each kind can have.
abbrev pub size_limit : EndReason → ℕ
size_limit trailing_silence = max_utterance_samples
size_limit forced_split = max_utterance_samples
size_limit _ = 480255

module _ {S : Type 0} (f : SampleTests S) where
  -- An utterance that the segmenter may report.
  pub record IsSound (source : AudioSource) (u : Utterance S) : Type 0 where
    pub same_source : u.source ≡ source
    pub spoken : minimum_speech_samples ≤ length u.samples
    pub bounded : length u.samples ≤ size_limit u.reason
    pub clean : IsClean f u.samples
    pub timed : u.end_ms ≡ sat_add u.start_ms (length u.samples * 1000 / 16000)

  -- The utterance that is being collected.
  pub record IsActive (pre_roll : List S) (a : Active S) : Type 0 where
    pub alone : length pre_roll ≡ 0
    pub short : length a.samples < max_utterance_samples
    pub quiet : a.silent_samples < trailing_silence_samples
    pub parts : a.speech_samples + a.silent_samples ≤ length a.samples
    pub clean : IsClean f a.samples

  abbrev pub ActiveOk : List S → Option (Active S) → Type 0
  ActiveOk pre_roll none = Unit
  ActiveOk pre_roll (some a) = IsActive pre_roll a

  -- What holds of a segmenter, but for the number of its pending samples.
  pub record Body {D : Type 0} (st : Segmenter S D) : Type 0 where
    pub pre_roll_cap : length st.pre_roll ≤ pre_roll_samples
    pub pre_roll_clean : IsClean f st.pre_roll
    pub pending_clean : IsClean f st.pending
    pub active_ok : ActiveOk st.pre_roll st.active

  -- An utterance that a frame was just added to.
  record IsGrown (pre_roll : List S) (a : Active S) : Type 0 where
    alone : length pre_roll ≡ 0
    short : length a.samples < max_utterance_samples + vad_frame_samples
    parts : a.speech_samples + a.silent_samples ≤ length a.samples
    clean : IsClean f a.samples

pub pop_front_to-length : {S : Type 0} (n : ℕ) (xs : List S) → length (pop_front_to n xs) ≤ n
unfolding pop_front_to
pop_front_to-length n [] = omega arith
pop_front_to-length n (x ∷ xs) = ground (arith, pop_front_to-length n xs)

pub pop_front_to-IsClean :
    {S : Type 0} (f : SampleTests S) (n : ℕ) (xs : List S)
    → IsClean f xs
    → IsClean f (pop_front_to n xs)
unfolding pop_front_to
pop_front_to-IsClean f n [] h = refl
pop_front_to-IsClean f n (x ∷ xs) h = ground (arith, pop_front_to-IsClean f n xs)

pub append-IsClean :
    {S : Type 0} (f : SampleTests S) (xs ys : List S)
    → IsClean f xs
    → IsClean f ys
    → IsClean f (xs ++ ys)
append-IsClean f xs ys h k = rw (any-append (λ s. not (f.in_unit s)) xs ys, h, k) refl

module _ {S D : Type 0} (f : SampleTests S) (st : Segmenter S D) where
  -- An utterance that is long enough is reported as it is.
  pub emit-IsSound :
      (a : Active S) (reason : EndReason) (out : Outcome S)
      → (minimum_speech_samples ≤ a.speech_samples → minimum_speech_samples ≤ length a.samples)
      → length a.samples ≤ size_limit reason
      → length a.samples ≤ 480255
      → IsClean f a.samples
      → All (IsSound f st.source) out.utterances
      → All (IsSound f st.source) (emit st a reason out).utterances
  unfolding emit
  emit-IsSound a reason out s b b' c all =
      elim (Bool-cases (ltb a.speech_samples minimum_speech_samples)) [
        | inl e ↦ rw e all
        | inr e ↦ rw e (
            All-append (IsSound f st.source) out.utterances _ all (
              record {
                same_source = refl;
                spoken = s (ground arith);
                bounded = b;
                clean = c;
                timed = ground arith;
              },
              tt,
            ))
      ]

  pub record Closed (out : Outcome S) (next : Segmenter S D × Outcome S) : Type 0 where
    pub body : Body f next.0
    pub same : next.0.source ≡ st.source
    pub kept : next.0.pending ≡ st.pending
    pub sound :
        All (IsSound f st.source) out.utterances → All (IsSound f st.source) next.1.utterances

  module _ (a : Active S) (out : Outcome S) (g : IsGrown f st.pre_roll a)
      (pc : IsClean f st.pending) (rc : IsClean f st.pre_roll) where
    split-Closed : max_utterance_samples ≤ length a.samples → Closed out (split_utterance st a out)
    unfolding split_utterance
    split-Closed h = record {
      body = record {
        pre_roll_cap = omega (
          arith,
          g.alone,
          length-append st.pre_roll (drop (length kept - pre_roll_samples) kept),
          length-drop (length kept - pre_roll_samples) kept,
        );
        pre_roll_clean =
            append-IsClean f st.pre_roll (drop (length kept - pre_roll_samples) kept) rc
              (any-drop _ (length kept - pre_roll_samples) kept kept_clean);
        pending_clean = pc;
        active_ok = tt;
      };
      same = refl;
      kept = refl;
      sound =
          emit-IsSound (record a { samples = kept }) forced_split out
            (λ m. omega (arith, g.parts, m, h, length-take max_utterance_samples a.samples))
            (omega (arith, length-take max_utterance_samples a.samples))
            (omega (arith, length-take max_utterance_samples a.samples)) kept_clean;
    }
      where
        kept : List S
        kept = take max_utterance_samples a.samples

        kept_clean : IsClean f kept
        kept_clean = any-take _ max_utterance_samples a.samples g.clean

    end-Closed :
        length a.samples < max_utterance_samples
        → trailing_silence_samples ≤ a.silent_samples
        → Closed out (end_utterance st a out)
    unfolding end_utterance
    end-Closed h k = record {
      body = record {
        pre_roll_cap = omega (arith, g.alone);
        pre_roll_clean = rc;
        pending_clean = pc;
        active_ok = tt;
      };
      same = refl;
      kept = refl;
      sound =
          emit-IsSound (record a { samples = take n a.samples }) trailing_silence out
            (λ m. omega (arith, g.parts, m, h, k, length-take n a.samples))
            (omega (arith, h, length-take n a.samples)) (omega (arith, h, length-take n a.samples))
            (any-take _ n a.samples g.clean);
    }
      where
        n : ℕ
        n = length a.samples - (a.silent_samples - trailing_silence_samples)

    keep-Closed :
        length a.samples < max_utterance_samples
        → a.silent_samples < trailing_silence_samples
        → Closed out (record st { active = some a }, out)
    keep-Closed h k = record {
      body = record {
        pre_roll_cap = omega (arith, g.alone);
        pre_roll_clean = rc;
        pending_clean = pc;
        active_ok = record {
          alone = g.alone;
          short = h;
          quiet = k;
          parts = g.parts;
          clean = g.clean;
        };
      };
      same = refl;
      kept = refl;
      sound = λ all. all;
    }

    close-Closed : Closed out (close_utterance st a out)
    unfolding close_utterance
    close-Closed =
        if_elim (Closed out) (leb max_utterance_samples (length a.samples))
          (λ h. split-Closed (leb→le _ _ h))
          (λ h.
            if_elim (Closed out) (leb trailing_silence_samples a.silent_samples)
              (λ k. end-Closed (ground arith) (leb→le _ _ k))
              (λ k. keep-Closed (ground arith) (ground arith)))

module _ {S D : Type 0} (f : SampleTests S) (st : Segmenter S D) (b : Body f st) (frame : List S)
    (size : length frame ≡ vad_frame_samples) (fc : IsClean f frame) (t : ℕ) (out : Outcome S) where
  begin-Closed :
      Closed f st out (close_utterance (begin_utterance st frame t) (first_active st frame t) out)
  unfolding begin_utterance
  begin-Closed =
      let c =
        close-Closed f (begin_utterance st frame t) (first_active st frame t) out
          (record {
            alone = refl;
            short = omega (arith, size, b.pre_roll_cap, length-append st.pre_roll frame);
            parts = omega (arith, length-append st.pre_roll frame);
            clean = append-IsClean f st.pre_roll frame b.pre_roll_clean fc;
          })
          b.pending_clean refl in
      record { body = c.body; same = c.same; kept = c.kept; sound = c.sound }

  extend-Closed :
      (a : Active S) (speech : Bool)
      → IsActive f st.pre_roll a
      → Closed f st out (close_utterance st (extend_active a frame speech) out)
  unfolding extend_active
  extend-Closed a speech g =
      close-Closed f st (extend_active a frame speech) out
        (record {
          alone = g.alone;
          short = omega (arith, size, g.short, length-append a.samples frame);
          parts = parts_of speech;
          clean = append-IsClean f a.samples frame g.clean fc;
        })
        b.pending_clean b.pre_roll_clean
    where
      parts_of :
          (speech : Bool)
          → (extend_active a frame speech).speech_samples
              + (extend_active a frame speech).silent_samples
            ≤ length (a.samples ++ frame)
      parts_of true = omega (arith, g.parts, length-append a.samples frame)
      parts_of false = omega (arith, g.parts, length-append a.samples frame)

  quiet-Closed : st.active ≡ none → Closed f st out (extend_pre_roll st frame, out)
  unfolding extend_pre_roll
  quiet-Closed h = record {
    body = record {
      pre_roll_cap = pop_front_to-length pre_roll_samples (st.pre_roll ++ frame);
      pre_roll_clean =
          pop_front_to-IsClean f pre_roll_samples (st.pre_roll ++ frame)
            (append-IsClean f st.pre_roll frame b.pre_roll_clean fc);
      pending_clean = b.pending_clean;
      active_ok = rw h tt;
    };
    same = refl;
    kept = refl;
    sound = λ all. all;
  }

  -- Observing a frame keeps the bounds, and reports sound utterances only.
  pub observe-Closed : (speech : Bool) → Closed f st out (observe_frame st frame t speech out)
  unfolding observe_frame observe_in begin_utterance
  observe-Closed speech = go speech (st.active) refl b.active_ok
    where
      go :
          (speech : Bool) (o : Option (Active S))
          → st.active ≡ o
          → ActiveOk f st.pre_roll o
          → Closed f st out (observe_in st frame t speech out o)
      go true none h ok = begin-Closed
      go false none h ok = quiet-Closed h
      go speech (some a) h ok = extend-Closed a speech ok
