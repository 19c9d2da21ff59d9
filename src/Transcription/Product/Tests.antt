-- ===== src/Transcription/Product/Tests.antt =====
-- A launch is reserved, a second start is refused, the run starts, a stop of another request is refused
-- and the run is told to stop. Every time is well formed. A bridge
-- is given two jobs, a gap between them, and the final result of the first.
use kokoro_koe.Prelude.{ℕ, ◌+◌, ◌≡◌, refl, Bool, true, none, some, List, [], ◌∷◌, arith}
use kokoro_koe.Prelude.Maps.{lookup}
use kokoro_koe.Prelude.Coded.{ok}
use kokoro_koe.Transcription.Request.{AudioSource, microphone, system_output}
use kokoro_koe.Transcription.Pipeline.{
  TranscriptionResult, PipelineEvent, partial_text, final_text, gap_left,
}
use kokoro_koe.Transcription.Product.Bridge.{
  new_bridge, bridge_events, CarryAll, bridge_events-Carries,
}
use kokoro_koe.Transcription.Product.{
  running, ProductState, no_run, reserve_start, publish_start, begin_stop,
}
use kokoro_koe.Transcription.Product.Held.{IsConsistent}
use kokoro_koe.Transcription.Product.Runs.{
  Reached, fresh, reserves, publishes, stops, Reached-IsConsistent, publish_start_succeeds,
}

abbrev well_formed : ℕ → Bool
well_formed _ = true

abbrev reserved : ProductState
reserved = (reserve_start no_run 7 (some 100)).0

abbrev published : ProductState
published = (publish_start well_formed reserved 7).0

abbrev told_to_stop : ProductState
told_to_stop = (begin_stop published 7).0

reserved-Reached : Reached well_formed reserved (7 ∷ []) []
unfolding reserve_start
reserved-Reached =
    reserves reserved (7 ∷ []) [] 8 (some 110) (reserves no_run [] [] 7 (some 100) fresh refl) refl

told_to_stop-Reached : Reached well_formed told_to_stop [] (7 ∷ [])
unfolding reserve_start publish_start begin_stop
told_to_stop-Reached =
    stops published [] [] 7
      (stops published [] [] 9 (publishes reserved [] [] [] 7 reserved-Reached))

Reached-IsConsistent_example : IsConsistent well_formed told_to_stop [] (7 ∷ [])
Reached-IsConsistent_example =
    Reached-IsConsistent well_formed told_to_stop [] (7 ∷ []) refl told_to_stop-Reached

abbrev nobody : List ℕ
nobody = []

publish_start_succeeds_example :
    ((publish_start well_formed reserved 7).1 ≡ ok published.status)
    × (published.status.state ≡ running)
    × (published.status.request_id ≡ some 7)
    × (published.active ≡ some 7)
    × (reserved.active ≡ none)
    × (nobody ≡ [])
    × (nobody ≡ [])
publish_start_succeeds_example =
    publish_start_succeeds well_formed reserved [] [] [] 7 refl reserved-Reached

abbrev heard : AudioSource → ℕ → TranscriptionResult
heard source start = record {
  source = source;
  utterance_start_ms = start;
  utterance_end_ms = start + 900;
  language = 101 ∷ 110 ∷ [];
  text = 104 ∷ 105 ∷ [];
  segments = [];
}

abbrev three_events_and_a_gap : List PipelineEvent
three_events_and_a_gap =
    partial_text 4 (heard microphone 0)
    ∷ partial_text 9 (heard system_output 100)
    ∷ gap_left (record {
      job_id = 5;
      source = microphone;
      start_ms = 1000;
      end_ms = 1500;
      code = "transcription_queue_full";
    })
    ∷ final_text 4 (heard microphone 0)
    ∷ []

abbrev new_id : ℕ → ℕ
new_id n = n + 1000

bridge_events-Carries_example :
    ((job other id : ℕ)
      → lookup job (bridge_events new_id new_bridge three_events_and_a_gap).0.segment_ids ≡ some id
      → lookup other (bridge_events new_id new_bridge three_events_and_a_gap).0.segment_ids
        ≡ some id
      → job ≡ other)
    × CarryAll
        (bridge_events new_id new_bridge three_events_and_a_gap).0
        0
        three_events_and_a_gap
        (bridge_events new_id new_bridge three_events_and_a_gap).1
bridge_events-Carries_example =
    bridge_events-Carries new_id (λ m n e. omega (arith, e)) three_events_and_a_gap
