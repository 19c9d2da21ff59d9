-- ===== src/Transcription/Product/Bridge.antt =====
-- transcription/product.rs: `bridge_events`, which gives the events of a pipeline to the interface.
-- The ids that `Uuid::new_v4` gives are a function of how many have been drawn. The entries are what
-- is given to `LiveEventEnvelope::new`: those that it refuses are not emitted, which is left out here.
use Prim.Native.String.{String}
use mathlib.Core.Path.{subst}
use kokoro_koe.Prelude.{
  ℕ, ◌+◌, ◌<◌, ◌≡◌, ◌⊎◌, inl, inr, refl, sym, ap, ◌∙◌, true, false, ◌==◌, if◌then◌else◌, if_elim,
  Option, none, some, unwrap_or, List, [], ◌∷◌, any, sat_add, arith,
}
use kokoro_koe.Prelude.Maps.{Map, lookup, insert, lookup-insert}
use kokoro_koe.Transcription.Request.{AudioSource}
use kokoro_koe.Transcription.Pipeline.{
  TranscriptionResult, PipelineEvent, partial_text, final_text, gap_left,
}

-- `LiveSegmentStatus`
pub data SegmentStatus : Type 0 where
  in_progress finished : SegmentStatus

-- `LiveTranscriptSegment`
pub record LiveSegment : Type 0 where
  pub id : ℕ
  pub source : AudioSource
  pub start_ms : ℕ
  pub end_ms : ℕ
  pub text : List ℕ
  pub status : SegmentStatus
  pub language : List ℕ

-- The payloads
pub data Payload : Type 0 where
  partial_payload : LiveSegment → Payload
  final_payload : LiveSegment → Option ℕ → Payload
  gap_payload : AudioSource → ℕ → ℕ → String → Payload

-- What `bridge_events` keeps, with the number of ids that it has drawn
pub record Bridge : Type 0 where
  pub segment_ids : Map ℕ
  pub partials : List ℕ
  pub sequence : ℕ
  pub drawn : ℕ

abbrev pub new_bridge : Bridge
new_bridge = record { segment_ids = []; partials = []; sequence = 0; drawn = 0 }

abbrev pub segment_from_result : ℕ → SegmentStatus → TranscriptionResult → LiveSegment
segment_from_result id status r = record {
  id = id;
  source = r.source;
  start_ms = r.utterance_start_ms;
  end_ms = r.utterance_end_ms;
  text = r.text;
  status = status;
  language = r.language;
}

-- The id of a job: `entry(job_id).or_insert_with(Uuid::new_v4)`
unfoldable pub entry_of : (ℕ → ℕ) → Bridge → ℕ → Option ℕ → Bridge × ℕ
entry_of new_id b job (some id) = (b, id)
entry_of new_id b job none = (
  record b { segment_ids = insert job (new_id b.drawn) b.segment_ids; drawn = b.drawn + 1 },
  new_id b.drawn,
)

abbrev pub add_job : ℕ → List ℕ → List ℕ
add_job job jobs = if any (λ j. j == job) jobs then jobs else job ∷ jobs

abbrev pub without_job : ℕ → List ℕ → List ℕ
without_job job [] = []
without_job job (j ∷ jobs) = if j == job then jobs else j ∷ without_job job jobs

-- One turn of the loop
unfoldable pub bridge_event : (ℕ → ℕ) → Bridge → PipelineEvent → Bridge × Payload
unfolding entry_of
bridge_event new_id b (partial_text job r) =
    let (b', id) = entry_of new_id b job (lookup job b.segment_ids) in
    (
      record b' { sequence = sat_add b.sequence 1; partials = add_job job b.partials },
      partial_payload (segment_from_result id in_progress r),
    )
bridge_event new_id b (final_text job r) =
    let (b', id) = entry_of new_id b job (lookup job b.segment_ids) in
    (
      record b' { sequence = sat_add b.sequence 1; partials = without_job job b.partials },
      final_payload (segment_from_result id finished r)
          (if any (λ j. j == job) b.partials then some id else none),
    )
bridge_event new_id b (gap_left gap) = (
  record b { sequence = sat_add b.sequence 1 },
  gap_payload gap.source gap.start_ms gap.end_ms gap.code,
)

-- The loop: each event with its number and its payload
unfoldable pub bridge_events : (ℕ → ℕ) → Bridge → List PipelineEvent → Bridge × List (ℕ × Payload)
unfolding bridge_event
bridge_events new_id b [] = (b, [])
bridge_events new_id b (event ∷ events) =
    let (b', payload) = bridge_event new_id b event in
    let (last, payloads) = bridge_events new_id b' events in
    (last, (b'.sequence, payload) ∷ payloads)

-- Each id has been drawn, and for one job only.
abbrev pub IsInjective : (ℕ → ℕ) → Bridge → Type 0
IsInjective new_id b =
    ((job id : ℕ) → lookup job b.segment_ids ≡ some id → (n : ℕ) × (n < b.drawn) × (id ≡ new_id n))
    × ((job other id : ℕ)
        → lookup job b.segment_ids ≡ some id
        → lookup other b.segment_ids ≡ some id
        → job ≡ other)

-- The ids that jobs have are not changed.
abbrev pub Extends : Bridge → Bridge → Type 0
Extends b b' =
    (job id : ℕ) → lookup job b.segment_ids ≡ some id → lookup job b'.segment_ids ≡ some id

-- What a payload says of an event, by the ids that a bridge has given
abbrev pub Carries : Bridge → PipelineEvent → Payload → Type 0
Carries b (partial_text job r) p =
    (id : ℕ) × (lookup job b.segment_ids ≡ some id)
    × (p ≡ partial_payload (segment_from_result id in_progress r))
Carries b (final_text job r) p =
    (id : ℕ) × (lookup job b.segment_ids ≡ some id)
    × (replaces : Option ℕ) × ((replaces ≡ none) ⊎ (replaces ≡ some id))
    × (p ≡ final_payload (segment_from_result id finished r) replaces)
Carries b (gap_left gap) p = p ≡ gap_payload gap.source gap.start_ms gap.end_ms gap.code

-- One entry for each event, in their order, numbered after the number given
abbrev pub CarryAll : Bridge → ℕ → List PipelineEvent → List (ℕ × Payload) → Type 0
CarryAll b n [] [] = Unit {0}
CarryAll b n [] (entry ∷ entries) = ⊥
CarryAll b n (event ∷ events) [] = ⊥
CarryAll b n (event ∷ events) (entry ∷ entries) =
    (entry.0 ≡ sat_add n 1) × Carries b event entry.1 × CarryAll b (sat_add n 1) events entries

same_key : (i j : ℕ) → (i == j) ≡ true → i ≡ j
same_key i j h = ground arith

-- What is read after a new job has been entered.
after_insert :
    (job j v i : ℕ) (m : Map ℕ)
    → lookup j (insert job v m) ≡ some i
    → ((job ≡ j) × (i ≡ v)) ⊎ (lookup j m ≡ some i)
after_insert job j v i m e =
    if_elim (λ (o : Option ℕ). o ≡ some i → ((job ≡ j) × (i ≡ v)) ⊎ (lookup j m ≡ some i))
      (job == j) (λ b e'. inl (ground arith, ap (λ o. unwrap_or o v) (sym e'))) (λ b e'. inr e')
      (sym (lookup-insert job j v m) ∙ e)

module _ (new_id : ℕ → ℕ) (distinct : (m n : ℕ) → new_id m ≡ new_id n → m ≡ n) where
  entry_of-IsInjective :
      (b : Bridge) (job : ℕ) (o : Option ℕ)
      → lookup job b.segment_ids ≡ o
      → IsInjective new_id b
      → IsInjective new_id (entry_of new_id b job o).0
        × Extends b (entry_of new_id b job o).0
        × (lookup job (entry_of new_id b job o).0.segment_ids ≡ some (entry_of new_id b job o).1)
  unfolding entry_of
  entry_of-IsInjective b job (some id) e h = (h, λ j i k. k, e)
  entry_of-IsInjective b job none e h = (
    (
      λ j i k. drawn j i (after_insert job j v i b.segment_ids k),
      λ j l i k k'.
          one j l i (after_insert job j v i b.segment_ids k)
            (after_insert job l v i b.segment_ids k'),
    ),
    λ j i k. lookup-insert job j v b.segment_ids ∙ kept j i k,
    lookup-insert job job v b.segment_ids ∙ if_self job,
  )
    where
      v : ℕ
      v = new_id b.drawn

      drawn :
          (j i : ℕ)
          → ((job ≡ j) × (i ≡ v)) ⊎ (lookup j b.segment_ids ≡ some i)
          → (n : ℕ) × (n < b.drawn + 1) × (i ≡ new_id n)
      drawn j i (inl k) = (b.drawn, omega arith, k.1)
      drawn j i (inr k) = let d = h.0 j i k in (d.0, omega (arith, d.1), d.2)

      fresh : (j : ℕ) → lookup j b.segment_ids ≡ some v → true ≡ false
      fresh j k =
          let d = h.0 j v k in
          let same : b.drawn ≡ d.0 = distinct b.drawn d.0 d.2 in absurd (omega (arith, same, d.1))

      one :
          (j l i : ℕ)
          → ((job ≡ j) × (i ≡ v)) ⊎ (lookup j b.segment_ids ≡ some i)
          → ((job ≡ l) × (i ≡ v)) ⊎ (lookup l b.segment_ids ≡ some i)
          → j ≡ l
      one j l i (inl k) (inl k') = sym k.0 ∙ k'.0
      one j l i (inl k) (inr k') =
          absurd (ground (arith, fresh l (subst (λ x. lookup l b.segment_ids ≡ some x) k.1 k')))
      one j l i (inr k) (inl k') =
          absurd (ground (arith, fresh j (subst (λ x. lookup j b.segment_ids ≡ some x) k'.1 k)))
      one j l i (inr k) (inr k') = h.1 j l i k k'

      if_self : (j : ℕ) → (if j == j then some v else lookup j b.segment_ids) ≡ some v
      if_self j = ground arith

      clash : (j i : ℕ) → job ≡ j → lookup j b.segment_ids ≡ some i → true ≡ false
      clash j i q k =
          let gone : none ≡ some i = sym e ∙ ap (λ x. lookup x b.segment_ids) q ∙ k in absurd cc

      kept :
          (j i : ℕ)
          → lookup j b.segment_ids ≡ some i
          → (if job == j then some v else lookup j b.segment_ids) ≡ some i
      kept j i k =
          if_elim (λ (o : Option ℕ). o ≡ some i) (job == j)
            (λ q. absurd (ground (arith, clash j i (same_key job j q) k))) (λ _. k)

  bridge_event_lem :
      (b : Bridge) (event : PipelineEvent)
      → IsInjective new_id b
      → IsInjective new_id (bridge_event new_id b event).0
        × Extends b (bridge_event new_id b event).0
        × ((bridge_event new_id b event).0.sequence ≡ sat_add b.sequence 1)
        × Carries (bridge_event new_id b event).0 event (bridge_event new_id b event).1
  unfolding bridge_event
  bridge_event_lem b (partial_text job r) h =
      let e = entry_of-IsInjective b job (lookup job b.segment_ids) refl h in
      (e.0, e.1, refl, ((entry_of new_id b job (lookup job b.segment_ids)).1, e.2, refl))
  bridge_event_lem b (final_text job r) h =
      let e = entry_of-IsInjective b job (lookup job b.segment_ids) refl h in
      let id = (entry_of new_id b job (lookup job b.segment_ids)).1 in
      (
        e.0,
        e.1,
        refl,
        (
          id,
          e.2,
          (if any (λ j. j == job) b.partials then some id else none),
          if_elim (λ (o : Option ℕ). (o ≡ none) ⊎ (o ≡ some id)) (any (λ j. j == job) b.partials)
              (λ _. inr refl) (λ _. inl refl),
          refl,
        ),
      )
  bridge_event_lem b (gap_left gap) h = (h, λ job id k. k, refl, refl)

  Carries-Extends :
      (b b' : Bridge) (event : PipelineEvent) (p : Payload)
      → Extends b b'
      → Carries b event p
      → Carries b' event p
  Carries-Extends b b' (partial_text job r) p h c = (c.0, h job c.0 c.1, c.2)
  Carries-Extends b b' (final_text job r) p h c = (c.0, h job c.0 c.1, c.2, c.3, c.4)
  Carries-Extends b b' (gap_left gap) p h c = c

  bridge_events-CarryAll :
      (events : List PipelineEvent) (b : Bridge)
      → IsInjective new_id b
      → IsInjective new_id (bridge_events new_id b events).0
        × Extends b (bridge_events new_id b events).0
        × CarryAll
            (bridge_events new_id b events).0
            b.sequence
            events
            (bridge_events new_id b events).1
  unfolding bridge_events
  bridge_events-CarryAll [] b h = (h, λ job id k. k, tt)
  bridge_events-CarryAll (event ∷ events) b h =
      let e = bridge_event_lem b event h in
      let b' = (bridge_event new_id b event).0 in
      let rest = bridge_events-CarryAll events b' e.0 in
      let last = (bridge_events new_id b' events).0 in
      let entries = (bridge_events new_id b' events).1 in
      (
        rest.0,
        λ job id k. rest.1 job id (e.1 job id k),
        (
          e.2,
          Carries-Extends b' last event (bridge_event new_id b event).1 rest.1 e.3,
          subst (λ n. CarryAll last n events entries) e.2 rest.2,
        ),
      )

nothing_given : (job id : ℕ) → none ≡ some id → ⊥
nothing_given job id k = absurd cc

-- When `Uuid::new_v4` never gives an id twice, then from the start of the bridge: after any events no
-- two jobs have the same segment id, and the entries are one for each event, in their order, each
-- numbered one after the one before (the number stops at the top of u64). The entry of a partial or
-- final result has the segment of that result, under the id that its job still has at the end; a
-- final result replaces nothing or that id; the entry of a gap has its source, times and code.
pub bridge_events-Carries :
    (new_id : ℕ → ℕ)
    → ((m n : ℕ) → new_id m ≡ new_id n → m ≡ n)
    → (events : List PipelineEvent)
    → ((job other id : ℕ)
        → lookup job (bridge_events new_id new_bridge events).0.segment_ids ≡ some id
        → lookup other (bridge_events new_id new_bridge events).0.segment_ids ≡ some id
        → job ≡ other)
      × CarryAll
          (bridge_events new_id new_bridge events).0
          0
          events
          (bridge_events new_id new_bridge events).1
unfolding lookup
bridge_events-Carries new_id distinct events =
    let r = bridge_events-CarryAll new_id distinct events new_bridge (
      λ job id k. absurd (nothing_given job id k),
      λ job other id k k'. absurd (nothing_given job id k),
    ) in
    (r.0.1, r.2)
