-- ===== src/Domain/Session/Lifecycle.antt =====
-- domain/projects.rs: `apply_runtime_state` of a session that this code has made and changed.
use mathlib.Core.Path.{subst}
use kokoro_koe.Prelude.{
  ℕ, ◌+◌, ◌<◌, ◌≤◌, ◌≡◌, refl, sym, ap, ◌∙◌, Bool, true, false, not, ◌||◌, if◌then◌else◌, if_elim,
  Option, none, some, is_some, List, leb, arith,
}
use kokoro_koe.Prelude.Coded.{IfOk, IfOk-then, IfOk-unless, some_or, some_or-ok, ok}
use kokoro_koe.Domain.Session.{
  ChannelHealthStatus, active, unavailable, stopped, ChannelHealth, SessionState, idle, preparing,
  capturing, transcribing, paused, stopping, processing_summary, completed, failed, Session,
  json_safe_integer_max, line_fits, valid_channel_health, is_before, and_then, or, reads,
  is_completed, transcribes, pauses, fails, session_valid, allowed, health_of, starts, with_health,
  changed, apply_runtime_state, new_session, create,
}

-- A start between the creation and the last change
abbrev pub HasBegun : (ℕ → Option ℕ) → ℕ → ℕ → Option ℕ → Type 0
HasBegun parse created updated none = Unit
HasBegun parse created updated (some stamp) =
    (start : ℕ) × (parse stamp ≡ some start) × (created ≤ start) × (start ≤ updated)

-- An end at the last change, of a completed session and of no other
abbrev pub HasEnded : (ℕ → Option ℕ) → ℕ → Bool → Option ℕ → Type 0
HasEnded parse updated done none = done ≡ false
HasEnded parse updated done (some stamp) = (done ≡ true) × (parse stamp ≡ some updated)

pub record IsSound {C : Type 0} (parse : ℕ → Option ℕ) (contents_valid : C → Bool) (s : Session C)
    : Type 0 where
  pub contents_pass : contents_valid s.contents ≡ true
  pub microphone_passes : valid_channel_health parse s.microphone ≡ true
  pub system_output_passes : valid_channel_health parse s.system_output ≡ true
  pub revision_fits : s.revision ≤ json_safe_integer_max
  pub created : ℕ
  pub updated : ℕ
  pub created_reads : parse s.created_at ≡ some created
  pub updated_reads : parse s.updated_at ≡ some updated
  pub in_time : created ≤ updated
  pub begun : HasBegun parse created updated s.started_at
  pub ended : HasEnded parse updated (is_completed s.state) s.ended_at

module _ (parse : ℕ → Option ℕ) (c u : ℕ) (in_time : c ≤ u) where
  begun_lem :
      (o : Option ℕ)
      → HasBegun parse c u o
      → (reads o parse ≡ true)
        × (is_before (and_then o parse) (some c) ≡ false)
        × (v : ℕ) × (or (and_then o parse) (some c) ≡ some v)
        × (v ≤ u)
  begun_lem none h = (refl, refl, c, refl, in_time)
  begun_lem (some stamp) h = (
    ap is_some h.1,
    ap (λ o. is_before o (some c)) h.1 ∙ (ground (arith, h.2)),
    h.0,
    ap (λ o. or o (some c)) h.1,
    h.3,
  )

  ended_lem :
      (v : ℕ) (done : Bool) (o : Option ℕ)
      → v ≤ u
      → HasEnded parse u done o
      → (reads o parse ≡ true)
        × (is_before (and_then o parse) (some v) ≡ false)
        × ((not done || is_some o) ≡ true)
  ended_lem v done none k h = (refl, refl, ground (arith, h))
  ended_lem v done (some stamp) k h =
      (ap is_some h.1, ap (λ o. is_before o (some v)) h.1 ∙ (ground (arith, k)), ground arith)

session_valid-IsSound :
    {C : Type 0} (parse : ℕ → Option ℕ) (contents_valid : C → Bool) (s : Session C)
    → IsSound parse contents_valid s
    → session_valid parse contents_valid s ≡ true
unfolding session_valid
session_valid-IsSound parse contents_valid s h =
    let b = begun_lem parse h.created h.updated h.in_time s.started_at h.begun in
    let e =
      ended_lem parse h.created h.updated h.in_time b.2 (is_completed s.state) s.ended_at b.4
        h.ended in
    let fits : leb s.revision json_safe_integer_max ≡ true = ground (arith, h.revision_fits) in
    let order : leb h.created h.updated ≡ true = ground (arith, h.in_time) in
    simp (
      h.contents_pass, h.microphone_passes, h.system_output_passes, fits, h.created_reads,
      h.updated_reads, order, b.0, b.1, b.3, e.0, e.1, e.2,
    )

not_completed : (a b : SessionState) → allowed a b ≡ true → is_completed a ≡ false
not_completed idle b h = refl
not_completed preparing b h = refl
not_completed capturing b h = refl
not_completed transcribing b h = refl
not_completed paused b h = refl
not_completed stopping b h = refl
not_completed processing_summary b h = refl
not_completed completed b h = sym h
not_completed failed b h = refl

has_health :
    (b : SessionState)
    → (transcribes b || pauses b || is_completed b || fails b) ≡ true
    → (h : ChannelHealthStatus) × (health_of b ≡ some h)
has_health idle h = absurd cc
has_health preparing h = absurd cc
has_health capturing h = absurd cc
has_health transcribing h = (active, refl)
has_health paused h = (stopped, refl)
has_health stopping h = absurd cc
has_health processing_summary h = absurd cc
has_health completed h = (stopped, refl)
has_health failed h = (unavailable, refl)

is_reached :
    (a b : SessionState)
    → allowed a b ≡ true
    → (transcribes b || pauses b || is_completed b || fails b) ≡ true
is_reached idle b h = h
is_reached preparing b h = ground (arith, h)
is_reached capturing b h = ground (arith, h)
is_reached transcribing b h = ground (arith, h)
is_reached paused b h = ground (arith, h)
is_reached stopping b h = ground (arith, h)
is_reached processing_summary b h = absurd cc
is_reached completed b h = absurd cc
is_reached failed b h = absurd cc

module _ (parse : ℕ → Option ℕ) (c u t stamp : ℕ) (in_time : c ≤ u) (later : u ≤ t)
    (reads_stamp : parse stamp ≡ some t) where
  begun_later :
      (o : Option ℕ) (b : Bool)
      → HasBegun parse c u o
      → HasBegun parse c t (or o (if b then some stamp else none))
  begun_later none true h = (t, reads_stamp, omega arith, omega arith)
  begun_later none false h = tt
  begun_later (some old) b h = (h.0, h.1, h.2, omega (arith, h.3))

  ended_later :
      (o : Option ℕ) (done : Bool)
      → HasEnded parse u false o
      → HasEnded parse t done (if done then some stamp else o)
  ended_later o true h = (refl, reads_stamp)
  ended_later none false h = refl
  ended_later (some old) false h = absurd (ground (arith, h.0))

  healthy :
      (h : ChannelHealth) (status : ChannelHealthStatus) (detail : Option (List ℕ))
      → valid_channel_health parse h ≡ true
      → line_fits detail 128 ≡ true
      → valid_channel_health parse (with_health h status detail stamp) ≡ true
  healthy h status detail v d =
      let e : line_fits h.endpoint_id 1024 ≡ true = ground (arith, v) in simp (e, d, reads_stamp)

module _ {C : Type 0} (parse : ℕ → Option ℕ) (contents_valid : C → Bool) (s : Session C)
    (h : IsSound parse contents_valid s) where
  changed-IsSound :
      (state : SessionState) (stamp t : ℕ) (detail : Option (List ℕ)) (health : ChannelHealthStatus)
      → is_completed s.state ≡ false
      → line_fits detail 128 ≡ true
      → s.revision < json_safe_integer_max
      → parse stamp ≡ some t
      → h.updated ≤ t
      → IsSound parse contents_valid (changed s state stamp detail health (s.revision + 1))
  changed-IsSound state stamp t detail health live fits room e later = record {
    contents_pass = h.contents_pass;
    microphone_passes =
        healthy parse h.created h.updated t stamp h.in_time later e s.microphone health detail
          h.microphone_passes fits;
    system_output_passes =
        healthy parse h.created h.updated t stamp h.in_time later e s.system_output health detail
          h.system_output_passes fits;
    revision_fits = omega (arith, room);
    created = h.created;
    updated = t;
    created_reads = h.created_reads;
    updated_reads = e;
    in_time = omega (arith, h.in_time, later);
    begun =
        begun_later parse h.created h.updated t stamp h.in_time later e s.started_at (starts state)
          h.begun;
    ended =
        ended_later parse h.created h.updated t stamp h.in_time later e s.ended_at
          (is_completed state) (subst (λ b. HasEnded parse h.updated b s.ended_at) live h.ended);
  }

-- The time that a change is given: the one that was asked for, or the last if that is later.
stamp_lem :
    (parse : ℕ → Option ℕ) (u r old new : ℕ)
    → parse old ≡ some u
    → parse new ≡ some r
    → (t : ℕ) × (parse (if leb u r then new else old) ≡ some t) × (u ≤ t) × (r ≤ t)
stamp_lem parse u r old new e k =
    if_elim (λ stamp. (t : ℕ) × (parse stamp ≡ some t) × (u ≤ t) × (r ≤ t)) (leb u r)
      (λ b. (r, k, ground (arith, b), omega arith)) (λ b. (u, e, omega arith, ground (arith, b)))

-- What `create` makes is sound.
pub create-IsSound :
    {C : Type 0} (parse : ℕ → Option ℕ) (contents_valid : C → Bool) (contents : C)
    → (microphone system_output : List ℕ) (created_at : ℕ)
    → IfOk
        (IsSound parse contents_valid)
        (create parse contents_valid contents microphone system_output created_at)
unfolding create session_valid
create-IsSound parse contents_valid contents microphone system_output created_at =
    let value = new_session contents microphone system_output created_at in
    IfOk-then (IsSound parse contents_valid) (some_or (parse created_at) "session_contract_invalid")
      _
      (λ created e.
        let k : parse created_at ≡ some created = some_or-ok (parse created_at) _ created e in
        IfOk-unless (IsSound parse contents_valid) (not (session_valid parse contents_valid value))
          "session_contract_invalid" (ok value)
          (λ v. record {
            contents_pass = ground (arith, v);
            microphone_passes = ground (arith, v);
            system_output_passes = ground (arith, v);
            revision_fits = omega arith;
            created = created;
            updated = created;
            created_reads = k;
            updated_reads = k;
            in_time = omega arith;
            begun = tt;
            ended = refl;
          }))

-- A change of state that is allowed succeeds for a sound session, one that was made and changed by
-- this code, when its detail code fits, its revisions are not exhausted and the time that is asked
-- for can be read: the tests at the end never refuse it. The session that it makes is sound and so
-- passes those tests, has the state that was asked for and the next revision, and its last change is
-- not before the time asked for nor before the change that was last. (Sound: a session starts
-- between its creation and its last change, and ends, if it is completed, at its last.)
pub apply_runtime_state-IsSound :
    {C : Type 0} (parse : ℕ → Option ℕ) (contents_valid : C → Bool) (s : Session C)
    → (h : IsSound parse contents_valid s)
    → (state : SessionState) (updated_at requested : ℕ) (detail : Option (List ℕ))
    → allowed s.state state ≡ true
    → line_fits detail 128 ≡ true
    → s.revision < json_safe_integer_max
    → parse updated_at ≡ some requested
    → (s' : Session C) × (apply_runtime_state parse contents_valid s state updated_at detail
        ≡ ok s')
      × IsSound parse contents_valid s'
      × (session_valid parse contents_valid s' ≡ true)
      × (s'.state ≡ state)
      × (s'.revision ≡ s.revision + 1)
      × (t : ℕ) × (parse s'.updated_at ≡ some t)
      × (h.updated ≤ t)
      × (requested ≤ t)
unfolding apply_runtime_state
apply_runtime_state-IsSound parse contents_valid s h state updated_at requested detail can fits room
      e =
    let stamp = if leb h.updated requested then updated_at else s.updated_at in
    let t = stamp_lem parse h.updated requested s.updated_at updated_at h.updated_reads e in
    let health = has_health state (is_reached s.state state can) in
    let s' = changed s state stamp detail health.0 (s.revision + 1) in
    let h' =
      changed-IsSound parse contents_valid s h state stamp t.0 detail health.0
        (not_completed s.state state can) fits room t.1 t.2 in
    let valid : session_valid parse contents_valid s' ≡ true =
      session_valid-IsSound parse contents_valid s' h' in
    let next : leb (s.revision + 1) json_safe_integer_max ≡ true = ground (arith, room) in
    (
      s',
      simp (can, fits, next, h.updated_reads, e, health.1, valid),
      h',
      valid,
      refl,
      refl,
      t.0,
      t.1,
      t.2,
      t.3,
    )
