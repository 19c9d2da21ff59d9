-- ===== src/Persistence/SessionWriter/Invariant.antt =====
-- persistence/session_writer.rs: the invariant of a writer, through each of its calls.
use Prim.Native.Nat.{min}
use Prim.Native.String.{String}
use kokoro_koe.Prelude.{
  ℕ, ◌+◌, ◌<◌, ◌≤◌, ◌≡◌, refl, Bool, true, false, Option, none, some, if_elim, is_some, arith, inl,
  inr, not, ◌&&◌, ◌||◌, ltb, ◌==◌,
}
use kokoro_koe.Prelude.Coded.{Coded, ok, err, Coded-cases, IfOk, IfOk-of}
use kokoro_koe.Persistence.SessionWriter.{
  JournalAppend, JournalReceipt, DocumentSnapshot, Stores, Writer, snapshot_segment_batch,
  max_safe_tick_ms,
}
use kokoro_koe.Persistence.SessionWriter.Ops.{
  advance_tick, snapshot_due, index_refreshed, refresh_index, adopt, attempt, is_conflict, retried,
  written, published, flush_projection, is_final, is_lifecycle, count_final, get_or_insert,
  journaled, append_at, at_tick, append, poll_at, poll, flush, reopened, open_writer, Call, appends,
  polls, flushes, step, Reached, opened, called,
}

-- The time of the oldest segment that waits is there when segments wait.
abbrev pub SinceFits : Option ℕ → ℕ → ℕ → Type 0
SinceFits none pending last = pending ≡ 0
SinceFits (some since) pending last = (0 < pending) × (since ≤ last)

-- An index that is behind is known to be behind; one that is not has a generation.
abbrev pub IndexFits : Bool → Option ℕ → Option String → Option String → Type 0
IndexFits false generation index snapshot = (is_some generation ≡ true) × (index ≡ none)
IndexFits true generation index snapshot = (is_some index || is_some snapshot) ≡ true

abbrev pub IsSound : {W : Type 0} → Writer W → Type 0
IsSound w =
    (w.pending_final_segments ≤ snapshot_segment_batch)
    × SinceFits w.pending_since_ms w.pending_final_segments w.last_tick_ms
    × (w.last_tick_ms ≤ max_safe_tick_ms)
    × IndexFits w.index_dirty w.index_generation w.index_error w.snapshot_error

-- As `IsSound`, less what the index says.
abbrev pub IsTimed : {W : Type 0} → Writer W → Type 0
IsTimed w =
    (w.pending_final_segments ≤ snapshot_segment_batch)
    × SinceFits w.pending_since_ms w.pending_final_segments w.last_tick_ms
    × (w.last_tick_ms ≤ max_safe_tick_ms)

-- What a flush needs of a writer: it either refreshes the index or has an error to show.
abbrev pub IsMendable : {W : Type 0} → Writer W → Type 0
IsMendable w =
    IsTimed w
    × ((code : String) → IndexFits w.index_dirty w.index_generation w.index_error (some code))

since_later :
    (since : Option ℕ) (pending last now : ℕ)
    → last ≤ now
    → SinceFits since pending last
    → SinceFits since pending now
since_later none pending last now l h = h
since_later (some t) pending last now l h = (h.0, omega (arith, l, h.1))

index_failed :
    (dirty : Bool) (g : Option ℕ) (i s : Option String)
    → IndexFits dirty g i s
    → (code : String) → IndexFits dirty g i (some code)
index_failed false g i s h code = h
index_failed true g (some x) s h code = refl
index_failed true g none s h code = refl

module _ {W : Type 0} (st : Stores W) where
  pub refresh_index-IsSound : (w : Writer W) → IsTimed w → IsSound (refresh_index st w)
  unfolding refresh_index index_refreshed
  refresh_index-IsSound w h = by_report (st.rebuild_index w.disk).1
    where
      by_report :
          (r : Coded ℕ)
          → IsSound (index_refreshed (record w { disk = (st.rebuild_index w.disk).0 }) r)
      by_report (ok g) = (h.0, h.1, h.2, (refl, refl))
      by_report (err code) = (h.0, h.1, h.2, refl)

  -- Adopting a document touches neither the times nor the index.
  adopt-keeps :
      (P : Writer W → Type 0) (w : Writer W) (r : Coded DocumentSnapshot)
      → ((f : Option ℕ) (c : ℕ)
          → P (record w { snapshot_fingerprint = f; checkpoint_sequence = c }))
      → P (adopt w r).0
  unfolding adopt
  adopt-keeps P w (err code) h = h w.snapshot_fingerprint w.checkpoint_sequence
  adopt-keeps P w (ok s) h =
      if_elim (λ (r : Writer W × Bool). P r.0) s.recovered_from_backup
        (λ e. h w.snapshot_fingerprint w.checkpoint_sequence)
        (λ e. h (some s.fingerprint) s.checkpoint_sequence)

  pub retried-keeps :
      (P : Writer W → Type 0) (w : Writer W) (out : Coded DocumentSnapshot)
      → ((d : W) (f : Option ℕ) (c : ℕ)
          → P (record w { disk = d; snapshot_fingerprint = f; checkpoint_sequence = c }))
      → P (retried st w out).0
  unfolding retried attempt
  retried-keeps P w out h =
      if_elim (λ (r : Writer W × Coded DocumentSnapshot). P r.0) (is_conflict out)
        (λ e.
          let a = adopt w (st.read_transcript w.disk) in
          if_elim (λ (r : Writer W × Coded DocumentSnapshot). P r.0) a.1
            (λ e'.
              adopt-keeps
                (λ v. P (record v { disk = (st.materialize v.disk v.snapshot_fingerprint).0 })) w
                (st.read_transcript w.disk) (λ f c. h (st.materialize w.disk f).0 f c))
            (λ e'. adopt-keeps P w (st.read_transcript w.disk) (λ f c. h w.disk f c)))
        (λ e. h w.disk w.snapshot_fingerprint w.checkpoint_sequence)

  pub published-IsSound :
      (w : Writer W) (out : Coded DocumentSnapshot)
      → IsTimed w
      → ((code : String) → IndexFits w.index_dirty w.index_generation w.index_error (some code))
      → IsSound (published st w out)
  unfolding published
  published-IsSound w (ok s) h i = refresh_index-IsSound (written w s) (omega arith, refl, h.2)
  published-IsSound w (err code) h i = (h.0, h.1, h.2, i code)

  flush_projection-repairs : (w : Writer W) → IsMendable w → IsSound (flush_projection st w)
  unfolding flush_projection attempt
  flush_projection-repairs w h = published-IsSound second.0 second.1 kept.0 kept.1
    where
      first : Writer W × Coded DocumentSnapshot
      first = attempt st w

      second : Writer W × Coded DocumentSnapshot
      second = retried st first.0 first.1

      kept : IsMendable second.0
      kept = retried-keeps IsMendable first.0 first.1 (λ d f c. h)

  pub flush_projection-IsSound : (w : Writer W) → IsSound w → IsSound (flush_projection st w)
  flush_projection-IsSound w h = flush_projection-repairs w (
    (h.0, h.1, h.2),
    index_failed w.index_dirty w.index_generation w.index_error w.snapshot_error h.3,
  )

  -- A call is refused with its tick, or goes on from a writer whose clock has been set.
  pub at_tick-cases {ℓ κ} :
      {B : Type ℓ} (P : Writer W × Coded B → Type κ) (w : Writer W) (now_ms : ℕ)
      (call : Writer W → Writer W × Coded B)
      → IsSound w
      → ((code : String) → P (w, err code))
      → ((w' : Writer W) → IsSound w' → w'.last_tick_ms ≡ now_ms → P (call w'))
      → P (at_tick w (advance_tick w now_ms) call)
  unfolding advance_tick
  at_tick-cases P w now_ms call h refused taken =
      if_elim (λ (r : Coded (Writer W)). P (at_tick w r call))
        (ltb max_safe_tick_ms now_ms || ltb now_ms w.last_tick_ms)
        (λ e. refused "session_writer_clock_invalid")
        (λ e.
          taken (record w { last_tick_ms = now_ms })
            (
              h.0,
              since_later w.pending_since_ms w.pending_final_segments w.last_tick_ms now_ms
                  (ground arith) h.1,
              ground arith,
              h.3,
            )
            refl)

  pub count_final-IsSound :
      (w : Writer W) (a : JournalAppend) (receipt : JournalReceipt) (now_ms : ℕ)
      → IsSound w
      → w.last_tick_ms ≡ now_ms
      → IsSound (count_final w a.mutation receipt now_ms)
  unfolding count_final
  count_final-IsSound w a receipt now_ms h e =
      if_elim IsSound (is_final a.mutation && not receipt.already_committed)
        (λ e'. (omega (arith, h.0), started w.pending_since_ms h.1, h.2, h.3)) (λ e'. h)
    where
      started :
          (since : Option ℕ)
          → SinceFits since w.pending_final_segments w.last_tick_ms
          → SinceFits
              (get_or_insert since now_ms)
              (min (min (w.pending_final_segments + 1) 255) snapshot_segment_batch)
              w.last_tick_ms
      started none f = (omega arith, omega (arith, e))
      started (some t) f = (omega arith, f.1)

  pub poll_at-IsSound : (w : Writer W) (now_ms : ℕ) → IsSound w → IsSound (poll_at st w now_ms)
  unfolding poll_at
  poll_at-IsSound w now_ms h =
      if_elim IsSound (snapshot_due w now_ms) (λ e. flush_projection-IsSound w h)
        (λ e.
          if_elim IsSound (w.index_dirty && w.pending_final_segments == 0)
            (λ e'. refresh_index-IsSound w (h.0, h.1, h.2)) (λ e'. h))

  journaled-IsSound :
      (w : Writer W) (a : JournalAppend) (now_ms : ℕ) (out : Coded JournalReceipt)
      → IsSound w
      → w.last_tick_ms ≡ now_ms
      → IsSound (journaled st w a now_ms out).0
  unfolding journaled
  journaled-IsSound w a now_ms (err code) h e = h
  journaled-IsSound w a now_ms (ok receipt) h e =
      let counted = count_final w a.mutation receipt now_ms in
      let kept = count_final-IsSound w a receipt now_ms h e in
      if_elim IsSound (is_lifecycle a.mutation || snapshot_due counted now_ms)
        (λ e'. flush_projection-IsSound counted kept) (λ e'. kept)

  pub append_at-IsSound :
      (w : Writer W) (a : JournalAppend) (now_ms : ℕ)
      → IsSound w
      → w.last_tick_ms ≡ now_ms
      → IsSound (append_at st w a now_ms).0
  unfolding append_at
  append_at-IsSound w a now_ms h e =
      journaled-IsSound (record w { disk = (st.append_journal w.disk a).0 }) a now_ms
        (st.append_journal w.disk a).1 h e

  -- A writer is opened on any disk, unless the time or the journal is refused.
  open_writer-IsSound : (disk : W) (now_ms : ℕ) → IfOk IsSound (open_writer st disk now_ms)
  unfolding open_writer
  open_writer-IsSound disk now_ms =
      if_elim (IfOk IsSound) (ltb max_safe_tick_ms now_ms) (λ e. tt)
        (λ e. elim (Coded-cases (st.replay_last_sequence disk)) [
          | inl (n, e') ↦ rw e' (
              if_elim IsSound
                (not (n == w.checkpoint_sequence) || not (is_some w.snapshot_fingerprint))
                (λ e'. flush_projection-repairs w ((omega arith, refl, ground arith), λ code. refl))
                (λ e'. refresh_index-IsSound w (omega arith, refl, ground arith)))
          | inr (code, e') ↦ rw e' tt
        ])
    where
      w : Writer W
      w = reopened disk (st.read_transcript disk) now_ms

  pub step-IsSound : (w : Writer W) (c : Call) → IsSound w → IsSound (step st w c).0
  unfolding step append append_at journaled poll flush
  step-IsSound w (polls now_ms) h =
      at_tick-cases (λ r. IsSound r.0) w now_ms _ h (λ code. h)
        (λ w' h' e. poll_at-IsSound w' now_ms h')
  step-IsSound w (flushes now_ms) h =
      at_tick-cases (λ r. IsSound r.0) w now_ms _ h (λ code. h)
        (λ w' h' e. flush_projection-IsSound w' h')
  step-IsSound w (appends a now_ms) h =
      at_tick-cases (λ r. IsSound r.0) w now_ms _ h (λ code. h)
        (λ w' h' e. append_at-IsSound w' a now_ms h' e)

  -- Each writer that is opened and then called, in any order and at any times, whatever the stores
  -- answer, keeps at most five segments waiting, knows since when exactly while some wait, has not
  -- seen a time after the greatest safe one, and is either up to date with its index, which then has a
  -- generation and no error, or has an error to show.
  pub Reached-IsSound : (w : Writer W) → Reached st w → IsSound w
  Reached-IsSound w (opened disk now_ms w' e) = IfOk-of IsSound e (open_writer-IsSound disk now_ms)
  Reached-IsSound w (called w' c r) = step-IsSound w' c (Reached-IsSound w' r)
