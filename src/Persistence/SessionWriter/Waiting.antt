-- ===== src/Persistence/SessionWriter/Waiting.antt =====
-- persistence/session_writer.rs: how long finalized segments wait for the document, and what a poll
-- does after a write that failed.
use Prim.Native.String.{String}
use mathlib.Core.Path.{subst, ◌∙◌}
use kokoro_koe.Prelude.{
  ℕ, ◌+◌, ◌<◌, ◌≤◌, ◌≡◌, refl, Bool, true, false, Option, none, some, if_elim, is_some, arith, ◌&&◌,
  ◌||◌, ◌==◌, ◌⊎◌, leb, ltb, not, List, [], ◌∷◌, inl, inr,
}
use kokoro_koe.Prelude.Coded.{Coded, ok, err, IfOk}
use kokoro_koe.Persistence.SessionWriter.{
  JournalAppend, JournalReceipt, DocumentSnapshot, Stores, Projection, current, deferred,
  snapshot_pending, index_pending, Writer, snapshot_segment_batch, snapshot_interval_ms,
  max_safe_tick_ms,
}
use kokoro_koe.Persistence.SessionWriter.Ops.{
  overdue, snapshot_due, index_refreshed, refresh_index, written, published, attempt, retried,
  flush_projection, is_final, is_lifecycle, at_tick, count_final, journaled, append_at, append,
  reported, receipt_of, poll_at, poll, flush, projection_by, projection, Call, appends, polls,
  flushes, step, advance_tick, Reached,
}
use kokoro_koe.Persistence.SessionWriter.Invariant.{
  SinceFits, IndexFits, IsSound, refresh_index-IsSound, Reached-IsSound, at_tick-cases,
  flush_projection-IsSound, retried-keeps, count_final-IsSound,
}

-- What a writer may say at its time: the index it calls current has a generation, and the segments
-- it has put off are fewer than a batch and wait for a deadline that is to come.
abbrev pub IsTimely : ℕ → Projection → Type 0
IsTimely now_ms (current checkpoint generation) = is_some generation ≡ true
IsTimely now_ms (deferred checkpoint pending deadline_ms) =
    (0 < pending)
    × (pending < snapshot_segment_batch)
    × (now_ms < deadline_ms)
    × (deadline_ms ≤ now_ms + snapshot_interval_ms)
IsTimely now_ms (snapshot_pending checkpoint pending code) = Unit
IsTimely now_ms (index_pending checkpoint code) = Unit

-- No document is due, unless its write has failed.
abbrev pub IsSettled : {W : Type 0} → Writer W → Type 0
IsSettled w = (snapshot_due w w.last_tick_ms ≡ false) ⊎ (is_some w.snapshot_error ≡ true)

module _ {W : Type 0} where
  projection-IsTimely :
      (w : Writer W) → IsSound w → IsSettled w → IsTimely w.last_tick_ms (projection w)
  unfolding projection snapshot_due
  projection-IsTimely w h s =
      by_fields w.snapshot_error w.pending_since_ms w.index_error w.index_dirty h.1 h.3 s
    where
      by_fields :
          (e : Option String) (since : Option ℕ) (i : Option String) (dirty : Bool)
          → SinceFits since w.pending_final_segments w.last_tick_ms
          → IndexFits dirty w.index_generation i e
          → ((leb snapshot_segment_batch w.pending_final_segments || overdue since w.last_tick_ms)
              ≡ false)
            ⊎ (is_some e ≡ true)
          → IsTimely w.last_tick_ms (projection_by w e since i)
      by_fields (some code) since i dirty f x s = tt
      by_fields none (some since) i dirty f x s = ground arith
      by_fields none none (some code) dirty f x s = tt
      by_fields none none none true f x s = absurd (ground arith)
      by_fields none none none false f x s = x.0

  index_refreshed-IsSettled :
      (w : Writer W) (r : Coded ℕ)
      → IsSettled w
      → IsSettled (index_refreshed w r) × ((index_refreshed w r).last_tick_ms ≡ w.last_tick_ms)
  unfolding index_refreshed snapshot_due
  index_refreshed-IsSettled w (ok g) h = (h, refl)
  index_refreshed-IsSettled w (err code) h = (h, refl)

module _ {W : Type 0} (st : Stores W) where
  refresh_index-IsSettled :
      (w : Writer W)
      → IsSettled w
      → IsSettled (refresh_index st w) × ((refresh_index st w).last_tick_ms ≡ w.last_tick_ms)
  unfolding refresh_index snapshot_due
  refresh_index-IsSettled w h =
      index_refreshed-IsSettled (record w { disk = (st.rebuild_index w.disk).0 })
        (st.rebuild_index w.disk).1 h

  published-IsSettled :
      (w : Writer W) (out : Coded DocumentSnapshot)
      → IsSettled (published st w out) × ((published st w out).last_tick_ms ≡ w.last_tick_ms)
  unfolding published snapshot_due
  published-IsSettled w (ok s) = refresh_index-IsSettled (written w s) (inl refl)
  published-IsSettled w (err code) = (inr refl, refl)

  flush_projection-IsSettled :
      (w : Writer W)
      → IsSettled (flush_projection st w) × ((flush_projection st w).last_tick_ms ≡ w.last_tick_ms)
  unfolding flush_projection attempt
  flush_projection-IsSettled w = (
    settled.0,
    settled.1
        ∙ retried-keeps st (λ v. v.last_tick_ms ≡ w.last_tick_ms) first.0 first.1 (λ d f c. refl),
  )
    where
      first : Writer W × Coded DocumentSnapshot
      first = attempt st w

      second : Writer W × Coded DocumentSnapshot
      second = retried st first.0 first.1

      settled :
          IsSettled (published st second.0 second.1)
          × ((published st second.0 second.1).last_tick_ms ≡ second.0.last_tick_ms)
      settled = published-IsSettled second.0 second.1

-- A writer at a time, after a call.
abbrev IsAt : {W : Type 0} → ℕ → Writer W → Type 0
IsAt now_ms w = IsSound w × IsSettled w × (w.last_tick_ms ≡ now_ms)

module _ {W : Type 0} (st : Stores W) where
  flush_projection-IsAt :
      (w : Writer W) (now_ms : ℕ)
      → IsSound w
      → w.last_tick_ms ≡ now_ms
      → IsAt now_ms (flush_projection st w)
  flush_projection-IsAt w now_ms h e =
      let s = flush_projection-IsSettled st w in (flush_projection-IsSound st w h, s.0, s.1 ∙ e)

  poll_at-IsAt :
      (w : Writer W) (now_ms : ℕ)
      → IsSound w
      → w.last_tick_ms ≡ now_ms
      → IsAt now_ms (poll_at st w now_ms)
  unfolding poll_at
  poll_at-IsAt w now_ms h e =
      if_elim (IsAt now_ms) (snapshot_due w now_ms) (λ d. flush_projection-IsAt w now_ms h e)
        (λ d.
          let settled : IsSettled w = inl (rw e d) in
          if_elim (IsAt now_ms) (w.index_dirty && w.pending_final_segments == 0)
            (λ b.
              let s = refresh_index-IsSettled st w settled in
              (refresh_index-IsSound st w (h.0, h.1, h.2), s.0, s.1 ∙ e))
            (λ b. (h, settled, e)))

  reported_lem : (w : Writer W) (now_ms : ℕ) → IsAt now_ms w → IsTimely now_ms (projection w)
  reported_lem w now_ms h =
      subst (λ t. IsTimely t (projection w)) h.2 (projection-IsTimely w h.0 h.1)

  count_final-keeps_time :
      (w : Writer W) (a : JournalAppend) (receipt : JournalReceipt) (now_ms : ℕ)
      → (count_final w a.mutation receipt now_ms).last_tick_ms ≡ w.last_tick_ms
  unfolding count_final
  count_final-keeps_time w a receipt now_ms =
      if_elim (λ (v : Writer W). v.last_tick_ms ≡ w.last_tick_ms)
        (is_final a.mutation && not receipt.already_committed) (λ b. refl) (λ b. refl)

  journaled-IsTimely :
      (w : Writer W) (a : JournalAppend) (now_ms : ℕ) (out : Coded JournalReceipt)
      → IsSound w
      → w.last_tick_ms ≡ now_ms
      → IfOk (IsTimely now_ms) (reported (journaled st w a now_ms out).1)
  unfolding journaled receipt_of
  journaled-IsTimely w a now_ms (err code) h e = tt
  journaled-IsTimely w a now_ms (ok receipt) h e =
      let counted = count_final w a.mutation receipt now_ms in
      let kept = count_final-IsSound st w a receipt now_ms h e in
      let same = count_final-keeps_time w a receipt now_ms ∙ e in
      if_elim (λ (v : Writer W). IsTimely now_ms (projection v))
        (is_lifecycle a.mutation || snapshot_due counted now_ms)
        (λ b.
          reported_lem (flush_projection st counted) now_ms
            (flush_projection-IsAt counted now_ms kept same))
        (λ b. reported_lem counted now_ms (kept, inl (rw same (ground arith)), same))

-- The time that a call gives.
abbrev pub time_of : Call → ℕ
time_of (appends a now_ms) = now_ms
time_of (polls now_ms) = now_ms
time_of (flushes now_ms) = now_ms

-- A call of a writer that has been reached answers, where it is not refused, with a projection that
-- suits the time of the call: an index that it calls current has a generation; segments that it has
-- put off are at least one and fewer than a batch of five, and their deadline is after the time of
-- the call and at most two seconds after it. (Nothing is said of the numbers of the answers that show
-- an error of the document or of the index.)
pub step-IsTimely :
    {W : Type 0} (st : Stores W) (w : Writer W) (c : Call)
    → Reached st w
    → IfOk (IsTimely (time_of c)) (step st w c).1
unfolding step append append_at poll flush
step-IsTimely st w (polls now_ms) r =
    at_tick-cases st (λ r. IfOk (IsTimely now_ms) r.1) w now_ms _ (Reached-IsSound st w r)
      (λ code. tt)
      (λ w' h e. reported_lem st (poll_at st w' now_ms) now_ms (poll_at-IsAt st w' now_ms h e))
step-IsTimely st w (flushes now_ms) r =
    at_tick-cases st (λ r. IfOk (IsTimely now_ms) r.1) w now_ms _ (Reached-IsSound st w r)
      (λ code. tt)
      (λ w' h e.
        reported_lem st (flush_projection st w') now_ms (flush_projection-IsAt st w' now_ms h e))
step-IsTimely st w (appends a now_ms) r =
    at_tick-cases st (λ r. IfOk (IsTimely now_ms) (reported r.1)) w now_ms _
      (Reached-IsSound st w r) (λ code. tt)
      (λ w' h e.
        journaled-IsTimely st (record w' { disk = (st.append_journal w'.disk a).0 }) a now_ms
          (st.append_journal w'.disk a).1 h e)

-- Polls, one after the other.
abbrev pub polled : {W : Type 0} → Stores W → Writer W → List ℕ → Writer W
polled st w [] = w
polled st w (now_ms ∷ later) = polled st (poll st w now_ms).0 later

-- No segment waits, and the document was last written, or refused, as it says.
abbrev pub IsLeft : {W : Type 0} → ℕ → Option String → Writer W → Type 0
IsLeft checkpoint error w =
    (w.pending_since_ms ≡ none)
    × (w.pending_final_segments ≡ 0)
    × (w.checkpoint_sequence ≡ checkpoint)
    × (w.snapshot_error ≡ error)

index_refreshed-IsLeft :
    {W : Type 0} (c : ℕ) (e : Option String) (w : Writer W) (r : Coded ℕ)
    → IsLeft c e w
    → IsLeft c e (index_refreshed w r)
unfolding index_refreshed
index_refreshed-IsLeft c e w (ok g) h = h
index_refreshed-IsLeft c e w (err code) h = h

nothing_due :
    (since : Option ℕ) (pending now_ms : ℕ)
    → since ≡ none
    → pending ≡ 0
    → (leb snapshot_segment_batch pending || overdue since now_ms) ≡ false
nothing_due since pending now_ms e e' = rw (e, e') refl

poll_at-IsLeft :
    {W : Type 0} (st : Stores W) (c : ℕ) (e : Option String) (w : Writer W) (now_ms : ℕ)
    → IsLeft c e w
    → IsLeft c e (poll_at st w now_ms)
unfolding poll_at refresh_index snapshot_due
poll_at-IsLeft st c e w now_ms h =
    if_elim (IsLeft c e)
      (leb snapshot_segment_batch w.pending_final_segments || overdue w.pending_since_ms now_ms)
      (λ b.
        absurd
          (ground (arith, nothing_due w.pending_since_ms w.pending_final_segments now_ms h.0 h.1)))
      (λ b.
        if_elim (IsLeft c e) (w.index_dirty && w.pending_final_segments == 0)
          (λ b'.
            index_refreshed-IsLeft c e (record w { disk = (st.rebuild_index w.disk).0 })
              (st.rebuild_index w.disk).1 h)
          (λ b'. h))

poll-IsLeft :
    {W : Type 0} (st : Stores W) (c : ℕ) (e : Option String) (w : Writer W) (now_ms : ℕ)
    → IsLeft c e w
    → IsLeft c e (poll st w now_ms).0
unfolding poll advance_tick
poll-IsLeft {W} st c e w now_ms h =
    if_elim
      (λ (r : Coded (Writer W)).
        IsLeft c e
          (at_tick w r (λ w'. (poll_at st w' now_ms, ok (projection (poll_at st w' now_ms))))).0)
      (ltb max_safe_tick_ms now_ms || ltb now_ms w.last_tick_ms) (λ b. h)
      (λ b. poll_at-IsLeft st c e (record w { last_tick_ms = now_ms }) now_ms h)

-- Polls never write the document of a writer that has no segment waiting: after any number of polls,
-- at any times, it has the checkpoint it had, no segment waits, and an error of its document, such as
-- that of a lifecycle change whose write failed, still stands.
pub polls_leave :
    {W : Type 0} (st : Stores W) (w : Writer W) (times : List ℕ) (checkpoint : ℕ)
    (error : Option String)
    → IsLeft checkpoint error w
    → IsLeft checkpoint error (polled st w times)
polls_leave st w [] c e h = h
polls_leave st w (now_ms ∷ later) c e h =
    polls_leave st (poll st w now_ms).0 later c e (poll-IsLeft st c e w now_ms h)
