-- ===== src/Persistence/SessionWriter/Ops.antt =====
-- persistence/session_writer.rs: the calls of `PersistedSessionWriter`. The faults that tests inject
-- are left out: every call outside the tests passes none.
use Prim.Native.Nat.{min}
use Prim.Native.String.{String}
use kokoro_koe.Prelude.{
  ℕ, ◌+◌, ◌-◌, Bool, true, false, not, ◌&&◌, ◌||◌, Option, none, some, ltb, leb, ◌==◌,
  if◌then◌else◌, is_some, sat_add, ◌≡◌,
}
use kokoro_koe.Prelude.Coded.{Coded, ok, err}
use kokoro_koe.Persistence.SessionWriter.{
  Mutation, finalized_transcript_segment, lifecycle_change, JournalAppend, JournalReceipt,
  DocumentSnapshot, Stores, Projection, current, deferred, snapshot_pending, index_pending,
  WriterReceipt, Writer, snapshot_interval_ms, snapshot_segment_batch, max_safe_tick_ms,
}
use text.Mathlib.Text.{◌==◌ as str_eq}

abbrev pub is_final : Mutation → Bool
is_final (finalized_transcript_segment content) = true
is_final _ = false

abbrev pub is_lifecycle : Mutation → Bool
is_lifecycle (lifecycle_change content) = true
is_lifecycle _ = false

abbrev pub get_or_insert : Option ℕ → ℕ → Option ℕ
get_or_insert none v = some v
get_or_insert (some a) v = some a

abbrev pub overdue : Option ℕ → ℕ → Bool
overdue none now_ms = false
overdue (some started) now_ms = leb snapshot_interval_ms (now_ms - started)

abbrev pub is_conflict : Coded DocumentSnapshot → Bool
is_conflict (ok s) = false
is_conflict (err code) = str_eq code "transcript_snapshot_conflict"

abbrev pub fingerprint_in : Coded DocumentSnapshot → Option ℕ
fingerprint_in (ok s) = some s.fingerprint
fingerprint_in (err code) = none

abbrev pub checkpoint_in : Coded DocumentSnapshot → ℕ
checkpoint_in (ok s) = s.checkpoint_sequence
checkpoint_in (err code) = 0

module _ {W : Type 0} where
  unfoldable pub projection_by : Writer W → Option String → Option ℕ → Option String → Projection
  projection_by w (some code) since index =
      snapshot_pending w.checkpoint_sequence w.pending_final_segments code
  projection_by w none (some since) index =
      deferred w.checkpoint_sequence w.pending_final_segments (sat_add since snapshot_interval_ms)
  projection_by w none none (some code) = index_pending w.checkpoint_sequence code
  projection_by w none none none = current w.checkpoint_sequence w.index_generation

  -- `projection`
  unfoldable pub projection : Writer W → Projection
  unfolding projection_by
  projection w = projection_by w w.snapshot_error w.pending_since_ms w.index_error

  -- `advance_tick`
  unfoldable pub advance_tick : Writer W → ℕ → Coded (Writer W)
  advance_tick w now_ms =
      if ltb max_safe_tick_ms now_ms || ltb now_ms w.last_tick_ms
      then err "session_writer_clock_invalid"
      else ok (record w { last_tick_ms = now_ms })

  unfoldable pub snapshot_due : Writer W → ℕ → Bool
  snapshot_due w now_ms =
      leb snapshot_segment_batch w.pending_final_segments || overdue w.pending_since_ms now_ms

  -- What `refresh_index` writes, by what the catalog answers.
  unfoldable pub index_refreshed : Writer W → Coded ℕ → Writer W
  index_refreshed w (ok generation) = record w {
    index_generation = some generation;
    index_dirty = false;
    index_error = none;
  }
  index_refreshed w (err code) = record w { index_dirty = true; index_error = some code }

  unfoldable pub refresh_index : Stores W → Writer W → Writer W
  unfolding index_refreshed
  refresh_index st w =
      let (disk, report) = st.rebuild_index w.disk in
      index_refreshed (record w { disk = disk }) report

  -- What `adopt_own_projection` writes, and whether it did.
  unfoldable pub adopt : Writer W → Coded DocumentSnapshot → Writer W × Bool
  adopt w (err code) = (w, false)
  adopt w (ok s) = if s.recovered_from_backup then (w, false) else (
    record w {
      snapshot_fingerprint = some s.fingerprint;
      checkpoint_sequence = s.checkpoint_sequence;
    },
    true,
  )

  -- One attempt to write the document.
  unfoldable pub attempt : Stores W → Writer W → Writer W × Coded DocumentSnapshot
  attempt st w =
      let (disk, out) = st.materialize w.disk w.snapshot_fingerprint in
      (record w { disk = disk }, out)

  -- After a conflict with a document of our own, the second attempt.
  unfoldable pub retried :
      Stores W → Writer W → Coded DocumentSnapshot → Writer W × Coded DocumentSnapshot
  unfolding adopt attempt
  retried st w out =
      if is_conflict out
      then (let (w', adopted) = adopt w (st.read_transcript w.disk) in
          if adopted then attempt st w' else (w', out))
      else (w, out)

  -- What a written document changes.
  abbrev pub written : Writer W → DocumentSnapshot → Writer W
  written w s = record w {
    snapshot_fingerprint = some s.fingerprint;
    checkpoint_sequence = s.checkpoint_sequence;
    pending_final_segments = 0;
    pending_since_ms = none;
    snapshot_error = none;
    index_dirty = true;
  }

  unfoldable pub published : Stores W → Writer W → Coded DocumentSnapshot → Writer W
  unfolding refresh_index
  published st w (ok s) = refresh_index st (written w s)
  published st w (err code) = record w { snapshot_error = some code }

  unfoldable pub flush_projection : Stores W → Writer W → Writer W
  unfolding attempt retried published
  flush_projection st w =
      let first = attempt st w in
      let second = retried st first.0 first.1 in published st second.0 second.1

  -- The bookkeeping of a journaled segment.
  unfoldable pub count_final : Writer W → Mutation → JournalReceipt → ℕ → Writer W
  count_final w mutation receipt now_ms =
      if is_final mutation && not receipt.already_committed
      then record w {
        pending_final_segments =
            min (min (w.pending_final_segments + 1) 255) snapshot_segment_batch;
        pending_since_ms = get_or_insert w.pending_since_ms now_ms;
      }
      else w

  unfoldable pub receipt_of : Writer W → JournalReceipt → WriterReceipt
  unfolding projection
  receipt_of w receipt = record {
    sequence = receipt.sequence;
    checksum = receipt.checksum;
    already_committed = receipt.already_committed;
    projection = projection w;
  }

  -- `append` once the journal has answered
  unfoldable pub journaled :
      Stores W
      → Writer W
      → JournalAppend
      → ℕ
      → Coded JournalReceipt
      → Writer W × Coded WriterReceipt
  unfolding count_final snapshot_due flush_projection receipt_of
  journaled st w a now_ms (err code) = (w, err code)
  journaled st w a now_ms (ok receipt) =
      let counted = count_final w a.mutation receipt now_ms in
      let w' =
        if is_lifecycle a.mutation || snapshot_due counted now_ms
        then flush_projection st counted
        else counted in
      (w', ok (receipt_of w' receipt))

  unfoldable pub append_at :
      Stores W → Writer W → JournalAppend → ℕ → Writer W × Coded WriterReceipt
  unfolding journaled
  append_at st w a now_ms =
      let (disk, out) = st.append_journal w.disk a in
      journaled st (record w { disk = disk }) a now_ms out

  -- A call whose tick is refused changes nothing.
  abbrev pub at_tick {ℓ} :
      {B : Type ℓ}
      → Writer W
      → Coded (Writer W)
      → (Writer W → Writer W × Coded B)
      → Writer W × Coded B
  at_tick w (err code) call = (w, err code)
  at_tick w (ok w') call = call w'

  unfoldable pub append : Stores W → Writer W → JournalAppend → ℕ → Writer W × Coded WriterReceipt
  unfolding advance_tick append_at
  append st w a now_ms = at_tick w (advance_tick w now_ms) (λ w'. append_at st w' a now_ms)

  unfoldable pub poll_at : Stores W → Writer W → ℕ → Writer W
  unfolding snapshot_due flush_projection refresh_index
  poll_at st w now_ms =
      if snapshot_due w now_ms
      then flush_projection st w
      else if w.index_dirty && w.pending_final_segments == 0
      then refresh_index st w
      else w

  unfoldable pub poll : Stores W → Writer W → ℕ → Writer W × Coded Projection
  unfolding advance_tick poll_at projection
  poll st w now_ms =
      at_tick w (advance_tick w now_ms)
        (λ w'. let done = poll_at st w' now_ms in (done, ok (projection done)))

  unfoldable pub flush : Stores W → Writer W → ℕ → Writer W × Coded Projection
  unfolding advance_tick flush_projection projection
  flush st w now_ms =
      at_tick w (advance_tick w now_ms)
        (λ w'. let done = flush_projection st w' in (done, ok (projection done)))

  -- The writer that `open` makes before it repairs what is behind.
  abbrev pub reopened : W → Coded DocumentSnapshot → ℕ → Writer W
  reopened disk existing now_ms = record {
    disk = disk;
    snapshot_fingerprint = fingerprint_in existing;
    checkpoint_sequence = checkpoint_in existing;
    pending_final_segments = 0;
    pending_since_ms = none;
    last_tick_ms = now_ms;
    index_dirty = true;
    index_generation = none;
    snapshot_error = none;
    index_error = none;
  }

  -- `open`, on a disk whose three stores have been opened
  unfoldable pub open_writer : Stores W → W → ℕ → Coded (Writer W)
  unfolding flush_projection refresh_index
  open_writer st disk now_ms =
      if ltb max_safe_tick_ms now_ms
      then err "session_writer_clock_invalid"
      else elim (st.replay_last_sequence disk) [
        | err code ↦ err code
        | ok last_sequence ↦
            let w = reopened disk (st.read_transcript disk) now_ms in
            ok (
              if not (last_sequence == w.checkpoint_sequence)
                || not (is_some w.snapshot_fingerprint)
              then flush_projection st w
              else refresh_index st w)
      ]

-- The calls of a writer, with the time of each.
pub data Call : Type 0 where
  appends : JournalAppend → ℕ → Call
  polls flushes : ℕ → Call

-- What a receipt says of the document and of the index.
abbrev pub reported : Coded WriterReceipt → Coded Projection
reported (ok receipt) = ok receipt.projection
reported (err code) = err code

unfoldable pub step : {W : Type 0} → Stores W → Writer W → Call → Writer W × Coded Projection
step st w (appends a now_ms) = let (w', out) = append st w a now_ms in (w', reported out)
step st w (polls now_ms) = poll st w now_ms
step st w (flushes now_ms) = flush st w now_ms

-- The writers that calls lead to.
pub data Reached {W : Type 0} (st : Stores W) : Writer W → Type 0 where
  opened : (disk : W) (now_ms : ℕ) (w : Writer W) → open_writer st disk now_ms ≡ ok w → Reached st w
  called : (w : Writer W) (c : Call) → Reached st w → Reached st (step st w c).0
