-- ===== src/Persistence/SessionWriter.antt =====
-- persistence/session_writer.rs: `PersistedSessionWriter`. The journal, the transcript documents and
-- the search index that it writes to are an interface, `Stores`, on the state `W` of the disk. A
-- fingerprint, a checksum and an index generation are numbers; the locator of the session is part of
-- the interface.
pub mod Ops
pub mod Invariant
pub mod Waiting
mod Tests
use Prim.Native.String.{String}
use mathlib.Core.Path.{subst}
use kokoro_koe.Prelude.Coded.{Coded}
use kokoro_koe.Prelude.{ℕ, Bool, Option, ◌≡◌, ◌⊎◌, refl, inl, inr}

abbrev pub snapshot_interval_ms : ℕ
snapshot_interval_ms = 2000

abbrev pub snapshot_segment_batch : ℕ
snapshot_segment_batch = 5

abbrev pub max_safe_tick_ms : ℕ
max_safe_tick_ms = 9007199254740991

-- `JournalMutation`, each with its content as it stands in the journal
pub data Mutation : Type 0 where
  finalized_transcript_segment lifecycle_change segment_correction segment_importance
        segment_bookmark :
      String → Mutation

-- `JournalAppend`
pub record JournalAppend : Type 0 where
  pub event_id : ℕ
  pub recorded_at : String
  pub mutation : Mutation

pub record JournalReceipt : Type 0 where
  pub sequence : ℕ
  pub checksum : ℕ
  pub already_committed : Bool

-- What the transcript store says of a document.
pub record DocumentSnapshot : Type 0 where
  pub fingerprint : ℕ
  pub checkpoint_sequence : ℕ
  pub recovered_from_backup : Bool

-- `SessionJournal::append` and `replay`, `TranscriptStore::materialize` and `read_transcript`, and
-- `TranscriptSearchCatalog::rebuild_index`
pub record Stores (W : Type 0) : Type 0 where
  pub append_journal : W → JournalAppend → W × Coded JournalReceipt
  pub replay_last_sequence : W → Coded ℕ
  pub materialize : W → Option ℕ → W × Coded DocumentSnapshot
  pub read_transcript : W → Coded DocumentSnapshot
  pub rebuild_index : W → W × Coded ℕ

-- `SessionWriterProjection`
pub data Projection : Type 0 where
  current : ℕ → Option ℕ → Projection
  deferred : ℕ → ℕ → ℕ → Projection
  snapshot_pending : ℕ → ℕ → String → Projection
  index_pending : ℕ → String → Projection

-- `SessionWriterReceipt`
pub record WriterReceipt : Type 0 where
  pub sequence : ℕ
  pub checksum : ℕ
  pub already_committed : Bool
  pub projection : Projection

-- `PersistedSessionWriter`
pub record Writer (W : Type 0) : Type 0 where
  pub disk : W
  pub snapshot_fingerprint : Option ℕ
  pub checkpoint_sequence : ℕ
  pub pending_final_segments : ℕ
  pub pending_since_ms : Option ℕ
  pub last_tick_ms : ℕ
  pub index_dirty : Bool
  pub index_generation : Option ℕ
  pub snapshot_error : Option String
  pub index_error : Option String
