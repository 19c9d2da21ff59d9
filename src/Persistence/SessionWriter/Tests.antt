-- ===== src/Persistence/SessionWriter/Tests.antt =====
-- Runs of a session writer on small stores, and the theorems at them. The disk is the number of the
-- last entry of the journal with the number of the entry that the document has reached.
use kokoro_koe.Prelude.{if◌then◌else◌, ℕ, ◌+◌, ◌≡◌, refl, Bool, true, false, some, [], ◌∷◌}
use kokoro_koe.Prelude.Coded.{ok, err, IfOk}
use kokoro_koe.Persistence.SessionWriter.{
  finalized_transcript_segment, lifecycle_change, Stores, deferred, current, Writer,
}
use kokoro_koe.Persistence.SessionWriter.Ops.{
  reopened, open_writer, append_at, journaled, count_final, snapshot_due, attempt, retried,
  published, poll_at, advance_tick, projection, projection_by, receipt_of, index_refreshed,
  refresh_index, flush_projection, appends, polls, step, Reached, opened, called, append, poll,
}
use kokoro_koe.Persistence.SessionWriter.Invariant.{IsSound, Reached-IsSound}
use kokoro_koe.Persistence.SessionWriter.Waiting.{
  IsTimely, IsLeft, step-IsTimely, polled, polls_leave,
}

abbrev Disk : Type 0
Disk = ℕ × ℕ

abbrev stores : Bool → Stores Disk
stores works = record {
  append_journal = λ d a.
      ((d.0 + 1, d.1), ok (record { sequence = d.0 + 1; checksum = 0; already_committed = false }));
  replay_last_sequence = λ d. ok d.0;
  materialize = λ d f.
      if works
      then (
        (d.0, d.0),
        ok (record { fingerprint = d.0; checkpoint_sequence = d.0; recovered_from_backup = false }),
      )
      else (d, err "transcript_unavailable");
  read_transcript = λ d.
      ok (record { fingerprint = d.1; checkpoint_sequence = d.1; recovered_from_backup = false });
  rebuild_index = λ d. (d, ok d.1);
}

abbrev fresh : Bool → Writer Disk
fresh works =
    refresh_index (stores works) (reopened (3, 3) ((stores works).read_transcript (3, 3)) 100)

fresh_opens : (works : Bool) → open_writer (stores works) (3, 3) 100 ≡ ok (fresh works)
unfolding open_writer refresh_index index_refreshed
fresh_opens true = refl
fresh_opens false = refl

abbrev after_segment : Writer Disk
after_segment =
    (step (stores true) (fresh true) (
      appends
        (record {
          event_id = 1;
          recorded_at = "2026-01-01T00:00:00Z";
          mutation = finalized_transcript_segment "good morning";
        })
        200)).0

after_segment-Reached : Reached (stores true) after_segment
after_segment-Reached =
    called (fresh true)
      (appends
        (record {
          event_id = 1;
          recorded_at = "2026-01-01T00:00:00Z";
          mutation = finalized_transcript_segment "good morning";
        })
        200)
      (opened (3, 3) 100 (fresh true) (fresh_opens true))

-- The segment waits at 2199 milliseconds and is written at 2200.
waits : (poll (stores true) after_segment 2199).1 ≡ ok (deferred 3 1 2200)
unfolding append_at journaled count_final snapshot_due attempt retried published poll_at poll step
    append advance_tick flush_projection refresh_index index_refreshed projection projection_by
    receipt_of
waits = refl

writes : (poll (stores true) after_segment 2200).1 ≡ ok (current 4 (some 4))
unfolding append_at journaled count_final snapshot_due attempt retried published poll_at poll step
    append advance_tick flush_projection refresh_index index_refreshed projection projection_by
    receipt_of
writes = refl

Reached-IsSound_example : IsSound after_segment
Reached-IsSound_example = Reached-IsSound (stores true) after_segment after_segment-Reached

step-IsTimely_example : IfOk (IsTimely 2199) (step (stores true) after_segment (polls 2199)).1
step-IsTimely_example = step-IsTimely (stores true) after_segment (polls 2199) after_segment-Reached

-- A lifecycle change whose document is refused.
abbrev refused_boundary : Writer Disk
refused_boundary =
    (append (stores false) (fresh false)
      (record {
        event_id = 1;
        recorded_at = "2026-01-01T00:00:00Z";
        mutation = lifecycle_change "paused";
      })
      200).0

refused_boundary-IsLeft : IsLeft 3 (some "transcript_unavailable") refused_boundary
unfolding append_at journaled count_final snapshot_due attempt retried published poll_at poll step
    append advance_tick flush_projection refresh_index index_refreshed projection projection_by
    receipt_of
refused_boundary-IsLeft = (refl, refl, refl, refl)

polls_leave_example :
    IsLeft 3
      (some "transcript_unavailable")
      (polled (stores true) refused_boundary (300 ∷ 90000 ∷ []))
polls_leave_example =
    polls_leave (stores true) refused_boundary (300 ∷ 90000 ∷ []) 3 (some "transcript_unavailable")
      refused_boundary-IsLeft
