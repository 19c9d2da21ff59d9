-- ===== src/Transcription/Product/Outcomes.antt =====
-- transcription/product.rs: what a caller of `reserve_start` and of `stop` is told, and what has become
-- of the product then.
use kokoro_koe.Prelude.{ℕ, ◌≡◌, ◌⊎◌, true, false, ◌||◌, Option, none, some, is_some}
use kokoro_koe.Prelude.Coded.{Coded, ok, err}
use kokoro_koe.Transcription.Product.{
  starting, stopping, ProductState, is_busy, has_ended, Stopping, already, refused, joins,
}

-- A launch is reserved only on a free product and with a new request; a refusal says why.
abbrev pub IsStartOutcome : ProductState → ℕ → Option ℕ → ProductState → Coded (Unit {0}) → Type 0
IsStartOutcome st id now t (ok done) =
    (is_some st.active ≡ false)
    × (is_busy st.status.state ≡ false)
    × ¬ st.status.request_id ≡ some id
    × (t.active ≡ none)
    × (t.status.state ≡ starting)
    × (t.status.request_id ≡ some id)
    × (t.status.started_at ≡ now)
    × (t.status.stopped_at ≡ none)
    × (t.status.error ≡ none)
IsStartOutcome st id now t (err code) =
    (t ≡ st)
    × (((code ≡ "live_transcription_already_running")
          × ((is_some st.active || is_busy st.status.state) ≡ true))
        ⊎ (((code ≡ "live_transcription_request_conflict") × (st.status.request_id ≡ some id))
            ⊎ ((code ≡ "model_operation_failed") × (now ≡ none))))

-- A stop takes the active run of its request, or is told how that run has ended, or is refused.
abbrev pub IsStopOutcome : ProductState → ℕ → ProductState → Stopping → Type 0
IsStopOutcome st id t (joins active) =
    (active ≡ id)
    × (st.active ≡ some id)
    × (t.active ≡ none)
    × (t.status ≡ record st.status { state = stopping })
IsStopOutcome st id t (already status) =
    (t ≡ st)
    × (status ≡ st.status)
    × (st.active ≡ none)
    × (st.status.request_id ≡ some id)
    × (has_ended st.status.state ≡ true)
IsStopOutcome st id t (refused code) =
    (t ≡ st) × (code ≡ "live_transcription_not_running") × ¬ st.active ≡ some id
