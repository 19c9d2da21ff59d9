-- ===== src/Llm/Budget/Undo.antt =====
-- llm/budget.rs: the books after a reservation that is released again.
use mathlib.Core.Path.{subst, subst₂}
use kokoro_koe.Prelude.{ℕ, ◌+◌, ◌≡◌, refl, ap, ◌∙◌, inl, inr, some, arith, ◌==◌, ==_iff, Bool-cases}
use kokoro_koe.Prelude.Maps.{lookup, insert, lookup-insert, lookup-remove, Keyed-insert}
use kokoro_koe.Llm.Budget.{
  Session, Envelope, Model, Validators, SessionLedger, BudgetState, UsageReservation, UsageRelease,
}
use kokoro_koe.Llm.Budget.Money.{Result, ok}
use kokoro_koe.Llm.Budget.Ops.{Quote, reserve, book, pending_of}
use kokoro_koe.Llm.Budget.Settle.{release}
use kokoro_koe.Llm.Budget.Ledger.{Inv, project_lem}
use kokoro_koe.Llm.Budget.Reserve.{Booked, reserve-Inv}
use kokoro_koe.Llm.Budget.Settlement.{settled, after}
use kokoro_koe.Llm.Budget.Outcomes.{release_at}
use kokoro_koe.Llm.Budget.History.{
  Reserved, refused, booked, reserve-Reserved, lookup-book, open_ledger_old,
}

-- The books of two states say the same of every request, and of every session that the first
-- tracks.
pub record SameBooks (st t : BudgetState) : Type 0 where
  pub requests : (j : ℕ) → lookup j t.pending ≡ lookup j st.pending
  pub sessions_kept :
      (j : ℕ) (l : SessionLedger) → lookup j st.sessions ≡ some l → lookup j t.sessions ≡ some l

module _ (v : Validators) (st t : BudgetState) (i : ℕ) (s : Session) (e : Envelope) (m : Model)
    (u : UsageReservation) (inv : Inv st) where
  module _ (q : Quote) (b : Booked st i s e q t u) where
    grown : SessionLedger
    grown = record (b.ledger) { reserved = b.projected; pending_count = b.ledger.pending_count + 1 }

    -- Settling the reservation at no cost gives the ledger back as it was.
    settled-grown : settled grown q.reserved_cost 0 ≡ b.ledger
    unfolding grown
    settled-grown = ground (arith, project_lem b.ledger q b.amounts)

    released_state : BudgetState
    released_state = after t i (pending_of s e q) grown 0

    released_requests : (j : ℕ) → lookup j released_state.pending ≡ lookup j st.pending
    unfolding released_state book
    released_requests j = rw b.state (
        ground (
          arith,
          lookup-remove i j (insert i (pending_of s e q) st.pending)
              (Keyed-insert i (pending_of s e q) st.pending inv.keyed_pending),
          lookup-insert i j (pending_of s e q) st.pending,
          b.new,
        ))

    released_sessions :
        (j : ℕ) (l : SessionLedger)
        → lookup j st.sessions ≡ some l
        → lookup j released_state.sessions ≡ some l
    unfolding released_state book grown
    released_sessions j l h = rw (lookup-insert s.id j) (elim (Bool-cases (s.id == j)) [
      | inl same ↦ rw same (
          ap some (
            settled-grown
            ∙ open_ledger_old st s.id q b.ledger l b.opened (rw ((==_iff _ _).0 same) h)))
      | inr other ↦ rw (other, b.state) (lookup-insert s.id j grown st.sessions ∙ rw other h)
    ])

    undone :
        Inv t
        → let (t', out) = release t i s.id in
          SameBooks st t'
          × ((r : UsageRelease) × (out ≡ ok r) × (r.released_cost_usd ≡ u.reserved_cost_usd))
    unfolding released_state grown
    undone invt =
        let at =
          release_at t invt i s.id (pending_of s e q) grown (lookup-book v st t i s e m u q b).0
            refl (lookup-book v st t i s e m u q b).1 in
        rw at (
          record { requests = released_requests; sessions_kept = released_sessions },
          (_, refl, rw b.reply),
        )

  -- Releasing a reservation right after it was made succeeds, frees what was reserved, and leaves
  -- every request and every session that was tracked before as it was.
  pub release-reserve :
      reserve v st i s e m ≡ (t, ok u)
      → let (t', out) = release t i s.id in
        SameBooks st t'
        × ((r : UsageRelease) × (out ≡ ok r) × (r.released_cost_usd ≡ u.reserved_cost_usd))
  release-reserve h = go (reserve v st i s e m) h (reserve-Reserved v st i s e m)
    where
      go :
          (out : BudgetState × Result UsageReservation)
          → out ≡ (t, ok u)
          → Reserved v st i s e m out
          → let (t', out) = release t i s.id in
            SameBooks st t'
            × ((r : UsageRelease) × (out ≡ ok r) × (r.released_cost_usd ≡ u.reserved_cost_usd))
      go out g (refused x k) = absurd (ground arith)
      go out g (booked q t' u' k b o) =
          undone q (subst₂ (Booked st i s e q) (ground arith) (ground arith) b) (
            subst Inv (ap (λ (x : BudgetState × Result UsageReservation). x.0) h)
              (reserve-Inv v st i s e m inv))
