-- ===== src/Llm/Budget/Outcomes.antt =====
-- llm/budget.rs: what `reconcile` and `release` do on every branch, and what any calls leave.
use native.Mathlib.Decide.{dec_le}
use kokoro_koe.Prelude.{
  ℕ, ◌+◌, ◌*◌, ◌≤◌, ◌<◌, ◌≡◌, ◌≢◌, ap, ◌∙◌, ◌⊎◌, inl, inr, false, none, some, arith, ◌==◌, ==_iff,
  Bool-cases, Option-cases,
}
use kokoro_koe.Prelude.Maps.{lookup, insert, remove}
use kokoro_koe.Llm.Budget.{
  FinalUsage, UsageReconciliation, UsageRelease, SessionLedger, PendingReservation, BudgetState,
}
use kokoro_koe.Llm.Budget.Money.{
  Result, ok, err, BudgetError, usage_reservation_not_found, usage_reservation_scope_invalid,
  usage_final_tokens_exceed_reservation,
}
use kokoro_koe.Llm.Budget.Settle.{
  Balance, settle, with_ledger, find_pending, priced, reconcile, release, reconciliation_of,
  release_of, map_result,
}
use kokoro_koe.Llm.Budget.Ledger.{Inv}
use kokoro_koe.Llm.Budget.Settlement.{
  settled, balance_of, after, charge_lem, give_back_lem, found-IsBalanced, after-Inv,
  tracked_ledger, priced_lem,
}

with_ledger_done :
    (st : BudgetState) (i sid : ℕ) (p : PendingReservation) (l l' : SessionLedger) (b : Balance)
    (write : SessionLedger → SessionLedger × Result Balance)
    → p.session_id ≡ sid
    → lookup p.session_id st.sessions ≡ some l
    → write l ≡ (l', ok b)
    → with_ledger st i sid write ≡ (
      record { sessions = insert p.session_id l' st.sessions; pending = remove i st.pending },
      ok b,
    )
unfolding with_ledger
with_ledger_done st i sid p l l' b write s k w =
    let k' : lookup sid st.sessions ≡ some l = rw s at k in
    rw (k', with_ledger) (ap (settle st i sid) w ∙ rw s)

find_pending_ok :
    (st : BudgetState) (i sid : ℕ) (p : PendingReservation)
    → lookup i st.pending ≡ some p
    → p.session_id ≡ sid
    → find_pending st i sid ≡ ok p
unfolding find_pending
find_pending_ok st i sid p h s = ground arith

module _ (st : BudgetState) (inv : Inv st) where
  -- What settling does once the reservation and the ledger are at hand.
  reconcile_at :
      (u : FinalUsage) (p : PendingReservation) (l : SessionLedger) (actual : ℕ)
      → lookup u.request_id st.pending ≡ some p
      → p.session_id ≡ u.session_id
      → lookup p.session_id st.sessions ≡ some l
      → priced st u ≡ ok (p, actual)
      → actual ≤ p.reserved_cost
      → reconcile st u ≡ (
        after st u.request_id p l actual,
        ok (reconciliation_of u p actual (balance_of (settled l p.reserved_cost actual))),
      )
  unfolding reconcile
  reconcile_at u p l actual h s k e le =
      rw (e, reconcile)
        (ap (map_result (reconciliation_of u p actual)) (
          with_ledger_done st u.request_id u.session_id p l _ _ _ s k (
            charge_lem st u.request_id p l actual h (found-IsBalanced st u.request_id p l inv h k)
              le)))

  pub release_at :
      (i sid : ℕ) (p : PendingReservation) (l : SessionLedger)
      → lookup i st.pending ≡ some p
      → p.session_id ≡ sid
      → lookup p.session_id st.sessions ≡ some l
      → release st i sid
        ≡ (after st i p l 0, ok (release_of i sid p (balance_of (settled l p.reserved_cost 0))))
  unfolding release
  release_at i sid p l h s k =
      rw (found, release)
        (ap (map_result (release_of i sid p)) (
          with_ledger_done st i sid p l _ _ _ s k
            (give_back_lem st i p l h (found-IsBalanced st i p l inv h k))))
    where
      found : find_pending st i sid ≡ ok p
      found = find_pending_ok st i sid p h s

abbrev pub cost_at : PendingReservation → FinalUsage → ℕ
cost_at p u = p.input_rate * u.input_tokens + p.output_rate * u.output_tokens

-- The four ways in which `reconcile` can end.
pub data Reconciled (st : BudgetState) (u : FinalUsage)
    (out : BudgetState × Result UsageReconciliation) : Type 0 where
  not_found :
      lookup u.request_id st.pending ≡ none
      → out ≡ (st, err usage_reservation_not_found)
      → Reconciled st u out
  wrong_session :
      (p : PendingReservation)
      → lookup u.request_id st.pending ≡ some p
      → p.session_id ≢ u.session_id
      → out ≡ (st, err usage_reservation_scope_invalid)
      → Reconciled st u out
  too_many_tokens :
      (p : PendingReservation)
      → lookup u.request_id st.pending ≡ some p
      → (p.input_token_ceiling < u.input_tokens) ⊎ (p.output_token_ceiling < u.output_tokens)
      → out ≡ (st, err usage_final_tokens_exceed_reservation)
      → Reconciled st u out
  charged :
      (p : PendingReservation) (l : SessionLedger)
      → lookup u.request_id st.pending ≡ some p
      → lookup p.session_id st.sessions ≡ some l
      → cost_at p u ≤ p.reserved_cost
      → out ≡ (
        after st u.request_id p l (cost_at p u),
        ok (
            reconciliation_of u p
              (cost_at p u)
              (balance_of (settled l p.reserved_cost (cost_at p u)))),
      )
      → Reconciled st u out

reconcile_refused :
    (st : BudgetState) (u : FinalUsage) (x : BudgetError)
    → priced st u ≡ err x
    → reconcile st u ≡ (st, err x)
unfolding reconcile
reconcile_refused st u x e = rw (e, reconcile)

priced_missing :
    (st : BudgetState) (u : FinalUsage)
    → lookup u.request_id st.pending ≡ none
    → priced st u ≡ err usage_reservation_not_found
unfolding priced
priced_missing st u h = ground arith

priced_foreign :
    (st : BudgetState) (u : FinalUsage) (p : PendingReservation)
    → lookup u.request_id st.pending ≡ some p
    → p.session_id == u.session_id ≡ false
    → priced st u ≡ err usage_reservation_scope_invalid
unfolding priced
priced_foreign st u p h d = ground arith

priced_many :
    (st : BudgetState) (u : FinalUsage) (p : PendingReservation)
    → lookup u.request_id st.pending ≡ some p
    → p.session_id ≡ u.session_id
    → (p.input_token_ceiling < u.input_tokens) ⊎ (p.output_token_ceiling < u.output_tokens)
    → priced st u ≡ err usage_final_tokens_exceed_reservation
unfolding priced
priced_many st u p h s c = ground arith

reconcile_found :
    (st : BudgetState) (u : FinalUsage) (p : PendingReservation)
    → Inv st
    → lookup u.request_id st.pending ≡ some p
    → p.session_id ≡ u.session_id
    → Reconciled st u (reconcile st u)
reconcile_found st u p inv h s = elim (dec_le u.input_tokens p.input_token_ceiling) [
  | no a ↦
      too_many_tokens p h (inl (omega arith)) (reconcile_refused st u _ (many (inl (omega arith))))
  | yes a ↦ elim (dec_le u.output_tokens p.output_token_ceiling) [
    | no b ↦
        too_many_tokens p h (inr (omega arith))
          (reconcile_refused st u _ (many (inr (omega arith))))
    | yes b ↦
        let (l, k) = tracked_ledger st u.request_id p inv h in
        let cost = priced_lem st u p inv h s a b in
        charged p l h k cost.1 (reconcile_at st inv u p l (cost_at p u) h s k cost.0 cost.1)
  ]
]
  where
    many :
        (p.input_token_ceiling < u.input_tokens) ⊎ (p.output_token_ceiling < u.output_tokens)
        → priced st u ≡ err usage_final_tokens_exceed_reservation
    many c = priced_many st u p h s c

-- `reconcile` refuses a request that is not pending, one of another session, and more tokens than
-- were reserved, each time without a trace; in every other case it succeeds: the reservation is
-- gone, its cost is no longer reserved, and the actual cost, which is no more, is spent.
pub reconcile-Reconciled :
    (st : BudgetState) (u : FinalUsage) → Inv st → Reconciled st u (reconcile st u)
reconcile-Reconciled st u inv = elim (Option-cases (lookup u.request_id st.pending)) [
  | inl h ↦ not_found h (reconcile_refused st u _ (priced_missing st u h))
  | inr (p, h) ↦ elim (Bool-cases (p.session_id == u.session_id)) [
    | inr d ↦
        wrong_session p h (ground arith) (reconcile_refused st u _ (priced_foreign st u p h d))
    | inl s ↦ reconcile_found st u p inv h ((==_iff _ _).0 s)
  ]
]

pub reconcile-Inv : (st : BudgetState) (u : FinalUsage) → Inv st → Inv (reconcile st u).0
reconcile-Inv st u inv = go (reconcile st u) (reconcile-Reconciled st u inv)
  where
    go : (out : BudgetState × Result UsageReconciliation) → Reconciled st u out → Inv out.0
    go out (not_found h e) = rw e inv
    go out (wrong_session p h d e) = rw e inv
    go out (too_many_tokens p h c e) = rw e inv
    go out (charged p l h k le e) = rw e (after-Inv st u.request_id p l inv h k (cost_at p u) le)

-- The three ways in which `release` can end.
pub data Released (st : BudgetState) (i sid : ℕ) (out : BudgetState × Result UsageRelease)
    : Type 0 where
  not_found :
      lookup i st.pending ≡ none
      → out ≡ (st, err usage_reservation_not_found)
      → Released st i sid out
  wrong_session :
      (p : PendingReservation)
      → lookup i st.pending ≡ some p
      → p.session_id ≢ sid
      → out ≡ (st, err usage_reservation_scope_invalid)
      → Released st i sid out
  returned :
      (p : PendingReservation) (l : SessionLedger)
      → lookup i st.pending ≡ some p
      → lookup p.session_id st.sessions ≡ some l
      → out ≡ (after st i p l 0, ok (release_of i sid p (balance_of (settled l p.reserved_cost 0))))
      → Released st i sid out

release_refused :
    (st : BudgetState) (i sid : ℕ) (x : BudgetError)
    → find_pending st i sid ≡ err x
    → release st i sid ≡ (st, err x)
unfolding release
release_refused st i sid x e = rw (e, release)

find_pending_missing :
    (st : BudgetState) (i sid : ℕ)
    → lookup i st.pending ≡ none
    → find_pending st i sid ≡ err usage_reservation_not_found
unfolding find_pending
find_pending_missing st i sid h = ground arith

find_pending_foreign :
    (st : BudgetState) (i sid : ℕ) (p : PendingReservation)
    → lookup i st.pending ≡ some p
    → p.session_id == sid ≡ false
    → find_pending st i sid ≡ err usage_reservation_scope_invalid
unfolding find_pending
find_pending_foreign st i sid p h d = ground arith

-- `release` refuses a request that is not pending, and one of another session, without a trace; in
-- every other case it succeeds, and the reservation is gone with nothing spent.
pub release-Released :
    (st : BudgetState) (i sid : ℕ) → Inv st → Released st i sid (release st i sid)
release-Released st i sid inv = elim (Option-cases (lookup i st.pending)) [
  | inl h ↦ not_found h (release_refused st i sid _ (find_pending_missing st i sid h))
  | inr (p, h) ↦ elim (Bool-cases (p.session_id == sid)) [
    | inr d ↦
        wrong_session p h (ground arith)
          (release_refused st i sid _ (find_pending_foreign st i sid p h d))
    | inl s ↦
        let (l, k) = tracked_ledger st i p inv h in
        returned p l h k (release_at st inv i sid p l h ((==_iff _ _).0 s) k)
  ]
]

pub release-Inv : (st : BudgetState) (i sid : ℕ) → Inv st → Inv (release st i sid).0
release-Inv st i sid inv = go (release st i sid) (release-Released st i sid inv)
  where
    go : (out : BudgetState × Result UsageRelease) → Released st i sid out → Inv out.0
    go out (not_found h e) = rw e inv
    go out (wrong_session p h d e) = rw e inv
    go out (returned p l h k e) = rw e (after-Inv st i p l inv h k 0 (omega arith))
