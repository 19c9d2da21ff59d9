-- ===== src/Llm/Budget/Settlement.antt =====
-- llm/budget.rs: settling a reservation in a ledger that satisfies its invariant.
use mathlib.Core.Path.{subst}
use kokoro_koe.Prelude.{
  ℕ, ◌+◌, ◌-◌, ◌*◌, ◌≤◌, ◌≡◌, inl, inr, false, [], ◌∷◌, some, arith, ◌==◌, ==_iff, sum_by, All,
  Bool-cases, Option-cases,
}
use kokoro_koe.Prelude.Maps.{
  Map, lookup, insert, remove, lookup-insert, Keyed-insert, Keyed-remove, sum_by-remove,
  length-insert_old, length-remove,
}
use kokoro_koe.Llm.Budget.{FinalUsage, SessionLedger, PendingReservation, BudgetState}
use kokoro_koe.Llm.Budget.Money.{ok, checked_add, checked_sub, checked_mul_tokens}
use kokoro_koe.Llm.Budget.Settle.{Balance, charge, give_back, priced}
use kokoro_koe.Llm.Budget.Ledger.{
  IsPriced, IsBalanced, LedgerOk, LedgerOk-same, Inv, cost_of, one_of,
}

-- The ledger without one reservation of a given cost, of which `actual` was spent.
abbrev pub settled : SessionLedger → ℕ → ℕ → SessionLedger
settled l cost actual = record l {
  reserved = l.reserved - cost;
  reconciled_actual = l.reconciled_actual + actual;
  pending_count = l.pending_count - 1;
}

abbrev pub balance_of : SessionLedger → Balance
balance_of l = record {
  session_actual = l.baseline_actual + l.reconciled_actual;
  available = l.limit - (l.baseline_actual + l.reconciled_actual + l.reserved);
}

module _ (st : BudgetState) (i : ℕ) (p : PendingReservation) (l : SessionLedger) where
  -- The reservation's part in the sums of its session.
  taken_sums :
      lookup i st.pending ≡ some p
      → (sum_by (cost_of p.session_id) st.pending
          ≡ p.reserved_cost + sum_by (cost_of p.session_id) (remove i st.pending))
        × (sum_by (one_of p.session_id) st.pending
            ≡ 1 + sum_by (one_of p.session_id) (remove i st.pending))
  taken_sums h =
      let c = sum_by-remove (cost_of p.session_id) i p st.pending h in
      let n = sum_by-remove (one_of p.session_id) i p st.pending h in (ground arith, ground arith)

  pub charge_lem :
      (actual : ℕ)
      → lookup i st.pending ≡ some p
      → IsBalanced p.session_id st.pending l
      → actual ≤ p.reserved_cost
      → charge l p.reserved_cost actual
        ≡ (settled l p.reserved_cost actual, ok (balance_of (settled l p.reserved_cost actual)))
  unfolding charge checked_sub checked_add
  charge_lem actual h b le = ground (arith, taken_sums h)

  pub give_back_lem :
      lookup i st.pending ≡ some p
      → IsBalanced p.session_id st.pending l
      → give_back l p.reserved_cost
        ≡ (settled l p.reserved_cost 0, ok (balance_of (settled l p.reserved_cost 0)))
  unfolding give_back checked_sub checked_add
  give_back_lem h b = ground (arith, taken_sums h)

  abbrev pub after : ℕ → BudgetState
  after actual = record {
    sessions = insert p.session_id (settled l p.reserved_cost actual) st.sessions;
    pending = remove i st.pending;
  }

  settled-IsBalanced :
      (actual : ℕ)
      → lookup i st.pending ≡ some p
      → IsBalanced p.session_id st.pending l
      → actual ≤ p.reserved_cost
      → IsBalanced p.session_id (remove i st.pending) (settled l p.reserved_cost actual)
  settled-IsBalanced actual h b le = ground (arith, taken_sums h)

  All-remove :
      (m : Map PendingReservation)
      → All (λ x. IsPriced x.1) m
      → All (λ x. IsPriced x.1) (remove i m)
  unfolding remove
  All-remove [] h = tt
  All-remove ((j, w) ∷ m) h = elim (Bool-cases (j == i)) [
    | inl g ↦ rw g h.1
    | inr g ↦ rw g (h.0, All-remove m h.1)
  ]

  other_sums :
      (sid : ℕ)
      → lookup i st.pending ≡ some p
      → p.session_id == sid ≡ false
      → (sum_by (cost_of sid) (remove i st.pending) ≡ sum_by (cost_of sid) st.pending)
        × (sum_by (one_of sid) (remove i st.pending) ≡ sum_by (one_of sid) st.pending)
  other_sums sid h d =
      let c = sum_by-remove (cost_of sid) i p st.pending h in
      let n = sum_by-remove (one_of sid) i p st.pending h in (ground arith, ground arith)

  module _ (inv : Inv st) (h : lookup i st.pending ≡ some p)
      (k : lookup p.session_id st.sessions ≡ some l) where
    pub found-IsBalanced : IsBalanced p.session_id st.pending l
    found-IsBalanced = rw k at (inv.ledgers p.session_id)

    after_ledgers :
        (actual : ℕ)
        → actual ≤ p.reserved_cost
        → (sid : ℕ) → LedgerOk sid (after actual).pending (lookup sid (after actual).sessions)
    after_ledgers actual le sid =
        rw (lookup-insert p.session_id sid) (elim (Bool-cases (p.session_id == sid)) [
          | inl same ↦ rw same (
              subst (λ j. IsBalanced j (remove i st.pending) (settled l p.reserved_cost actual))
                ((==_iff _ _).0 same) (settled-IsBalanced actual h found-IsBalanced le))
          | inr other ↦ rw other (
              LedgerOk-same sid st.pending _ (lookup sid st.sessions) (other_sums sid h other).0
                (other_sums sid h other).1 (inv.ledgers sid))
        ])

    pub after-Inv : (actual : ℕ) → actual ≤ p.reserved_cost → Inv (after actual)
    after-Inv actual le = record {
      keyed_sessions = Keyed-insert p.session_id _ st.sessions inv.keyed_sessions;
      keyed_pending = Keyed-remove i st.pending inv.keyed_pending;
      sessions_cap = omega (
        arith,
        inv.sessions_cap,
        length-insert_old p.session_id (settled l p.reserved_cost actual) l st.sessions k,
      );
      pending_cap = omega (arith, inv.pending_cap, length-remove i p st.pending h);
      priced = All-remove st.pending inv.priced;
      ledgers = after_ledgers actual le;
    }

-- The session of every pending reservation is tracked.
pub tracked_ledger :
    (st : BudgetState) (i : ℕ) (p : PendingReservation)
    → Inv st
    → lookup i st.pending ≡ some p
    → (l : SessionLedger) × (lookup p.session_id st.sessions ≡ some l)
tracked_ledger st i p inv h = elim (Option-cases (lookup p.session_id st.sessions)) [
  | inr found ↦ found
  | inl lost ↦
      let none_pending = rw lost at (inv.ledgers p.session_id) in
      let n = sum_by-remove (one_of p.session_id) i p st.pending h in absurd (ground arith)
]

lookup-IsPriced :
    (m : Map PendingReservation) (i : ℕ) (p : PendingReservation)
    → All (λ x. IsPriced x.1) m
    → lookup i m ≡ some p
    → IsPriced p
unfolding lookup
lookup-IsPriced [] i p h e = cc
lookup-IsPriced ((j, w) ∷ m) i p h e = elim (Bool-cases (j == i)) [
  | inl g ↦ subst IsPriced {x = w} {y = p} (ground arith) h.0
  | inr g ↦ lookup-IsPriced m i p h.1 (ground arith)
]

cost_mono : (r s a b c d : ℕ) → a ≤ c → b ≤ d → r * a + s * b ≤ r * c + s * d
cost_mono r s a b c d h k = grind arith

-- A pending reservation whose tokens are within its ceilings costs no more than was reserved.
pub priced_lem :
    (st : BudgetState) (u : FinalUsage) (p : PendingReservation)
    → Inv st
    → lookup u.request_id st.pending ≡ some p
    → p.session_id ≡ u.session_id
    → u.input_tokens ≤ p.input_token_ceiling
    → u.output_tokens ≤ p.output_token_ceiling
    → let actual = p.input_rate * u.input_tokens + p.output_rate * u.output_tokens in
      (priced st u ≡ ok (p, actual)) × (actual ≤ p.reserved_cost)
unfolding priced checked_mul_tokens checked_add checked_sub
priced_lem st u p inv h s a b =
    let ok_price = lookup-IsPriced st.pending u.request_id p inv.priced h in
    let le =
      cost_mono p.input_rate p.output_rate u.input_tokens u.output_tokens p.input_token_ceiling
        p.output_token_ceiling a b in
    (ground arith, ground arith)
