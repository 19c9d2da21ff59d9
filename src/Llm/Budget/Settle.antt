-- ===== src/Llm/Budget/Settle.antt =====
-- llm/budget.rs: `reconcile` and `release`, which settle a pending reservation. The ledger is
-- written field by field, so a call that fails half-way keeps what it has written.
use kokoro_koe.Prelude.{ℕ, ◌-◌, not, ◌||◌, List, [], ◌∷◌, none, some, ltb, ◌==◌, if◌then◌else◌}
use kokoro_koe.Prelude.Maps.{lookup, insert, remove}
use kokoro_koe.Llm.Budget.{
  Session, Envelope, Model, Validators, FinalUsage, UsageReconciliation, UsageRelease,
  SessionLedger, PendingReservation, BudgetState,
}
use kokoro_koe.Llm.Budget.Money.{
  usage_ledger_invalid, usage_reservation_not_found, usage_reservation_scope_invalid,
  usage_final_tokens_exceed_reservation, usage_final_cost_exceeds_reservation, Result, ok, err,
  ◌>>=◌, ◌>>◌, refuse_if, ok_or, checked_add, checked_sub, checked_mul_tokens, available_budget,
  canonical,
}
use kokoro_koe.Llm.Budget.Ops.{reserve}

-- What the ledger says after a settlement: the session's actual cost, and what is left to spend.
pub record Balance : Type 0 where
  pub session_actual : ℕ
  pub available : ℕ

unfoldable pub balance : SessionLedger → Result Balance
balance l = do
  session_actual ← checked_add l.baseline_actual l.reconciled_actual
  committed_and_pending ← checked_add session_actual l.reserved
  ok (record {
    session_actual = session_actual;
    available = available_budget l.limit committed_and_pending;
  })

-- `pending_count.checked_sub(1)` and the balance.
unfoldable pub count_down : SessionLedger → SessionLedger × Result Balance
unfolding balance
count_down l =
    if l.pending_count == 0 then (l, err usage_ledger_invalid) else (counted, balance counted)
  where
    counted : SessionLedger
    counted = record l { pending_count = l.pending_count - 1 }

-- The ledger's part of `reconcile`.
unfoldable pub charge : SessionLedger → ℕ → ℕ → SessionLedger × Result Balance
unfolding count_down
charge l cost actual = elim (checked_sub l.reserved cost) [
  | err e ↦ (l, err e)
  | ok reserved ↦ elim (checked_add l.reconciled_actual actual) [
    | err e ↦ (record l { reserved = reserved }, err e)
    | ok reconciled ↦ count_down (record l { reserved = reserved; reconciled_actual = reconciled })
  ]
]

-- The ledger's part of `release`.
unfoldable pub give_back : SessionLedger → ℕ → SessionLedger × Result Balance
unfolding count_down
give_back l cost = elim (checked_sub l.reserved cost) [
  | err e ↦ (l, err e)
  | ok reserved ↦ count_down (record l { reserved = reserved })
]

-- The ledger is written back in any case; the reservation is removed when nothing failed.
unfoldable pub settle :
    BudgetState → ℕ → ℕ → SessionLedger × Result Balance → BudgetState × Result Balance
settle st request_id session_id (l, ok b) = (
  record { sessions = insert session_id l st.sessions; pending = remove request_id st.pending },
  ok b,
)
settle st request_id session_id (l, err e) =
    (record st { sessions = insert session_id l st.sessions }, err e)

-- `get_mut` of the session's ledger, and what is done with it.
unfoldable pub with_ledger :
    BudgetState
    → ℕ
    → ℕ
    → (SessionLedger → SessionLedger × Result Balance)
    → BudgetState × Result Balance
unfolding settle
with_ledger st request_id session_id write = elim (lookup session_id st.sessions) [
  | none ↦ (st, err usage_ledger_invalid)
  | some l ↦ settle st request_id session_id (write l)
]

-- The reservation that a settlement is about, if the request belongs to the session.
unfoldable pub find_pending : BudgetState → ℕ → ℕ → Result PendingReservation
find_pending st request_id session_id = do
  p ← ok_or (lookup request_id st.pending) usage_reservation_not_found
  refuse_if (not (p.session_id == session_id)) usage_reservation_scope_invalid
  ok p

-- The actual cost of a request, which must stay within the reservation.
unfoldable pub actual_cost : PendingReservation → FinalUsage → Result ℕ
actual_cost p u = do
  refuse_if (ltb p.input_token_ceiling u.input_tokens || ltb p.output_token_ceiling u.output_tokens)
      usage_final_tokens_exceed_reservation
  input ← checked_mul_tokens p.input_rate u.input_tokens
  output ← checked_mul_tokens p.output_rate u.output_tokens
  actual ← checked_add input output
  refuse_if (ltb p.reserved_cost actual) usage_final_cost_exceeds_reservation
  released ← checked_sub p.reserved_cost actual
  ok actual

abbrev pub reconciliation_of : FinalUsage → PendingReservation → ℕ → Balance → UsageReconciliation
reconciliation_of u p actual b = record {
  request_id = u.request_id;
  project_id = p.project_id;
  session_id = u.session_id;
  purpose = p.purpose;
  model_id = p.model_id;
  input_tokens = u.input_tokens;
  output_tokens = u.output_tokens;
  reserved_cost_usd = canonical p.reserved_cost;
  actual_cost_usd = canonical actual;
  released_cost_usd = canonical (p.reserved_cost - actual);
  session_actual_cost_usd = canonical b.session_actual;
  available_budget_usd = canonical b.available;
}

abbrev pub map_result {ℓ κ} :
    {A : Type ℓ} {B : Type κ} → (A → B) → BudgetState × Result A → BudgetState × Result B
map_result f (st, ok a) = (st, ok (f a))
map_result f (st, err e) = (st, err e)

-- The reservation of a request and its actual cost, before the ledger is written.
unfoldable pub priced : BudgetState → FinalUsage → Result (PendingReservation × ℕ)
unfolding find_pending actual_cost
priced st u = do
  p ← find_pending st u.request_id u.session_id
  actual ← actual_cost p u
  ok (p, actual)

-- `UsageBudgetService::reconcile`
unfoldable pub reconcile : BudgetState → FinalUsage → BudgetState × Result UsageReconciliation
unfolding with_ledger charge
reconcile st u = elim (priced st u) [
  | err e ↦ (st, err e)
  | ok (p, actual) ↦
      map_result (reconciliation_of u p actual)
        (with_ledger st u.request_id u.session_id (λ l. charge l p.reserved_cost actual))
]

abbrev pub release_of : ℕ → ℕ → PendingReservation → Balance → UsageRelease
release_of request_id session_id p b = record {
  request_id = request_id;
  session_id = session_id;
  released_cost_usd = canonical p.reserved_cost;
  session_actual_cost_usd = canonical b.session_actual;
  available_budget_usd = canonical b.available;
}

-- `UsageBudgetService::release`
unfoldable pub release : BudgetState → ℕ → ℕ → BudgetState × Result UsageRelease
unfolding with_ledger give_back find_pending
release st request_id session_id = elim (find_pending st request_id session_id) [
  | err e ↦ (st, err e)
  | ok p ↦
      map_result (release_of request_id session_id p)
        (with_ledger st request_id session_id (λ l. give_back l p.reserved_cost))
]

-- The calls of the ledger.
pub data Call : Type 0 where
  reserves : ℕ → Session → Envelope → Model → Call
  reconciles : FinalUsage → Call
  releases : ℕ → ℕ → Call

unfoldable pub step : Validators → BudgetState → Call → BudgetState
step v st (reserves i s e m) = (reserve v st i s e m).0
step v st (reconciles u) = (reconcile st u).0
step v st (releases i j) = (release st i j).0

unfoldable pub run : Validators → BudgetState → List Call → BudgetState
run v st [] = st
run v st (c ∷ cs) = run v (step v st c) cs
