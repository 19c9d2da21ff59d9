-- ===== src/Llm/Budget/Ops.antt =====
-- llm/budget.rs: `reserve`, `reconcile` and `release` of `UsageBudgetService`. Each takes the state
-- under the lock and returns it as the call leaves it, also where the call fails half-way. The
-- error of a poisoned lock is left out.
use kokoro_koe.Prelude.{
  ℕ, ◌+◌, Bool, false, not, ◌&&◌, ◌||◌, Option, none, some, ltb, leb, ◌==◌, length, is_some,
}
use kokoro_koe.Prelude.Maps.{lookup, insert}
use kokoro_koe.Llm.Budget.{
  Purpose, insight, summary, manual_question, Session, Envelope, Model, Validators,
  UsageReservation, SessionLedger, PendingReservation, BudgetState, max_tracked_sessions,
  max_pending_reservations, max_pending_reservations_per_session,
}
use kokoro_koe.Llm.Budget.Money.{
  usage_request_duplicate, usage_reservation_capacity_reached, usage_session_snapshot_changed,
  usage_session_capacity_reached, usage_session_limit_exceeded, usage_session_invalid,
  usage_model_record_invalid, usage_model_mismatch, usage_prompt_envelope_invalid,
  usage_model_context_too_small, Result, ok, err, ◌>>=◌, ◌>>◌, refuse_if, checked_add,
  checked_mul_tokens, available_budget, Text, text_eq, canonical,
}
use kokoro_koe.Llm.Budget.Parse.{parse_session_amount, parse_provider_price}

abbrev pub selected_model : Purpose → Session → Option Text
selected_model insight s = s.llm_models.insights
selected_model summary s = s.llm_models.summaries
selected_model manual_question s = s.llm_models.manual_questions

abbrev pub is_text : Option Text → Text → Bool
is_text none t = false
is_text (some s) t = text_eq s t

-- `validate_reservation_input`. The sum of two `u32` limits is compared as `checked_add` gives it:
-- one that does not fit equals no limit.
unfoldable pub validate_reservation_input :
    Validators → Session → Envelope → Model → Result (Unit {0})
validate_reservation_input v s e m = do
  refuse_if (not (v.session_valid s)) usage_session_invalid
  refuse_if (not (v.model_valid m)) usage_model_record_invalid
  refuse_if
      (not (text_eq m.id e.model_id)
        || not (is_text (selected_model e.specification.purpose s) e.model_id))
      usage_model_mismatch
  refuse_if
      (ltb s.max_tokens_per_request e.maximum_output_tokens
        || ltb e.specification.approximate_request_token_limit e.request_token_limit
        || ltb e.specification.maximum_output_tokens e.maximum_output_tokens
        || ltb e.input_token_limit e.estimated_input_tokens
        || ltb 4294967295 (e.input_token_limit + e.maximum_output_tokens)
        || not (e.input_token_limit + e.maximum_output_tokens == e.request_token_limit))
      usage_prompt_envelope_invalid
  refuse_if (ltb m.context_length e.request_token_limit) usage_model_context_too_small

-- The amounts that `reserve` works out before it takes the lock.
pub record Quote : Type 0 where
  pub limit : ℕ
  pub baseline_actual : ℕ
  pub input_rate : ℕ
  pub output_rate : ℕ
  pub reserved_cost : ℕ

unfoldable pub quote : Validators → Session → Envelope → Model → Result Quote
quote v s e m = do
  validate_reservation_input v s e m
  limit ← parse_session_amount s.spending_limit_usd
  baseline ← parse_session_amount s.actual_cost_usd
  input_rate ← parse_provider_price m.prompt_price_per_token
  output_rate ← parse_provider_price m.completion_price_per_token
  input_cost ← checked_mul_tokens input_rate e.input_token_limit
  output_cost ← checked_mul_tokens output_rate e.maximum_output_tokens
  cost ← checked_add input_cost output_cost
  ok (record {
    limit = limit;
    baseline_actual = baseline;
    input_rate = input_rate;
    output_rate = output_rate;
    reserved_cost = cost;
  })

-- A session that is not tracked yet starts with nothing reserved or spent.
abbrev pub fresh_ledger : Quote → SessionLedger
fresh_ledger q = record {
  limit = q.limit;
  baseline_actual = q.baseline_actual;
  reconciled_actual = 0;
  reserved = 0;
  pending_count = 0;
}

-- The tests on the session's ledger, and the ledger that `reserve` goes on with.
unfoldable pub open_ledger : BudgetState → ℕ → Quote → Result SessionLedger
open_ledger st session_id q = elim (lookup session_id st.sessions) [
  | some l ↦ do
    refuse_if (not (l.limit == q.limit) || not (l.baseline_actual == q.baseline_actual))
        usage_session_snapshot_changed
    refuse_if (leb max_pending_reservations_per_session l.pending_count)
        usage_session_capacity_reached
    ok l
  | none ↦ do
    refuse_if (leb max_tracked_sessions (length st.sessions)) usage_session_capacity_reached
    ok (fresh_ledger q)
]

-- What the session would have reserved in all, and the part of its limit that would be left.
unfoldable pub project : SessionLedger → Quote → Result (ℕ × ℕ)
project l q = do
  actual ← checked_add l.baseline_actual l.reconciled_actual
  projected_reserved ← checked_add l.reserved q.reserved_cost
  projected_total ← checked_add actual projected_reserved
  refuse_if (not (q.reserved_cost == 0) && ltb l.limit projected_total) usage_session_limit_exceeded
  ok (projected_reserved, available_budget l.limit projected_total)

abbrev pub pending_of : Session → Envelope → Quote → PendingReservation
pending_of s e q = record {
  project_id = s.project_id;
  session_id = s.id;
  purpose = e.specification.purpose;
  model_id = e.model_id;
  input_token_ceiling = e.input_token_limit;
  output_token_ceiling = e.maximum_output_tokens;
  input_rate = q.input_rate;
  output_rate = q.output_rate;
  reserved_cost = q.reserved_cost;
}

abbrev pub reservation_of : ℕ → Session → Envelope → Quote → ℕ → UsageReservation
reservation_of request_id s e q available = record {
  request_id = request_id;
  session_id = s.id;
  purpose = e.specification.purpose;
  model_id = e.model_id;
  input_token_ceiling = e.input_token_limit;
  output_token_ceiling = e.maximum_output_tokens;
  reserved_cost_usd = canonical q.reserved_cost;
  available_budget_usd = canonical available;
}

-- The writes of `reserve`.
unfoldable pub book : BudgetState → ℕ → Session → Envelope → Quote → SessionLedger → ℕ → BudgetState
book st request_id s e q l projected = record {
  sessions =
      insert s.id (record l { reserved = projected; pending_count = l.pending_count + 1 })
        st.sessions;
  pending = insert request_id (pending_of s e q) st.pending;
}

-- Everything that `reserve` does under the lock.
unfoldable pub reserve_quote :
    BudgetState → ℕ → Session → Envelope → Quote → Result (BudgetState × UsageReservation)
unfolding open_ledger project book
reserve_quote st request_id s e q = do
  refuse_if (is_some (lookup request_id st.pending)) usage_request_duplicate
  refuse_if (leb max_pending_reservations (length st.pending)) usage_reservation_capacity_reached
  l ← open_ledger st s.id q
  (projected, available) ← project l q
  ok (book st request_id s e q l projected, reservation_of request_id s e q available)

-- A call that fails before its first write leaves the state as it was.
abbrev pub or_unchanged {ℓ} :
    {A : Type ℓ} → BudgetState → Result (BudgetState × A) → BudgetState × Result A
or_unchanged st (ok (st', a)) = (st', ok a)
or_unchanged st (err e) = (st, err e)

-- `UsageBudgetService::reserve`
unfoldable pub reserve :
    Validators
    → BudgetState
    → ℕ
    → Session
    → Envelope
    → Model
    → BudgetState × Result UsageReservation
reserve v st request_id s e m =
    or_unchanged st (quote v s e m >>= λ q. reserve_quote st request_id s e q)
