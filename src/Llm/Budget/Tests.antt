-- ===== src/Llm/Budget/Tests.antt =====
-- Runs of the spending ledger on small inputs, and the theorems at them.
use mathlib.Core.Path.{subst}
use kokoro_koe.Prelude.{◌+◌, ◌≤◌, ◌≡◌, ◌⊎◌, refl, ap, true, List, [], ◌∷◌, some}
use kokoro_koe.Prelude.Maps.{lookup, insert, remove}
use kokoro_koe.Llm.Budget.{
  insight, Session, Envelope, Model, Validators, UsageReservation, FinalUsage, UsageRelease,
  SessionLedger, BudgetState, no_budget,
}
use kokoro_koe.Llm.Budget.Money.{
  Text, Result, ok, text_eq, checked_add, checked_sub, checked_mul_tokens,
}
use kokoro_koe.Llm.Budget.Parse.{
  value_from, parse_u128, split_at_first, parse_session_amount, parse_i32, split_exponent,
  split_point, trim_zeros, times_ten, cut_digits, scale_digits, parse_provider_price,
}
use kokoro_koe.Llm.Budget.Ops.{
  validate_reservation_input, Quote, quote, fresh_ledger, open_ledger, project, book, reserve_quote,
  reserve, reservation_of,
}
use kokoro_koe.Llm.Budget.Settle.{
  reconcile, release, Call, reserves, reconciles, step, run, balance, count_down, charge, settle,
  with_ledger, find_pending, actual_cost, priced,
}
use kokoro_koe.Llm.Budget.Ledger.{Inv, no_budget-Inv}
use kokoro_koe.Llm.Budget.Reserve.{reserve-Inv}
use kokoro_koe.Llm.Budget.Outcomes.{Reconciled, Released, reconcile-Reconciled, release-Released}
use kokoro_koe.Llm.Budget.History.{Inv-of_step, spending_capped}
use kokoro_koe.Llm.Budget.Undo.{SameBooks, release-reserve}
use kokoro_koe.Llm.Budget.Prices.{Reading, parse_provider_price-Reading}

abbrev trusting : Validators
trusting = record { session_valid = λ _. true; model_valid = λ _. true }

-- "m"
abbrev model_name : Text
model_name = b'm' ∷ []

-- "1.00"
abbrev one_dollar : Text
one_dollar = b'1' ∷ b'.' ∷ b'0' ∷ b'0' ∷ []

-- "0.00"
abbrev nothing_spent : Text
nothing_spent = b'0' ∷ b'.' ∷ b'0' ∷ b'0' ∷ []

-- "1e-6"
abbrev micro_dollar : Text
micro_dollar = b'1' ∷ b'e' ∷ b'-' ∷ b'6' ∷ []

abbrev session : Session
session = record {
  id = 5;
  project_id = 2;
  llm_models = record {
    insights = some model_name;
    summaries = some model_name;
    manual_questions = some model_name;
  };
  spending_limit_usd = one_dollar;
  actual_cost_usd = nothing_spent;
  max_tokens_per_request = 4000;
}

abbrev envelope : Envelope
envelope = record {
  specification = record {
    purpose = insight;
    approximate_request_token_limit = 3000;
    maximum_output_tokens = 500;
  };
  model_id = model_name;
  request_token_limit = 1100;
  input_token_limit = 1000;
  maximum_output_tokens = 100;
  estimated_input_tokens = 900;
}

abbrev model : Model
model = record {
  id = model_name;
  context_length = 8000;
  prompt_price_per_token = micro_dollar;
  completion_price_per_token = micro_dollar;
}

abbrev amounts : Quote
amounts = record {
  limit = 1000000000000;
  baseline_actual = 0;
  input_rate = 1000000;
  output_rate = 1000000;
  reserved_cost = 1100000000;
}

abbrev booked : BudgetState
booked = book no_budget 7 session envelope amounts (fresh_ledger amounts) 1100000000

abbrev reply : UsageReservation
reply = reservation_of 7 session envelope amounts 998900000000

reserves_once : reserve trusting no_budget 7 session envelope model ≡ (booked, ok reply)
unfolding reserve reserve_quote quote validate_reservation_input parse_session_amount
    parse_provider_price split_at_first value_from parse_u128 parse_i32 split_exponent split_point
    trim_zeros times_ten cut_digits scale_digits text_eq checked_add checked_mul_tokens open_ledger
    project book lookup insert no_budget
reserves_once = refl

booked-Inv : Inv booked
booked-Inv =
    subst Inv (ap (λ (x : BudgetState × Result UsageReservation). x.0) reserves_once)
      (reserve-Inv trusting no_budget 7 session envelope model no_budget-Inv)

abbrev usage : FinalUsage
usage = record { request_id = 7; session_id = 5; input_tokens = 800; output_tokens = 100 }

abbrev calls : List Call
calls = reserves 7 session envelope model ∷ reconciles usage ∷ []

abbrev spent : SessionLedger
spent = record {
  limit = 1000000000000;
  baseline_actual = 0;
  reconciled_actual = 900000000;
  reserved = 0;
  pending_count = 0;
}

spends : lookup 5 (run trusting no_budget calls).sessions ≡ some spent
unfolding run step reserve reserve_quote quote validate_reservation_input parse_session_amount
    parse_provider_price split_at_first value_from parse_u128 parse_i32 split_exponent split_point
    trim_zeros times_ten cut_digits scale_digits text_eq checked_add checked_mul_tokens open_ledger
    project book lookup insert no_budget reconcile priced find_pending actual_cost checked_sub
    with_ledger charge count_down balance settle remove
spends = refl

spending_capped_example :
    (spent.reconciled_actual + spent.reserved ≡ 0)
    ⊎ (spent.baseline_actual + spent.reconciled_actual + spent.reserved ≤ spent.limit)
spending_capped_example = spending_capped trusting calls 5 spent spends

Inv-of_step_example : Inv (step trusting booked (reconciles usage))
Inv-of_step_example = Inv-of_step trusting booked (reconciles usage) booked-Inv

reconcile-Reconciled_example : Reconciled booked usage (reconcile booked usage)
reconcile-Reconciled_example = reconcile-Reconciled booked usage booked-Inv

release-Released_example : Released booked 7 5 (release booked 7 5)
release-Released_example = release-Released booked 7 5 booked-Inv

release-reserve_example :
    let (t, out) = release booked 7 5 in
    SameBooks no_budget t
    × ((r : UsageRelease) × (out ≡ ok r) × (r.released_cost_usd ≡ reply.reserved_cost_usd))
release-reserve_example =
    release-reserve trusting no_budget booked 7 session envelope model reply no_budget-Inv
      reserves_once

-- "2e-13" USD, a fifth of a picodollar
abbrev tiny_price : Text
tiny_price = b'2' ∷ b'e' ∷ b'-' ∷ b'1' ∷ b'3' ∷ []

tiny_price_read : parse_provider_price tiny_price ≡ ok 1
unfolding parse_provider_price split_at_first value_from parse_u128 parse_i32 split_exponent
    split_point trim_zeros times_ten cut_digits scale_digits
tiny_price_read = refl

parse_provider_price-Reading_example : Reading tiny_price 1
parse_provider_price-Reading_example = parse_provider_price-Reading tiny_price 1 tiny_price_read
