-- ===== src/Llm/Budget.antt =====
-- llm/budget.rs: the state of the spending ledger, and what its calls take and return. Amounts are
-- `ScaledUsd`, whole numbers of 10^-12 USD. A session, a prompt envelope and a model are given by
-- the fields that the ledger reads. Ids are numbers, texts are lists of bytes.
pub mod Money
pub mod Ops
pub mod Settle
pub mod Ledger
pub mod Reserve
pub mod Settlement
pub mod Outcomes
pub mod History
pub mod Undo
pub mod Digits
pub mod Prices
pub mod Parse
mod Tests
use kokoro_koe.Prelude.{ℕ, Bool, List, [], Option}
use kokoro_koe.Prelude.Maps.{Map}
use Money.{Text}

abbrev pub max_tracked_sessions : ℕ
max_tracked_sessions = 128

abbrev pub max_pending_reservations : ℕ
max_pending_reservations = 256

abbrev pub max_pending_reservations_per_session : ℕ
max_pending_reservations_per_session = 32

-- `PromptPurpose`
pub data Purpose : Type 0 where
  insight summary manual_question : Purpose

-- `LlmRoleModels`
pub record RoleModels : Type 0 where
  pub insights : Option Text
  pub summaries : Option Text
  pub manual_questions : Option Text

pub record Session : Type 0 where
  pub id : ℕ
  pub project_id : ℕ
  pub llm_models : RoleModels
  pub spending_limit_usd : Text
  pub actual_cost_usd : Text
  pub max_tokens_per_request : ℕ

pub record Specification : Type 0 where
  pub purpose : Purpose
  pub approximate_request_token_limit : ℕ
  pub maximum_output_tokens : ℕ

pub record Envelope : Type 0 where
  pub specification : Specification
  pub model_id : Text
  pub request_token_limit : ℕ
  pub input_token_limit : ℕ
  pub maximum_output_tokens : ℕ
  pub estimated_input_tokens : ℕ

pub record Model : Type 0 where
  pub id : Text
  pub context_length : ℕ
  pub prompt_price_per_token : Text
  pub completion_price_per_token : Text

-- `Session::validate` and `OpenRouterModel::validate`, as tests.
pub record Validators : Type 0 where
  pub session_valid : Session → Bool
  pub model_valid : Model → Bool

pub record UsageReservation : Type 0 where
  pub request_id : ℕ
  pub session_id : ℕ
  pub purpose : Purpose
  pub model_id : Text
  pub input_token_ceiling : ℕ
  pub output_token_ceiling : ℕ
  pub reserved_cost_usd : Text
  pub available_budget_usd : Text

pub record FinalUsage : Type 0 where
  pub request_id : ℕ
  pub session_id : ℕ
  pub input_tokens : ℕ
  pub output_tokens : ℕ

pub record UsageReconciliation : Type 0 where
  pub request_id : ℕ
  pub project_id : ℕ
  pub session_id : ℕ
  pub purpose : Purpose
  pub model_id : Text
  pub input_tokens : ℕ
  pub output_tokens : ℕ
  pub reserved_cost_usd : Text
  pub actual_cost_usd : Text
  pub released_cost_usd : Text
  pub session_actual_cost_usd : Text
  pub available_budget_usd : Text

pub record UsageRelease : Type 0 where
  pub request_id : ℕ
  pub session_id : ℕ
  pub released_cost_usd : Text
  pub session_actual_cost_usd : Text
  pub available_budget_usd : Text

pub record SessionLedger : Type 0 where
  pub limit : ℕ
  pub baseline_actual : ℕ
  pub reconciled_actual : ℕ
  pub reserved : ℕ
  pub pending_count : ℕ

pub record PendingReservation : Type 0 where
  pub project_id : ℕ
  pub session_id : ℕ
  pub purpose : Purpose
  pub model_id : Text
  pub input_token_ceiling : ℕ
  pub output_token_ceiling : ℕ
  pub input_rate : ℕ
  pub output_rate : ℕ
  pub reserved_cost : ℕ

pub record BudgetState : Type 0 where
  pub sessions : Map SessionLedger
  pub pending : Map PendingReservation

-- `BudgetState::default`
unfoldable pub no_budget : BudgetState
no_budget = record { sessions = []; pending = [] }
