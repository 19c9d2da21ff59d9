-- ===== src/Prompts/Context/Tests.antt =====
-- Prompts for small requests. A context is rendered as the texts of its segments.
use kokoro_koe.Prelude.{ℕ, ◌+◌, ◌≡◌, refl, true, List, [], ◌∷◌, ◌++◌, some, arith}
use kokoro_koe.Prelude.Coded.{ok, IfOk}
use kokoro_koe.Prelude.Maps.{lookup, insert}
use kokoro_koe.Transcription.Request.{microphone}
use kokoro_koe.Llm.Budget.{Session, Model, Validators}
use kokoro_koe.Llm.Budget.Money.{Text, text_eq, ok as accepted}
use kokoro_koe.Llm.Budget.Ops.{selected_model, validate_reservation_input}
use kokoro_koe.Prompts.Context.{
  Segment, Request, Library, Candidate, Prompt, question_task, purpose_of, prompt_specification,
}
use kokoro_koe.Prompts.Context.Ops.{
  build_prompt_context, collect_candidates, task_invalid, collect_unique, keep_first, admit, fill,
  select, consider, estimate_input_tokens,
}
use kokoro_koe.Prompts.Context.Candidates.{IsComplete, collect_candidates-IsComplete}
use kokoro_koe.Prompts.Context.Selection.{IsFit, build_prompt_context-IsFit}
use kokoro_koe.Prompts.Context.Handoff.{envelope_of, validate_reservation_input-build}

abbrev model_name : Text
model_name = b'm' ∷ []

abbrev session : Session
session = record {
  id = 5;
  project_id = 2;
  llm_models = record {
    insights = some model_name;
    summaries = some model_name;
    manual_questions = some model_name;
  };
  spending_limit_usd = b'1' ∷ [];
  actual_cost_usd = b'0' ∷ [];
  max_tokens_per_request = 2000;
}

abbrev segment_at : ℕ → ℕ → Segment
segment_at id t = record {
  id = id;
  project_id = 2;
  session_id = 5;
  source = microphone;
  start_ms = t;
  end_ms = t + 500;
  text = b'a' ∷ [];
  language = b'e' ∷ b'n' ∷ [];
  other_fields = [];
}

-- "why", about a segment that is in both lists
abbrev request : Request
request = record {
  project_id = 2;
  session = session;
  preset_insight_types = [];
  task = question_task (b'w' ∷ b'h' ∷ b'y' ∷ []) 8;
  relevant_segments = segment_at 7 900 ∷ segment_at 8 100 ∷ [];
  recent_segments = segment_at 9 400 ∷ segment_at 8 100 ∷ [];
}

abbrev texts_of : List Segment → Text
texts_of [] = []
texts_of (s ∷ segments) = s.text ++ texts_of segments

abbrev library : Library
library = record {
  records_valid = λ _. true;
  segment_valid = λ _. true;
  system_instructions = [];
  task_instructions = λ _. [];
  compact_output_schema = λ _. some (b'{' ∷ b'}' ∷ []);
  render_untrusted_context = λ r segments. some (texts_of segments);
}

abbrev prompt : Prompt
prompt = record {
  specification = prompt_specification (purpose_of request.task);
  model_id = model_name;
  request_token_limit = 8192;
  input_token_limit = 6192;
  maximum_output_tokens = 2000;
  estimated_input_tokens = 67;
  selected_segment_ids = 8 ∷ 9 ∷ 7 ∷ [];
  omitted_relevant_segments = 0;
  omitted_recent_segments = 0;
  system_instructions = [];
  task_instructions = [];
  untrusted_context = b'a' ∷ b'a' ∷ b'a' ∷ [];
  output_schema = b'{' ∷ b'}' ∷ [];
}

is_built : build_prompt_context library request ≡ ok prompt
unfolding build_prompt_context task_invalid collect_candidates collect_unique keep_first admit fill
    select consider estimate_input_tokens lookup insert text_eq
is_built = refl

abbrev trusting : Validators
trusting = record { session_valid = λ _. true; model_valid = λ _. true }

abbrev model : Model
model = record {
  id = model_name;
  context_length = 9000;
  prompt_price_per_token = b'0' ∷ [];
  completion_price_per_token = b'0' ∷ [];
}

collect_candidates-IsComplete_example :
    IfOk (IsComplete library request) (collect_candidates library request)
collect_candidates-IsComplete_example = collect_candidates-IsComplete library request

build_prompt_context-IsFit_example :
    IfOk
      (λ p.
        (found : List Candidate) × (collect_candidates library request ≡ ok found)
        × IsComplete library request found
        × (selected_model (purpose_of request.task) request.session ≡ some p.model_id)
        × (library.compact_output_schema (purpose_of request.task) ≡ some p.output_schema)
        × IsFit library request found p)
      (build_prompt_context library request)
build_prompt_context-IsFit_example = build_prompt_context-IsFit library request

validate_reservation_input-build_example :
    validate_reservation_input trusting session (envelope_of prompt) model ≡ accepted tt
validate_reservation_input-build_example =
    validate_reservation_input-build trusting library request prompt model is_built refl refl
      (omega arith) refl (omega arith)
