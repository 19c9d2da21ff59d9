-- ===== src/Prompts/Context/Handoff.antt =====
-- prompts/context.rs and llm/budget.rs: a prompt that has been built, handed to `reserve`.
use Prim.Native.Nat.{min, max}
use kokoro_koe.Prelude.{
  ℕ, ◌+◌, ◌||◌, not, ltb, ◌≤◌, ◌≡◌, refl, ap, ◌∙◌, true, false, [], ◌∷◌, ◌==◌, arith,
}
use kokoro_koe.Prelude.Coded.{ok, IfOk-of}
use kokoro_koe.Llm.Budget.{
  Purpose, Specification, insight, summary, manual_question, Envelope, Model, Validators,
}
use kokoro_koe.Llm.Budget.Money.{Text, text_eq, ok as accepted}
use kokoro_koe.Llm.Budget.Ops.{selected_model, validate_reservation_input}
use kokoro_koe.Prompts.Context.{Request, Library, Prompt, prompt_specification, purpose_of}
use kokoro_koe.Prompts.Context.Ops.{build_prompt_context}
use kokoro_koe.Prompts.Context.Selection.{build_prompt_context-IsFit}

-- The fields of a prompt that the ledger reads.
abbrev pub envelope_of : Prompt → Envelope
envelope_of p = record {
  specification = p.specification;
  model_id = p.model_id;
  request_token_limit = p.request_token_limit;
  input_token_limit = p.input_token_limit;
  maximum_output_tokens = p.maximum_output_tokens;
  estimated_input_tokens = p.estimated_input_tokens;
}

text_eq_refl : (t : Text) → text_eq t t ≡ true
unfolding text_eq
text_eq_refl [] = refl
text_eq_refl (c ∷ t) = ground (arith, text_eq_refl t)

-- The limits of the catalog
catalog :
    (p : Purpose)
    → (1 ≤ (prompt_specification p).maximum_output_tokens)
      × ((prompt_specification p).approximate_request_token_limit ≤ 32768)
      × ((prompt_specification p).purpose ≡ p)
catalog insight = (omega arith, omega arith, refl)
catalog summary = (omega arith, omega arith, refl)
catalog manual_question = (omega arith, omega arith, refl)

not_less : (a b : ℕ) → b ≤ a → ltb a b ≡ false
not_less a b h = ground arith

-- The test of the ledger on the numbers of an envelope
envelope_sound :
    (max_tokens most whole : ℕ) (p : Prompt)
    → 1 ≤ most
    → whole ≤ 32768
    → 1 ≤ max_tokens
    → p.request_token_limit ≡ p.specification.approximate_request_token_limit
    → p.specification.maximum_output_tokens ≡ most
    → p.request_token_limit ≡ whole
    → p.maximum_output_tokens ≡ max (min most max_tokens) 1
    → p.estimated_input_tokens ≤ p.input_token_limit
    → p.input_token_limit + p.maximum_output_tokens ≡ p.request_token_limit
    → (ltb max_tokens p.maximum_output_tokens
        || ltb p.specification.approximate_request_token_limit p.request_token_limit
        || ltb p.specification.maximum_output_tokens p.maximum_output_tokens
        || ltb p.input_token_limit p.estimated_input_tokens
        || ltb 4294967295 (p.input_token_limit + p.maximum_output_tokens)
        || not (p.input_token_limit + p.maximum_output_tokens == p.request_token_limit))
      ≡ false
envelope_sound max_tokens most whole p a b c d e f g h i = ground arith

-- The ledger's tests accept a prompt that has been built for the same session, with a model of its name
-- whose context is long enough, if the validators accept the session and the model and the session
-- allows at least one token.
pub validate_reservation_input-build :
    (v : Validators) (lib : Library) (r : Request) (p : Prompt) (m : Model)
    → build_prompt_context lib r ≡ ok p
    → v.session_valid r.session ≡ true
    → v.model_valid m ≡ true
    → 1 ≤ r.session.max_tokens_per_request
    → m.id ≡ p.model_id
    → p.request_token_limit ≤ m.context_length
    → validate_reservation_input v r.session (envelope_of p) m ≡ accepted tt
unfolding validate_reservation_input
validate_reservation_input-build v lib r p m built sv mv some_tokens same_model long_enough =
    let fit = IfOk-of _ built (build_prompt_context-IsFit lib r) in
    let f = fit.5 in
    let spec = prompt_specification (purpose_of r.task) in
    let limits = catalog (purpose_of r.task) in
    let most = ap (λ (s : Specification). s.maximum_output_tokens) f.8 in
    let whole = f.9 ∙ ap (λ (s : Specification). s.approximate_request_token_limit) f.8 in
    let model =
      ap (λ q. selected_model q r.session) (ap (λ (s : Specification). s.purpose) f.8 ∙ limits.2)
      ∙ fit.3 in
    let sound =
      envelope_sound r.session.max_tokens_per_request spec.maximum_output_tokens
        spec.approximate_request_token_limit p limits.0 limits.1 some_tokens f.9 most whole f.10
        f.12 f.13 in
    rw
      (
        sv,
        mv,
        same_model,
        model,
        text_eq_refl p.model_id,
        sound,
        not_less m.context_length p.request_token_limit long_enough,
      )
      refl
