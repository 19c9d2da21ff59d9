-- ===== src/Prompts/Context/Selection.antt =====
-- prompts/context.rs: what the loop of `build_prompt_context` selects, and the prompt that is built.
use Prim.Native.Nat.{min}
use kokoro_koe.Prelude.{
  ℕ, suc, ◌+◌, ◌-◌, ◌≤◌, ◌≡◌, refl, ap, sym, ◌∙◌, Bool, true, false, not, some, List, [], ◌∷◌, ◌++◌,
  map, if_elim, length, sum_by, sum_by-append, All, leb, ◌==◌, if◌then◌else◌, arith,
}
use kokoro_koe.Prelude.Coded.{
  ok, IfOk, IfOk-of, IfOk-map, IfOk-then, IfOk-unless, some_or, some_or-ok,
}
use kokoro_koe.Llm.Budget.Money.{Text}
use kokoro_koe.Llm.Budget.Ops.{selected_model}
use kokoro_koe.Prompts.Context.{
  Segment, Request, Library, Candidate, Selected, Prompt, relevant, recent, max_selected_segments,
  token_safety_margin, prompt_specification, purpose_of,
}
use kokoro_koe.Prompts.Context.Ops.{
  sort_segments, count_omission, leave_out, render, consider, select, nothing_selected,
  output_limit, input_limit, fits_limit, estimate_input_tokens, fill, task_invalid,
  collect_candidates, build_prompt_context,
}
use kokoro_koe.Prompts.Context.Candidates.{IsComplete, collect_candidates-IsComplete}
use kokoro_koe.Prompts.Context.Sorting.{
  IsSorted, sort_segments-IsSorted, sum_by-sort_segments, times,
}

abbrev pub left_out : Selected → ℕ
left_out st = st.omitted_relevant + st.omitted_recent

abbrev pub Fits : Library → Request → (Text → Bool) → List Segment → Type 0
Fits lib r fits segments =
    (context : Text) × (render lib r segments ≡ ok context) × (fits context ≡ true)

-- A selection keeps its order, its size and its limit.
abbrev pub IsChoice : Library → Request → (Text → Bool) → List Segment → Type 0
IsChoice lib r fits segments =
    IsSorted segments × (length segments ≤ max_selected_segments) × Fits lib r fits segments

-- What taking in one candidate does: it is selected or counted as left out, nothing that was selected
-- is lost and nothing else is added.
abbrev pub Considers : Candidate → Selected → Selected → Type 0
Considers c st st' =
    (length st'.segments + left_out st' ≡ suc (length st.segments + left_out st))
    × ((id : ℕ) → times id st.segments ≤ times id st'.segments)
    × ((id : ℕ) → times id st'.segments ≤ times id st.segments + times id (c.segment ∷ []))
    × (c.required ≡ true → 1 ≤ times c.segment.id st'.segments)

length-sum : (segments : List Segment) → length segments ≡ sum_by (λ s. 1) segments
length-sum [] = refl
length-sum (s ∷ segments) = ap suc (length-sum segments) ∙ omega arith

leave_out-Considers :
    (P : Selected → Type 0) (c : Candidate) (st : Selected)
    → P (record st { omitted_relevant = st.omitted_relevant + 1 })
    → P (record st { omitted_recent = st.omitted_recent + 1 })
    → IfOk (λ st'. Considers c st st' × P st') (leave_out c st)
leave_out-Considers P c st h k =
    if_elim (IfOk (λ st'. Considers c st st' × P st')) c.required (λ e. tt)
      (λ e. by_origin c.origin e)
  where
    by_origin :
        (o : _)
        → c.required ≡ false
        → Considers c st (count_omission o st) × P (count_omission o st)
    by_origin relevant e =
        ((omega arith, λ id. omega arith, λ id. omega arith, λ e'. absurd (ground arith)), h)
    by_origin recent e =
        ((omega arith, λ id. omega arith, λ id. omega arith, λ e'. absurd (ground arith)), k)

module _ (lib : Library) (r : Request) (fits : Text → Bool) where
  consider-IsChoice :
      (c : Candidate) (st : Selected)
      → IsChoice lib r fits st.segments
      → IfOk
          (λ st'. Considers c st st' × IsChoice lib r fits st'.segments)
          (consider lib r fits c st)
  unfolding consider
  consider-IsChoice c st h =
      if_elim (IfOk After) (length st.segments == max_selected_segments)
        (λ e. leave_out-Considers Kept c st h h)
        (λ e. IfOk-then After (render lib r proposed) _ (λ context e'.
          if_elim (IfOk After) (fits context)
            (λ f. (
              (
                omega (arith, grown),
                λ id. omega (arith, counted id),
                λ id. omega (arith, counted id),
                λ q. ground (arith, counted c.segment.id),
              ),
              (sort_segments-IsSorted appended, ground (arith, grown, h.1), (context, e', f)),
            ))
            (λ f. leave_out-Considers Kept c st h h)))
    where
      After : Selected → Type 0
      After st' = Considers c st st' × IsChoice lib r fits st'.segments

      Kept : Selected → Type 0
      Kept st' = IsChoice lib r fits st'.segments

      appended : List Segment
      appended = st.segments ++ c.segment ∷ []

      proposed : List Segment
      proposed = sort_segments appended

      grown : length proposed ≡ suc (length st.segments)
      grown =
          length-sum proposed
          ∙ sum_by-sort_segments (λ s. 1) appended
          ∙ sum_by-append (λ s. 1) st.segments (c.segment ∷ [])
          ∙ omega (arith, length-sum st.segments)

      counted : (id : ℕ) → times id proposed ≡ times id st.segments + times id (c.segment ∷ [])
      counted id =
          sum_by-sort_segments (λ s. if s.id == id then 1 else 0) appended
          ∙ sum_by-append (λ s. if s.id == id then 1 else 0) st.segments (c.segment ∷ [])

-- What the loop does with all candidates: each is selected or counted, the required ones are selected,
-- and no id stands more often than among the candidates and what was there.
abbrev pub Selects : List Candidate → Selected → Selected → Type 0
Selects candidates st st' =
    (length st'.segments + left_out st' ≡ length candidates + (length st.segments + left_out st))
    × ((id : ℕ) → times id st.segments ≤ times id st'.segments)
    × ((id : ℕ)
        → times id st'.segments ≤ times id st.segments + times id (map (λ c. c.segment) candidates))
    × All (λ c. c.required ≡ true → 1 ≤ times c.segment.id st'.segments) candidates

module _ (lib : Library) (r : Request) (fits : Text → Bool) where
  select-IsChoice :
      (candidates : List Candidate) (st : Selected)
      → IsChoice lib r fits st.segments
      → IfOk
          (λ st'. Selects candidates st st' × IsChoice lib r fits st'.segments)
          (select lib r fits candidates st)
  unfolding select
  select-IsChoice [] st h = ((omega arith, λ id. omega arith, λ id. omega arith, tt), h)
  select-IsChoice (c ∷ candidates) st h = IfOk-then After (consider lib r fits c st) _ (λ st₁ e.
      let first = IfOk-of Before e (consider-IsChoice lib r fits c st h) in
      IfOk-map (select lib r fits candidates st₁) (select-IsChoice candidates st₁ first.1) (λ st' k.
        (
          (
            omega (arith, first.0.0, k.0.0),
            λ id. omega (arith, first.0.1 id, k.0.1 id),
            λ id. omega (arith, first.0.2 id, k.0.2 id),
            (λ q. omega (arith, first.0.3 q, k.0.1 c.segment.id), k.0.3),
          ),
          k.1,
        )))
    where
      Before : Selected → Type 0
      Before st' = Considers c st st' × IsChoice lib r fits st'.segments

      After : Selected → Type 0
      After st' = Selects (c ∷ candidates) st st' × IsChoice lib r fits st'.segments

-- A prompt that suits its request and its candidates.
abbrev pub IsFit : Library → Request → List Candidate → Prompt → Type 0
IsFit lib r candidates p =
    (segments : List Segment) × (p.selected_segment_ids ≡ map (λ s. s.id) segments)
    × (render lib r segments ≡ ok p.untrusted_context)
    × IsSorted segments
    × (length segments ≤ max_selected_segments)
    × (length segments + (p.omitted_relevant_segments + p.omitted_recent_segments)
        ≡ length candidates)
    × ((id : ℕ) → times id segments ≤ times id (map (λ c. c.segment) candidates))
    × All (λ c. c.required ≡ true → 1 ≤ times c.segment.id segments) candidates
    × (p.specification ≡ prompt_specification (purpose_of r.task))
    × (p.request_token_limit ≡ p.specification.approximate_request_token_limit)
    × (p.maximum_output_tokens ≡ output_limit r)
    × (p.estimated_input_tokens
        ≡ estimate_input_tokens lib (purpose_of r.task) p.output_schema p.untrusted_context)
    × (p.estimated_input_tokens ≤ p.input_token_limit)
    × (p.input_token_limit + p.maximum_output_tokens ≡ p.request_token_limit)
    × (p.system_instructions ≡ lib.system_instructions)
    × (p.task_instructions ≡ lib.task_instructions (purpose_of r.task))

room_left :
    (request output n : ℕ)
    → leb (min (min n 4294967295 + token_safety_margin) 4294967295) (request - output) ≡ true
    → request - output + output ≡ request
room_left request output n h = ground arith

-- The estimate is never zero, so a context that fits leaves room for the answer.
limits_add_up :
    (lib : Library) (r : Request) (schema context : Text)
    → fits_limit lib r schema context ≡ true
    → input_limit r + output_limit r
      ≡ (prompt_specification (purpose_of r.task)).approximate_request_token_limit
unfolding estimate_input_tokens
limits_add_up lib r schema context h =
    room_left (prompt_specification (purpose_of r.task)).approximate_request_token_limit
      (output_limit r) _ h

fill-IsFit :
    (lib : Library) (r : Request) (model_id schema : Text) (candidates : List Candidate)
    → IfOk
        (λ p. IsFit lib r candidates p × (p.model_id ≡ model_id) × (p.output_schema ≡ schema))
        (fill lib r model_id schema candidates)
unfolding fill
fill-IsFit lib r model_id schema candidates = IfOk-then P (render lib r []) _ (λ empty e.
    IfOk-unless P (not (fits_limit lib r schema empty)) "prompt_context_budget_too_small" _ (λ f.
      IfOk-then P (select lib r (fits_limit lib r schema) candidates nothing_selected) _ (λ st e'.
        let chosen = IfOk-of _ e' (
          select-IsChoice lib r (fits_limit lib r schema) candidates nothing_selected
            (tt, omega arith, (empty, e, ground (arith, f)))) in
        IfOk-then P (render lib r st.segments) _ (λ context e''.
          IfOk-unless P (not (fits_limit lib r schema context)) "prompt_context_budget_exceeded" _
            (λ g. (
              (
                st.segments,
                refl,
                e'',
                chosen.1.0,
                chosen.1.1,
                omega (arith, chosen.0.0),
                λ id. omega (arith, chosen.0.2 id),
                chosen.0.3,
                refl,
                refl,
                refl,
                refl,
                ground (arith, g),
                limits_add_up lib r schema context (ground (arith, g)),
                refl,
                refl,
              ),
              refl,
              refl,
            ))))))
  where
    P : Prompt → Type 0
    P p = IsFit lib r candidates p × (p.model_id ≡ model_id) × (p.output_schema ≡ schema)

-- A prompt that is built names the model of its purpose, has the instructions and the output schema of
-- its purpose, and was made of a complete list of candidates: its context shows at most 64 segments
-- in the order of their times, the ones whose ids it lists, no id more often than among the
-- candidates, with the one that a question requires; the others are counted as left out. The estimate
-- of its input is that of its context and its output schema and is within the limit of the input,
-- which together with the limit of the output is the limit of the request.
pub build_prompt_context-IsFit :
    (lib : Library) (r : Request)
    → IfOk
        (λ p.
          (candidates : List Candidate) × (collect_candidates lib r ≡ ok candidates)
          × IsComplete lib r candidates
          × (selected_model (purpose_of r.task) r.session ≡ some p.model_id)
          × (lib.compact_output_schema (purpose_of r.task) ≡ some p.output_schema)
          × IsFit lib r candidates p)
        (build_prompt_context lib r)
unfolding build_prompt_context
build_prompt_context-IsFit lib r =
    IfOk-unless P (not (lib.records_valid r)) "prompt_context_record_invalid" _ (λ _.
      IfOk-unless P (not (r.project_id == r.session.project_id)) "prompt_context_scope_invalid" _
        (λ _. IfOk-unless P (task_invalid r r.task) "prompt_task_invalid" _ (λ _.
          IfOk-then P
            (some_or (selected_model (purpose_of r.task) r.session) "prompt_model_not_selected") _
            (λ model_id m.
              IfOk-then P
                (some_or (lib.compact_output_schema (purpose_of r.task)) "prompt_catalog_invalid") _
                (λ schema o. IfOk-then P (collect_candidates lib r) _ (λ candidates c.
                  IfOk-map (fill lib r model_id schema candidates)
                    (fill-IsFit lib r model_id schema candidates)
                    (λ p h. (
                      candidates,
                      c,
                      IfOk-of (IsComplete lib r) c (collect_candidates-IsComplete lib r),
                      some_or-ok (selected_model (purpose_of r.task) r.session)
                            "prompt_model_not_selected" model_id m
                          ∙ ap some (sym h.1),
                      some_or-ok (lib.compact_output_schema (purpose_of r.task))
                            "prompt_catalog_invalid" schema o
                          ∙ ap some (sym h.2),
                      h.0,
                    ))))))))
  where
    P : Prompt → Type 0
    P p =
        (candidates : List Candidate) × (collect_candidates lib r ≡ ok candidates)
        × IsComplete lib r candidates
        × (selected_model (purpose_of r.task) r.session ≡ some p.model_id)
        × (lib.compact_output_schema (purpose_of r.task) ≡ some p.output_schema)
        × IsFit lib r candidates p
