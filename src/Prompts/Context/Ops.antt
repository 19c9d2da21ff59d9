-- ===== src/Prompts/Context/Ops.antt =====
-- prompts/context.rs: `build_prompt_context` and what it calls. `sort_by_key`, which is stable, is an
-- insertion sort. Where the source would panic on a map without the key, the result is the error
-- `panicked`.
use Prim.Native.Nat.{min, max}
use kokoro_koe.Prelude.{
  ℕ, ◌+◌, ◌-◌, ◌/◌, Bool, true, false, not, ◌&&◌, ◌||◌, Option, none, some, List, [], ◌∷◌, ◌++◌,
  map, length, any, is_empty, sum_by, ltb, leb, ◌==◌, if◌then◌else◌, is_some, sat_add,
}
use kokoro_koe.Prelude.Coded.{Coded, ok, err, fail_if, some_or, ◌>>=◌, ◌>>◌}
use kokoro_koe.Prelude.Maps.{Map, lookup, insert}
use kokoro_koe.Transcription.Request.{AudioSource, microphone, system_output}
use kokoro_koe.Llm.Budget.{Purpose}
use kokoro_koe.Llm.Budget.Money.{Text, text_eq}
use kokoro_koe.Llm.Budget.Ops.{selected_model}
use kokoro_koe.Prompts.Context.{
  max_candidate_segments_per_source, max_selected_segments, token_estimate_bytes_per_token,
  token_safety_margin, Task, insight_task, summary_task, question_task, purpose_of, Segment,
  Request, Library, prompt_specification, Origin, relevant, recent, Candidate, Selected, Prompt,
}

-- `char::len_utf8`, summed
abbrev pub utf8_length : List ℕ → ℕ
utf8_length cs =
    sum_by (λ c. if ltb c 128 then 1 else if ltb c 2048 then 2 else if ltb c 65536 then 3 else 4) cs

-- `char::is_whitespace`
abbrev pub is_whitespace : ℕ → Bool
is_whitespace c =
    leb 9 c && leb c 13
    || c == 32
    || c == 133
    || c == 160
    || c == 5760
    || leb 8192 c && leb c 8202
    || c == 8232
    || c == 8233
    || c == 8239
    || c == 8287
    || c == 12288

-- `char::is_control`
abbrev pub is_control : ℕ → Bool
is_control c = ltb c 32 || leb 127 c && leb c 159

abbrev pub has_duplicate : List ℕ → Bool
has_duplicate [] = false
has_duplicate (x ∷ xs) = any (λ y. y == x) xs || has_duplicate xs

-- The tests of `validate_task`
unfoldable pub task_invalid : Request → Task → Bool
task_invalid r (insight_task requested_types) =
    is_empty requested_types
    || ltb 8 (length requested_types)
    || has_duplicate requested_types
    || any (λ t. not (any (λ u. u == t) r.preset_insight_types)) requested_types
task_invalid r (summary_task kind) = false
task_invalid r (question_task question selected_segment_id) =
    selected_segment_id == 0
    || not (any (λ c. not (is_whitespace c)) question)
    || ltb 4096 (utf8_length question)
    || any (λ c. c == 13 || is_control c && not (c == 10) && not (c == 9)) question

abbrev pub source_eq : AudioSource → AudioSource → Bool
source_eq microphone microphone = true
source_eq system_output system_output = true
source_eq _ _ = false

-- The derived equality of segments
abbrev pub segment_eq : Segment → Segment → Bool
segment_eq a b =
    a.id == b.id
    && a.project_id == b.project_id
    && a.session_id == b.session_id
    && source_eq a.source b.source
    && a.start_ms == b.start_ms
    && a.end_ms == b.end_ms
    && text_eq a.text b.text
    && text_eq a.language b.language
    && text_eq a.other_fields b.other_fields

-- One segment into `unique`, which keeps the first of each id
unfoldable pub keep_first :
    Segment
    → Origin
    → Map (Segment × Origin)
    → Option (Segment × Origin)
    → Coded (Map (Segment × Origin))
keep_first s origin unique none = ok (insert s.id (s, origin) unique)
keep_first s origin unique (some previous) =
    if segment_eq previous.0 s then ok unique else err "prompt_segment_conflict"

unfoldable pub collect_unique :
    Library
    → Request
    → Origin
    → List Segment
    → Map (Segment × Origin)
    → Coded (Map (Segment × Origin))
unfolding keep_first
collect_unique lib r origin [] unique = ok unique
collect_unique lib r origin (s ∷ segments) unique =
    fail_if (not (lib.segment_valid s)) "prompt_segments_invalid"
    >> fail_if (not (s.project_id == r.project_id) || not (s.session_id == r.session.id))
        "prompt_context_scope_invalid"
    >> (keep_first s origin unique (lookup s.id unique)
        >>= (λ unique'. collect_unique lib r origin segments unique'))

abbrev pub required_id : Task → Option ℕ
required_id (question_task question selected_segment_id) = some selected_segment_id
required_id _ = none

-- The candidate of an id that is in `unique`
abbrev pub candidate_of : Bool → (Origin → Origin) → Option (Segment × Origin) → Coded Candidate
candidate_of required origin none = err "panicked"
candidate_of required origin (some entry) =
    ok (record { segment = entry.0; origin = origin entry.1; required = required })

-- The origin that was stored, if it is `Relevant`, and else that of the list.
abbrev pub origin_in : Origin → Origin → Origin
origin_in fallback relevant = relevant
origin_in fallback recent = fallback

-- The candidates of one list, after those that are there
unfoldable pub admit :
    Map (Segment × Origin)
    → Origin
    → List Segment
    → List ℕ
    → List Candidate
    → Coded (List ℕ × List Candidate)
admit unique origin [] admitted found = ok (admitted, found)
admit unique origin (s ∷ segments) admitted found =
    if any (λ id. id == s.id) admitted
    then admit unique origin segments admitted found
    else candidate_of false (origin_in origin) (lookup s.id unique)
      >>= (λ c. admit unique origin segments (s.id ∷ admitted) (found ++ c ∷ []))

-- The candidate that comes first, where the task has one
abbrev pub first_candidates : Map (Segment × Origin) → Option ℕ → Coded (List ℕ × List Candidate)
first_candidates unique none = ok ([], [])
first_candidates unique (some id) =
    fail_if (not (is_some (lookup id unique))) "prompt_selected_segment_missing"
    >> (candidate_of true (λ origin. origin) (lookup id unique) >>= (λ c. ok (id ∷ [], c ∷ [])))

unfoldable pub collect_candidates : Library → Request → Coded (List Candidate)
unfolding collect_unique admit
collect_candidates lib r =
    fail_if
      (ltb max_candidate_segments_per_source (length r.relevant_segments)
        || ltb max_candidate_segments_per_source (length r.recent_segments))
      "prompt_segments_invalid"
    >> (collect_unique lib r relevant r.relevant_segments [] >>= (λ of_relevant.
        collect_unique lib r recent r.recent_segments of_relevant >>= (λ unique.
          first_candidates unique (required_id r.task) >>= (λ first.
            admit unique relevant r.relevant_segments first.0 first.1 >>= (λ second.
              admit unique recent r.recent_segments second.0 second.1 >>= (λ all. ok all.1))))))

unfoldable pub estimate_input_tokens : Library → Purpose → Text → Text → ℕ
estimate_input_tokens lib purpose output_schema untrusted_context =
    let bytes =
      sat_add
        (sat_add
          (sat_add
            (sat_add (length lib.system_instructions) (length (lib.task_instructions purpose)))
            (length output_schema))
          (length untrusted_context))
        3 in
    min (min ((bytes + 2) / token_estimate_bytes_per_token) 4294967295 + token_safety_margin)
      4294967295

-- The order of the sort keys: the start, then the end, then the id
abbrev pub before_or_at : Segment → Segment → Bool
before_or_at a b =
    if a.start_ms == b.start_ms
    then (if a.end_ms == b.end_ms then leb a.id b.id else ltb a.end_ms b.end_ms)
    else ltb a.start_ms b.start_ms

abbrev pub insert_sorted : Segment → List Segment → List Segment
insert_sorted s [] = s ∷ []
insert_sorted s (x ∷ xs) = if before_or_at s x then s ∷ x ∷ xs else x ∷ insert_sorted s xs

abbrev pub sort_segments : List Segment → List Segment
sort_segments [] = []
sort_segments (x ∷ xs) = insert_sorted x (sort_segments xs)

abbrev pub count_omission : Origin → Selected → Selected
count_omission relevant st = record st { omitted_relevant = st.omitted_relevant + 1 }
count_omission recent st = record st { omitted_recent = st.omitted_recent + 1 }

-- A candidate that is left out: a required one ends in an error.
abbrev pub leave_out : Candidate → Selected → Coded Selected
leave_out c st =
    if c.required
    then err "prompt_selected_segment_exceeds_budget"
    else ok (count_omission c.origin st)

abbrev pub render : Library → Request → List Segment → Coded Text
render lib r segments =
    some_or (lib.render_untrusted_context r segments) "prompt_context_serialization_failed"

-- One turn of the loop; `fits` says whether a context keeps within the limit.
unfoldable pub consider : Library → Request → (Text → Bool) → Candidate → Selected → Coded Selected
consider lib r fits c st =
    if length st.segments == max_selected_segments
    then leave_out c st
    else let proposed = sort_segments (st.segments ++ c.segment ∷ []) in
      render lib r proposed >>= (λ context.
        if fits context then ok (record st { segments = proposed }) else leave_out c st)

unfoldable pub select :
    Library → Request → (Text → Bool) → List Candidate → Selected → Coded Selected
unfolding consider
select lib r fits [] st = ok st
select lib r fits (c ∷ candidates) st =
    consider lib r fits c st >>= (λ st'. select lib r fits candidates st')

abbrev pub nothing_selected : Selected
nothing_selected = record { segments = []; omitted_relevant = 0; omitted_recent = 0 }

abbrev pub output_limit : Request → ℕ
output_limit r =
    max
      (min (prompt_specification (purpose_of r.task)).maximum_output_tokens
        r.session.max_tokens_per_request)
      1

abbrev pub input_limit : Request → ℕ
input_limit r =
    (prompt_specification (purpose_of r.task)).approximate_request_token_limit - output_limit r

abbrev pub fits_limit : Library → Request → Text → Text → Bool
fits_limit lib r output_schema context =
    leb (estimate_input_tokens lib (purpose_of r.task) output_schema context) (input_limit r)

-- `build_prompt_context` once the model, the schema and the candidates are found
unfoldable pub fill : Library → Request → Text → Text → List Candidate → Coded Prompt
unfolding select
fill lib r model_id output_schema candidates = render lib r [] >>= (λ empty_context.
    fail_if (not (fits_limit lib r output_schema empty_context)) "prompt_context_budget_too_small"
    >> (select lib r (fits_limit lib r output_schema) candidates nothing_selected >>= (λ st.
        render lib r st.segments >>= (λ context.
          fail_if (not (fits_limit lib r output_schema context)) "prompt_context_budget_exceeded"
          >> ok (record {
            specification = prompt_specification (purpose_of r.task);
            model_id = model_id;
            request_token_limit =
                (prompt_specification (purpose_of r.task)).approximate_request_token_limit;
            input_token_limit = input_limit r;
            maximum_output_tokens = output_limit r;
            estimated_input_tokens =
                estimate_input_tokens lib (purpose_of r.task) output_schema context;
            selected_segment_ids = map (λ s. s.id) st.segments;
            omitted_relevant_segments = st.omitted_relevant;
            omitted_recent_segments = st.omitted_recent;
            system_instructions = lib.system_instructions;
            task_instructions = lib.task_instructions (purpose_of r.task);
            untrusted_context = context;
            output_schema = output_schema;
          })))))

unfoldable pub build_prompt_context : Library → Request → Coded Prompt
unfolding task_invalid collect_candidates fill
build_prompt_context lib r =
    fail_if (not (lib.records_valid r)) "prompt_context_record_invalid"
    >> fail_if (not (r.project_id == r.session.project_id)) "prompt_context_scope_invalid"
    >> fail_if (task_invalid r r.task) "prompt_task_invalid"
    >> (some_or (selected_model (purpose_of r.task) r.session) "prompt_model_not_selected"
        >>= (λ model_id.
            some_or (lib.compact_output_schema (purpose_of r.task)) "prompt_catalog_invalid"
            >>= (λ output_schema.
                collect_candidates lib r
                >>= (λ candidates. fill lib r model_id output_schema candidates))))
