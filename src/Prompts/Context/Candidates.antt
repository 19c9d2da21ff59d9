-- ===== src/Prompts/Context/Candidates.antt =====
-- prompts/context.rs: the candidates that `collect_candidates` finds.
use mathlib.Core.Path.{subst}
use mathlib.Core.List.{append_assoc, append-nil, map-append}
use kokoro_koe.Prelude.{
  ℕ, ◌+◌, ◌≡◌, refl, ap, sym, ◌∙◌, Bool, true, false, not, ◌||◌, Option, some, none, is_some, List,
  [], ◌∷◌, ◌++◌, map, if_elim, any, any-append, sum_by, sum_by-append, length, All, All-append,
  ◌==◌, if◌then◌else◌, arith, ltb, Option-cases, inl, inr,
}
use kokoro_koe.Prelude.Coded.{IfOk, IfOk-of, IfOk-map, IfOk-then, IfOk-unless}
use kokoro_koe.Prelude.Maps.{Map, lookup}
use kokoro_koe.Prompts.Context.{
  Segment, Request, Library, Origin, relevant, recent, Candidate, max_candidate_segments_per_source,
}
use kokoro_koe.Prompts.Context.Ops.{
  collect_unique, candidate_of, origin_in, admit, first_candidates, required_id, collect_candidates,
}
use kokoro_koe.Prompts.Context.Sorting.{times}
use kokoro_koe.Prompts.Context.Unique.{
  has, IsProper, HoldsProper, absorbs, same_id, regroup, collect_unique-HoldsProper,
}

swapped : (a b c : Bool) → (b || a) || c ≡ a || (b || c)
swapped true true c = refl
swapped true false c = refl
swapped false true c = refl
swapped false false c = refl

one_more :
    (a b : Bool)
    → (b ≡ true → a ≡ false)
    → (if a then 1 else 0) + (if b then 1 else 0) ≡ (if b || a then 1 else 0)
one_more true true h = absurd (ground (arith, h refl))
one_more true false h = refl
one_more false true h = refl
one_more false false h = refl

abbrev segments_of : List Candidate → List Segment
segments_of found = map (λ c. c.segment) found

-- Each id that has been admitted has one candidate.
abbrev IsAdmitted : Library → Request → List ℕ → List Candidate → Type 0
IsAdmitted lib r admitted found =
    ((id : ℕ) → times id (segments_of found) ≡ (if any (λ i. i == id) admitted then 1 else 0))
    × All (λ c. IsProper lib r c.segment) found

abbrev Admits :
    Library → Request → List Segment → List ℕ × List Candidate → List ℕ × List Candidate → Type 0
Admits lib r segments from to =
    IsAdmitted lib r to.0 to.1
    × ((id : ℕ) → any (λ i. i == id) to.0 ≡ any (λ i. i == id) from.0 || has id segments)
    × ((more : List Candidate) × (to.1 ≡ from.1 ++ more))

alone : (b : Bool) → (if b then 1 else 0) + 0 ≡ (if b || false then 1 else 0)
alone true = refl
alone false = refl

covered : (q a b : Bool) → (q ≡ true → (a || b) ≡ true) → (q || a) || b ≡ a || b
covered true a b h = sym (h refl)
covered false a b h = refl

-- The candidate that the task requires is the first.
abbrev pub StartsWith : Option ℕ → List Candidate → Type 0
StartsWith none found = Unit
StartsWith (some id) [] = true ≡ false
StartsWith (some id) (c ∷ found) = (c.segment.id ≡ id) × (c.required ≡ true)

abbrev is_required : ℕ → Option ℕ → Bool
is_required id none = false
is_required id (some i) = i == id

StartsWith-append :
    (required : Option ℕ) (found more : List Candidate)
    → StartsWith required found
    → StartsWith required (found ++ more)
StartsWith-append none found more h = tt
StartsWith-append (some id) [] more h = absurd (ground arith)
StartsWith-append (some id) (c ∷ found) more h = h

module _ (lib : Library) (r : Request) (unique : Map (Segment × Origin))
    (proper : HoldsProper lib r unique) where
  candidate_of-IsProper :
      (required : Bool) (origin : Origin → Origin) (id : ℕ)
      → IfOk
          (λ c. (c.segment.id ≡ id) × IsProper lib r c.segment × (c.required ≡ required))
          (candidate_of required origin (lookup id unique))
  candidate_of-IsProper required origin id = elim (Option-cases (lookup id unique)) [
    | inl e ↦ rw e tt
    | inr (entry, e) ↦ let p = proper id entry e in rw e (p.0, p.1, refl)
  ]

  IsAdmitted-next :
      (s : Segment) (c : Candidate) (admitted : List ℕ) (found : List Candidate)
      → any (λ i. i == s.id) admitted ≡ false
      → c.segment.id ≡ s.id
      → IsProper lib r c.segment
      → IsAdmitted lib r admitted found
      → IsAdmitted lib r (s.id ∷ admitted) (found ++ c ∷ [])
  IsAdmitted-next s c admitted found n e p h = (
    λ id.
        ap (sum_by (λ t. if t.id == id then 1 else 0))
          (map-append (λ (x : Candidate). x.segment) found (c ∷ []))
        ∙ sum_by-append (λ t. if t.id == id then 1 else 0) (segments_of found) (c.segment ∷ [])
        ∙ rw e (
            omega (
              arith,
              h.0 id,
              one_more (any (λ i. i == id) admitted) (s.id == id)
                  (λ q. subst (λ k. any (λ i. i == k) admitted ≡ false) (same_id s.id id q) n),
            )),
    All-append (λ (x : Candidate). IsProper lib r x.segment) found (c ∷ []) h.1 (p, tt),
  )

  admit-Admits :
      (origin : Origin) (segments : List Segment) (admitted : List ℕ) (found : List Candidate)
      → IsAdmitted lib r admitted found
      → IfOk (Admits lib r segments (admitted, found)) (admit unique origin segments admitted found)
  unfolding admit
  admit-Admits origin [] admitted found h = (h, λ id. ground arith, ([], sym (append-nil found)))
  admit-Admits origin (s ∷ segments) admitted found h =
      if_elim (IfOk After) (any (λ i. i == s.id) admitted)
        (λ b.
          IfOk-map (admit unique origin segments admitted found)
            (admit-Admits origin segments admitted found h)
            (λ a k. (k.0, λ id. k.1 id ∙ again id b, k.2)))
        (λ b. IfOk-then After (candidate_of false (origin_in origin) (lookup s.id unique)) _ (λ c e.
          let p = IfOk-of _ e (candidate_of-IsProper false (origin_in origin) s.id) in
          IfOk-map (admit unique origin segments (s.id ∷ admitted) (found ++ c ∷ []))
            (admit-Admits origin segments (s.id ∷ admitted) (found ++ c ∷ [])
              (IsAdmitted-next s c admitted found b p.0 p.1 h))
            (λ a k. (
              k.0,
              λ id. k.1 id ∙ swapped (any (λ i. i == id) admitted) (s.id == id) (has id segments),
              (c ∷ k.2.0, k.2.1 ∙ append_assoc found (c ∷ []) k.2.0),
            ))))
    where
      After : List ℕ × List Candidate → Type 0
      After = Admits lib r (s ∷ segments) (admitted, found)

      again :
          (id : ℕ)
          → any (λ i. i == s.id) admitted ≡ true
          → (any (λ i. i == id) admitted || has id segments)
            ≡ any (λ i. i == id) admitted || has id (s ∷ segments)
      again id b =
          ap (λ x. x || has id segments)
            (absorbs (any (λ i. i == id) admitted) (s.id == id)
              (λ q. subst (λ k. any (λ i. i == k) admitted ≡ true) (same_id s.id id q) b))
          ∙ regroup (any (λ i. i == id) admitted) (s.id == id) (has id segments)

  first_candidates-IsAdmitted :
      (required : Option ℕ)
      → IfOk
          (λ a.
            IsAdmitted lib r a.0 a.1
            × StartsWith required a.1
            × ((id : ℕ) → any (λ i. i == id) a.0 ≡ is_required id required)
            × ((id : ℕ) → is_required id required ≡ true → is_some (lookup id unique) ≡ true))
          (first_candidates unique required)
  first_candidates-IsAdmitted none =
      ((λ id. refl, tt), tt, λ id. refl, λ id e. absurd (ground arith))
  first_candidates-IsAdmitted (some id) =
      IfOk-unless After (not (is_some (lookup id unique))) "prompt_selected_segment_missing" _ (λ b.
        IfOk-then After (candidate_of true (λ origin. origin) (lookup id unique)) _ (λ c e.
          let p = IfOk-of _ e (candidate_of-IsProper true (λ origin. origin) id) in
          (
            (λ i. rw (p.0) (alone (id == i)), (p.1, tt)),
            (p.0, p.2),
            λ i. ground arith,
            λ i q. subst (λ k. is_some (lookup k unique) ≡ true) (same_id id i q) (ground arith),
          )))
    where
      After : List ℕ × List Candidate → Type 0
      After a =
          IsAdmitted lib r a.0 a.1
          × StartsWith (some id) a.1
          × ((i : ℕ) → any (λ j. j == i) a.0 ≡ is_required i (some id))
          × ((i : ℕ) → is_required i (some id) ≡ true → is_some (lookup i unique) ≡ true)

-- What the candidates of a request are.
abbrev pub IsComplete : Library → Request → List Candidate → Type 0
IsComplete lib r candidates =
    ((id : ℕ)
      → times id (segments_of candidates)
        ≡ (if has id (r.relevant_segments ++ r.recent_segments) then 1 else 0))
    × All (λ c. IsProper lib r c.segment) candidates
    × StartsWith (required_id r.task) candidates

nothing_held : (lib : Library) (r : Request) → HoldsProper lib r []
unfolding lookup
nothing_held lib r id entry e = absurd (ground (arith, ap is_some e))

nothing_there : (id : ℕ) (b : Bool) → (is_some (lookup {V = Segment × Origin} id []) || b) ≡ b
unfolding lookup
nothing_there id b = refl

-- The three steps, one after the other.
assembled :
    (lib : Library) (r : Request) (u : Map (Segment × Origin)) (a₀ a₁ a₂ : List ℕ × List Candidate)
    → ((id : ℕ) → is_some (lookup id u) ≡ has id r.relevant_segments || has id r.recent_segments)
    → IsAdmitted lib r a₀.0 a₀.1
      × StartsWith (required_id r.task) a₀.1
      × ((id : ℕ) → any (λ i. i == id) a₀.0 ≡ is_required id (required_id r.task))
      × ((id : ℕ) → is_required id (required_id r.task) ≡ true → is_some (lookup id u) ≡ true)
    → Admits lib r r.relevant_segments a₀ a₁
    → Admits lib r r.recent_segments a₁ a₂
    → IsComplete lib r a₂.1
assembled lib r u a₀ a₁ a₂ all k₃ k₄ k₅ = (
  λ id. k₅.0.0 id ∙ ap (λ b. if b then 1 else 0) (every id),
  k₅.0.1,
  subst (StartsWith (required_id r.task)) (sym k₅.2.1) (
      StartsWith-append (required_id r.task) a₁.1 k₅.2.0 (
        subst (StartsWith (required_id r.task)) (sym k₄.2.1)
          (StartsWith-append (required_id r.task) a₀.1 k₄.2.0 k₃.1))),
)
  where
    every : (id : ℕ) → any (λ i. i == id) a₂.0 ≡ has id (r.relevant_segments ++ r.recent_segments)
    every id =
        k₅.1 id
        ∙ ap (λ b. b || has id r.recent_segments)
            (k₄.1 id ∙ ap (λ b. b || has id r.relevant_segments) (k₃.2 id))
        ∙ covered (is_required id (required_id r.task)) (has id r.relevant_segments)
            (has id r.recent_segments) (λ q. sym (all id) ∙ k₃.3 id q)
        ∙ sym (any-append (λ s. s.id == id) r.relevant_segments r.recent_segments)

-- The candidates that are found have passed the tests, one for each id that stands in either list and
-- no other, and the one that a question requires is the first and is marked as required.
pub collect_candidates-IsComplete :
    (lib : Library) (r : Request) → IfOk (IsComplete lib r) (collect_candidates lib r)
unfolding collect_candidates
collect_candidates-IsComplete lib r =
    IfOk-unless P
      (ltb max_candidate_segments_per_source (length r.relevant_segments)
        || ltb max_candidate_segments_per_source (length r.recent_segments))
      "prompt_segments_invalid" _
      (λ _. IfOk-then P (collect_unique lib r relevant r.relevant_segments []) _ (λ u₁ e₁.
        let k₁ =
          IfOk-of _ e₁ (
            collect_unique-HoldsProper lib r relevant r.relevant_segments []
              (nothing_held lib r)) in
        IfOk-then P (collect_unique lib r recent r.recent_segments u₁) _ (λ u e₂.
          let k₂ =
            IfOk-of _ e₂ (collect_unique-HoldsProper lib r recent r.recent_segments u₁ k₁.0) in
          IfOk-then P (first_candidates u (required_id r.task)) _ (λ a₀ e₃.
            let k₃ = IfOk-of _ e₃ (first_candidates-IsAdmitted lib r u k₂.0 (required_id r.task)) in
            IfOk-then P (admit u relevant r.relevant_segments a₀.0 a₀.1) _ (λ a₁ e₄.
              let k₄ =
                IfOk-of _ e₄
                  (admit-Admits lib r u k₂.0 relevant r.relevant_segments a₀.0 a₀.1 k₃.0) in
              IfOk-then P (admit u recent r.recent_segments a₁.0 a₁.1) _ (λ a₂ e₅.
                let k₅ =
                  IfOk-of _ e₅
                    (admit-Admits lib r u k₂.0 recent r.recent_segments a₁.0 a₁.1 k₄.0) in
                assembled lib r u a₀ a₁ a₂
                  (λ id.
                    k₂.1 id
                    ∙ ap (λ b. b || has id r.recent_segments)
                        (k₁.1 id ∙ nothing_there id (has id r.relevant_segments)))
                  k₃ k₄ k₅))))))
  where
    P : List Candidate → Type 0
    P = IsComplete lib r
