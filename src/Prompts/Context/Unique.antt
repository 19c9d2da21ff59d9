-- ===== src/Prompts/Context/Unique.antt =====
-- prompts/context.rs: the map of segments that `collect_candidates` fills.
use mathlib.Core.Path.{subst}
use kokoro_koe.Prelude.{
  ℕ, ◌≡◌, refl, ap, sym, ◌∙◌, Bool, true, false, not, ◌||◌, Option, some, none, is_some, List, [],
  ◌∷◌, if_elim, any, unwrap_or, ◌==◌, if◌then◌else◌, arith, Option-cases, inl, inr,
}
use kokoro_koe.Prelude.Coded.{IfOk, IfOk-of, IfOk-map, IfOk-then, IfOk-unless}
use kokoro_koe.Prelude.Maps.{Map, lookup, lookup-insert}
use kokoro_koe.Prompts.Context.{Segment, Request, Library, Origin}
use kokoro_koe.Prompts.Context.Ops.{segment_eq, keep_first, collect_unique}

abbrev pub has : ℕ → List Segment → Bool
has id segments = any (λ s. s.id == id) segments

-- A segment that has passed the tests
abbrev pub IsProper : Library → Request → Segment → Type 0
IsProper lib r s =
    (lib.segment_valid s ≡ true) × (s.project_id ≡ r.project_id) × (s.session_id ≡ r.session.id)

-- The map holds proper segments under their own ids.
abbrev pub HoldsProper : Library → Request → Map (Segment × Origin) → Type 0
HoldsProper lib r unique =
    (id : ℕ) (entry : Segment × Origin)
    → lookup id unique ≡ some entry
    → (entry.0.id ≡ id) × IsProper lib r entry.0

written :
    {A : Type 0} (b : Bool) (x : A) (o : Option A)
    → is_some (if b then some x else o) ≡ is_some o || b
written true x none = refl
written true x (some y) = refl
written false x none = refl
written false x (some y) = refl

pub absorbs : (a b : Bool) → (b ≡ true → a ≡ true) → a ≡ a || b
absorbs true b h = refl
absorbs false true h = h refl
absorbs false false h = refl

pub same_id : (i j : ℕ) → (i == j) ≡ true → i ≡ j
same_id i j h = ground arith

pub regroup : (a b c : Bool) → (a || b) || c ≡ a || (b || c)
regroup true b c = refl
regroup false b c = refl

module _ (lib : Library) (r : Request) where
  keep_first-HoldsProper :
      (s : Segment) (origin : Origin) (unique : Map (Segment × Origin))
      → IsProper lib r s
      → HoldsProper lib r unique
      → IfOk
          (λ unique'.
            HoldsProper lib r unique'
            × ((id : ℕ) → is_some (lookup id unique') ≡ is_some (lookup id unique) || s.id == id))
          (keep_first s origin unique (lookup s.id unique))
  unfolding keep_first
  keep_first-HoldsProper s origin unique p h = elim (Option-cases (lookup s.id unique)) [
    | inl e ↦ rw e (
      λ id entry e'. inserted id entry (sym (lookup-insert s.id id (s, origin) unique) ∙ e'),
      λ id.
          rw (lookup-insert s.id id (s, origin) unique)
            (written (s.id == id) (s, origin) (lookup id unique)),
    )
    | inr (previous, e) ↦ rw e (
        if_elim (IfOk After) (segment_eq previous.0 s)
          (λ _. (h, λ id. there id previous (ap is_some e))) (λ _. tt))
  ]
    where
      After : Map (Segment × Origin) → Type 0
      After unique' =
          HoldsProper lib r unique'
          × ((id : ℕ) → is_some (lookup id unique') ≡ is_some (lookup id unique) || s.id == id)

      inserted :
          (id : ℕ) (entry : Segment × Origin)
          → (if s.id == id then some (s, origin) else lookup id unique) ≡ some entry
          → (entry.0.id ≡ id) × IsProper lib r entry.0
      inserted id entry =
          if_elim
            (λ (o : Option (Segment × Origin)).
              o ≡ some entry → (entry.0.id ≡ id) × IsProper lib r entry.0)
            (s.id == id)
            (λ b e.
              subst (λ (x : Segment × Origin). (x.0.id ≡ id) × IsProper lib r x.0)
                (ap (λ o. unwrap_or o (s, origin)) e) (ground arith, p))
            (λ b e. h id entry e)

      there :
          (id : ℕ) (previous : Segment × Origin)
          → is_some (lookup s.id unique) ≡ true
          → is_some (lookup id unique) ≡ is_some (lookup id unique) || s.id == id
      there id previous e =
          absorbs (is_some (lookup id unique)) (s.id == id)
            (λ b. subst (λ k. is_some (lookup k unique) ≡ true) (same_id s.id id b) e)

  pub collect_unique-HoldsProper :
      (origin : Origin) (segments : List Segment) (unique : Map (Segment × Origin))
      → HoldsProper lib r unique
      → IfOk
          (λ unique'.
            HoldsProper lib r unique'
            × ((id : ℕ)
                → is_some (lookup id unique') ≡ is_some (lookup id unique) || has id segments))
          (collect_unique lib r origin segments unique)
  unfolding collect_unique
  collect_unique-HoldsProper origin [] unique h = (h, λ id. ground arith)
  collect_unique-HoldsProper origin (s ∷ segments) unique h =
      IfOk-unless After (not (lib.segment_valid s)) "prompt_segments_invalid" _ (λ v.
        IfOk-unless After (not (s.project_id == r.project_id) || not (s.session_id == r.session.id))
          "prompt_context_scope_invalid" _
          (λ w. IfOk-then After (keep_first s origin unique (lookup s.id unique)) _ (λ unique₁ e.
            let first = IfOk-of _ e (
              keep_first-HoldsProper s origin unique (ground arith, ground arith, ground arith)
                h) in
            IfOk-map (collect_unique lib r origin segments unique₁)
              (collect_unique-HoldsProper origin segments unique₁ first.0)
              (λ unique' k. (
                k.0,
                λ id.
                    k.1 id
                    ∙ ap (λ b. b || has id segments) (first.1 id)
                    ∙ regroup (is_some (lookup id unique)) (s.id == id) (has id segments),
              )))))
    where
      After : Map (Segment × Origin) → Type 0
      After unique' =
          HoldsProper lib r unique'
          × ((id : ℕ)
              → is_some (lookup id unique') ≡ is_some (lookup id unique) || has id (s ∷ segments))
