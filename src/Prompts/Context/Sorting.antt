-- ===== src/Prompts/Context/Sorting.antt =====
-- prompts/context.rs: segments in the order of their sort keys, and what sorting keeps.
use kokoro_koe.Prelude.{
  ℕ, ◌+◌, ◌≡◌, refl, ap, ◌∙◌, true, false, List, [], ◌∷◌, if_elim, sum_by, All, All-map, ◌==◌,
  if◌then◌else◌, arith,
}
use kokoro_koe.Prompts.Context.{Segment}
use kokoro_koe.Prompts.Context.Ops.{before_or_at, insert_sorted, sort_segments}

abbrev pub IsSorted : List Segment → Type 0
IsSorted [] = Unit
IsSorted (s ∷ segments) = All (λ t. before_or_at s t ≡ true) segments × IsSorted segments

before_or_at_trans :
    (a b c : Segment) → before_or_at a b ≡ true → before_or_at b c ≡ true → before_or_at a c ≡ true
before_or_at_trans a b c h k = ground arith

before_or_at_total : (a b : Segment) → before_or_at a b ≡ false → before_or_at b a ≡ true
before_or_at_total a b h = ground arith

pub All-insert_sorted {ℓ} :
    (P : Segment → Type ℓ) (s : Segment) (xs : List Segment)
    → P s
    → All P xs
    → All P (insert_sorted s xs)
All-insert_sorted P s [] h hs = (h, tt)
All-insert_sorted P s (x ∷ xs) h hs =
    if_elim (All P) (before_or_at s x) (λ e. (h, hs)) (λ e. (hs.0, All-insert_sorted P s xs h hs.1))

pub All-sort_segments {ℓ} :
    (P : Segment → Type ℓ) (xs : List Segment) → All P xs → All P (sort_segments xs)
All-sort_segments P [] h = tt
All-sort_segments P (x ∷ xs) h =
    All-insert_sorted P x (sort_segments xs) h.0 (All-sort_segments P xs h.1)

insert_sorted-IsSorted :
    (s : Segment) (xs : List Segment) → IsSorted xs → IsSorted (insert_sorted s xs)
insert_sorted-IsSorted s [] h = (tt, tt)
insert_sorted-IsSorted s (x ∷ xs) h =
    if_elim IsSorted (before_or_at s x)
      (λ e. ((e, All-map xs (λ t k. before_or_at_trans s x t e k) h.0), h))
      (λ e. (
        All-insert_sorted (λ t. before_or_at x t ≡ true) s xs (before_or_at_total s x e) h.0,
        insert_sorted-IsSorted s xs h.1,
      ))

pub sort_segments-IsSorted : (xs : List Segment) → IsSorted (sort_segments xs)
sort_segments-IsSorted [] = tt
sort_segments-IsSorted (x ∷ xs) =
    insert_sorted-IsSorted x (sort_segments xs) (sort_segments-IsSorted xs)

sum_by-insert_sorted :
    (f : Segment → ℕ) (s : Segment) (xs : List Segment)
    → sum_by f (insert_sorted s xs) ≡ f s + sum_by f xs
sum_by-insert_sorted f s [] = refl
sum_by-insert_sorted f s (x ∷ xs) =
    if_elim (λ ys. sum_by f ys ≡ f s + (f x + sum_by f xs)) (before_or_at s x) (λ e. refl)
      (λ e. omega (arith, sum_by-insert_sorted f s xs))

pub sum_by-sort_segments :
    (f : Segment → ℕ) (xs : List Segment) → sum_by f (sort_segments xs) ≡ sum_by f xs
sum_by-sort_segments f [] = refl
sum_by-sort_segments f (x ∷ xs) =
    sum_by-insert_sorted f x (sort_segments xs) ∙ ap (λ n. f x + n) (sum_by-sort_segments f xs)

-- How many of the segments have an id.
abbrev pub times : ℕ → List Segment → ℕ
times id segments = sum_by (λ s. if s.id == id then 1 else 0) segments
