-- ===== src/Prelude/Maps.antt =====
-- A `HashMap` with numbers for keys, as an association list: what the code reads of it does not
-- depend on the order.
use Prim.Native.Nat.{ℕ, suc, ◌+◌}
use mathlib.Core.Path.{◌≡◌, refl}
use mathlib.Core.Logic.{◌≢◌, inl, inr}
use mathlib.Core.Option.{Option, none, some}
use mathlib.Core.List.{List, [], ◌∷◌}
use native.Mathlib.Omega.{arith}
use kokoro_koe.Prelude.Tests.{◌==◌, if◌then◌else◌, Bool-cases}
use kokoro_koe.Prelude.Lists.{length, sum_by, All}

abbrev pub Map {ℓ} : Type ℓ → Type ℓ
Map V = List (ℕ × V)

module _ {ℓ} {V : Type ℓ} where
  -- `get`
  unfoldable pub lookup : ℕ → Map V → Option V
  lookup key [] = none
  lookup key (entry ∷ others) = if entry.0 == key then some entry.1 else lookup key others

  -- `insert`: it replaces the value of a key that is there.
  unfoldable pub insert : ℕ → V → Map V → Map V
  insert key value [] = (key, value) ∷ []
  insert key value (entry ∷ others) =
      if entry.0 == key then (entry.0, value) ∷ others else entry ∷ insert key value others

  unfoldable pub remove : ℕ → Map V → Map V
  remove k [] = []
  remove k ((j, w) ∷ m) = if j == k then m else (j, w) ∷ remove k m

  abbrev pub Absent : ℕ → Map V → Type 0
  Absent k = All (λ e. e.0 ≢ k)

  -- Each key stands once.
  abbrev pub Keyed : Map V → Type 0
  Keyed [] = Unit
  Keyed (e ∷ m) = Absent e.0 m × Keyed m

  -- What is read after a write.
  pub lookup-insert :
      (written read : ℕ) (value : V) (m : Map V)
      → lookup read (insert written value m)
        ≡ (if written == read then some value else lookup read m)
  unfolding lookup insert
  lookup-insert written read value [] = refl
  lookup-insert written read value (entry ∷ others) =
      ground (arith, lookup-insert written read value others)

  pub lookup-Absent : (k : ℕ) (m : Map V) → Absent k m → lookup k m ≡ none
  unfolding lookup
  lookup-Absent k [] h = refl
  lookup-Absent k ((i, w) ∷ m) h = ground (arith, lookup-Absent k m h.1)

  pub Absent-of_lookup : (k : ℕ) (m : Map V) → lookup k m ≡ none → Absent k m
  unfolding lookup
  Absent-of_lookup k [] h = tt
  Absent-of_lookup k ((i, w) ∷ m) h = ground (arith, Absent-of_lookup k m)

  Absent-insert : (i k : ℕ) (v : V) (m : Map V) → k ≢ i → Absent i m → Absent i (insert k v m)
  unfolding insert
  Absent-insert i k v [] n h = (n, tt)
  Absent-insert i k v ((j, w) ∷ m) n h = ground (arith, Absent-insert i k v m n h.1)

  pub Keyed-insert : (k : ℕ) (v : V) (m : Map V) → Keyed m → Keyed (insert k v m)
  unfolding insert
  Keyed-insert k v [] h = (tt, tt)
  Keyed-insert k v ((j, w) ∷ m) h = elim (Bool-cases (j == k)) [
    | inl e ↦ rw e h
    | inr e ↦ rw e (Absent-insert j k v m (ground arith) h.0, Keyed-insert k v m h.1)
  ]

  Absent-remove : (i k : ℕ) (m : Map V) → Absent i m → Absent i (remove k m)
  unfolding remove
  Absent-remove i k [] h = tt
  Absent-remove i k ((j, w) ∷ m) h = ground (arith, Absent-remove i k m h.1)

  pub Keyed-remove : (k : ℕ) (m : Map V) → Keyed m → Keyed (remove k m)
  unfolding remove
  Keyed-remove k [] h = tt
  Keyed-remove k ((j, w) ∷ m) h = elim (Bool-cases (j == k)) [
    | inl e ↦ rw e h.1
    | inr e ↦ rw e (Absent-remove j k m h.0, Keyed-remove k m h.1)
  ]

  pub lookup-remove :
      (k j : ℕ) (m : Map V)
      → Keyed m
      → lookup j (remove k m) ≡ (if k == j then none else lookup j m)
  unfolding lookup remove
  lookup-remove k j [] h = ground arith
  lookup-remove k j ((i, w) ∷ m) h = ground (arith, lookup-remove k j m h.1, lookup-Absent i m h.0)

  -- What a sum over the entries loses with an entry, and gains with a new one.
  pub sum_by-remove :
      (f : ℕ × V → ℕ) (k : ℕ) (v : V) (m : Map V)
      → lookup k m ≡ some v
      → sum_by f m ≡ f (k, v) + sum_by f (remove k m)
  unfolding lookup remove
  sum_by-remove f k v [] h = cc
  sum_by-remove f k v ((j, w) ∷ m) h = ground (arith, sum_by-remove f k v m)

  pub sum_by-insert_new :
      (f : ℕ × V → ℕ) (k : ℕ) (v : V) (m : Map V)
      → Absent k m
      → sum_by f (insert k v m) ≡ f (k, v) + sum_by f m
  unfolding insert
  sum_by-insert_new f k v [] h = refl
  sum_by-insert_new f k v ((j, w) ∷ m) h = ground (arith, sum_by-insert_new f k v m h.1)

  pub length-remove :
      (k : ℕ) (v : V) (m : Map V) → lookup k m ≡ some v → length m ≡ suc (length (remove k m))
  unfolding lookup remove
  length-remove k v [] h = cc
  length-remove k v ((j, w) ∷ m) h = ground (arith, length-remove k v m)

  pub length-insert_new :
      (k : ℕ) (v : V) (m : Map V) → lookup k m ≡ none → length (insert k v m) ≡ suc (length m)
  unfolding lookup insert
  length-insert_new k v [] h = refl
  length-insert_new k v ((j, w) ∷ m) h = ground (arith, length-insert_new k v m)

  pub length-insert_old :
      (k : ℕ) (v w : V) (m : Map V) → lookup k m ≡ some w → length (insert k v m) ≡ length m
  unfolding lookup insert
  length-insert_old k v w [] h = cc
  length-insert_old k v w ((j, u) ∷ m) h = ground (arith, length-insert_old k v w m)
