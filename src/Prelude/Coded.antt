-- ===== src/Prelude/Coded.antt =====
-- `Result` with errors that carry a code, and what holds of a result.
use Prim.Native.String.{String}
use mathlib.Core.Path.{◌≡◌, refl, sym, ap, ◌∙◌, subst}
use mathlib.Core.Logic.{◌⊎◌, inl, inr}
use mathlib.Core.Bool.{Bool, true, false}
use mathlib.Core.Option.{Option, none, some}

-- `Result<T, E>` of errors that carry a code
pub data Coded {ℓ} (A : Type ℓ) : Type ℓ where
  ok : A → Coded A
  err : String → Coded A

-- `?`: an error is passed on.
infixl 5 ◌>>=◌
abbrev pub ◌>>=◌ {κ ℓ} : {T : Type κ} {U : Type ℓ} → Coded T → (T → Coded U) → Coded U
err code >>= next = err code
ok t >>= next = next t

infixr 5 ◌>>◌
abbrev pub ◌>>◌ {ℓ} : {U : Type ℓ} → Coded (Unit {0}) → Coded U → Coded U
checked >> rest = checked >>= (λ _. rest)

-- An early return with a code.
abbrev pub fail_if : Bool → String → Coded (Unit {0})
fail_if false code = ok tt
fail_if true code = err code

-- `ok_or`
abbrev pub some_or {ℓ} : {A : Type ℓ} → Option A → String → Coded A
some_or (some a) code = ok a
some_or none code = err code

pub Coded-cases {ℓ} :
    {A : Type ℓ} (r : Coded A) → ((a : A) × (r ≡ ok a)) ⊎ ((e : String) × (r ≡ err e))
Coded-cases (ok a) = inl (a, refl)
Coded-cases (err e) = inr (e, refl)

-- What holds of the value, where there is one.
abbrev pub IfOk {ℓ κ} : {A : Type ℓ} → (A → Type κ) → Coded A → Type κ
IfOk P (ok a) = P a
IfOk P (err e) = Unit

pub IfOk-of {ℓ κ} : {A : Type ℓ} (P : A → Type κ) {r : Coded A} {a : A} → r ≡ ok a → IfOk P r → P a
IfOk-of P e h = subst (IfOk P) e h

-- A property of what `?` goes on with.
pub IfOk-then {κ ℓ μ} :
    {T : Type κ} {U : Type ℓ} (P : U → Type μ) (r : Coded T) (next : T → Coded U)
    → ((t : T) → r ≡ ok t → IfOk P (next t))
    → IfOk P (r >>= next)
IfOk-then P (ok t) next h = h t refl
IfOk-then P (err e) next h = tt

-- The same, past an early return.
pub IfOk-unless {ℓ κ} :
    {U : Type ℓ} (P : U → Type κ) (stop : Bool) (code : String) (rest : Coded U)
    → (stop ≡ false → IfOk P rest)
    → IfOk P (fail_if stop code >> rest)
IfOk-unless P true code rest h = tt
IfOk-unless P false code rest h = h refl

pub IfOk-map {ℓ κ μ} :
    {A : Type ℓ} {P : A → Type κ} {Q : A → Type μ} (r : Coded A)
    → IfOk P r
    → ((a : A) → P a → Q a)
    → IfOk Q r
IfOk-map (ok a) h f = f a h
IfOk-map (err e) h f = tt

abbrev to_option {ℓ} : {A : Type ℓ} → Coded A → Option A
to_option (ok a) = some a
to_option (err e) = none

to_option-some_or {ℓ} : {A : Type ℓ} (o : Option A) (code : String) → to_option (some_or o code) ≡ o
to_option-some_or none code = refl
to_option-some_or (some a) code = refl

pub some_or-ok {ℓ} :
    {A : Type ℓ} (o : Option A) (code : String) (a : A) → some_or o code ≡ ok a → o ≡ some a
some_or-ok o code a e = sym (to_option-some_or o code) ∙ ap to_option e
