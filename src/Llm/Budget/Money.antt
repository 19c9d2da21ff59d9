-- ===== src/Llm/Budget/Money.antt =====
-- llm/budget.rs: amounts of money, the error codes of the ledger, and the texts of amounts.
use kokoro_koe.Prelude.{
  ℕ, zero, suc, ◌+◌, ◌-◌, ◌*◌, ◌/◌, ◌%◌, ◌≡◌, refl, ◌⊎◌, inl, inr, Bool, true, false, ◌&&◌, List,
  [], ◌∷◌, ◌++◌, Option, none, some, ltb, leb, ◌==◌, if◌then◌else◌,
}

-- The codes of `UsageBudgetError`, by name.
pub data BudgetError : Type 0 where
  usage_cost_overflow usage_ledger_invalid usage_request_duplicate : BudgetError
  usage_reservation_capacity_reached usage_session_snapshot_changed : BudgetError
  usage_session_capacity_reached usage_session_limit_exceeded : BudgetError
  usage_reservation_not_found usage_reservation_scope_invalid : BudgetError
  usage_final_tokens_exceed_reservation usage_final_cost_exceeds_reservation : BudgetError
  usage_session_invalid usage_model_record_invalid usage_model_mismatch : BudgetError
  usage_prompt_envelope_invalid usage_model_context_too_small : BudgetError
  usage_session_amount_invalid usage_model_price_invalid : BudgetError

-- `Result<T, UsageBudgetError>`
pub data Result {ℓ} (A : Type ℓ) : Type ℓ where
  ok : A → Result A
  err : BudgetError → Result A

-- `?`: an error leaves the function.
infixl 5 ◌>>=◌
abbrev pub ◌>>=◌ {κ ℓ} : {T : Type κ} {U : Type ℓ} → Result T → (T → Result U) → Result U
ok value >>= next = next value
err failure >>= next = err failure

infixl 5 ◌>>◌
abbrev pub ◌>>◌ {ℓ} : {U : Type ℓ} → Result (Unit {0}) → Result U → Result U
test >> rest = test >>= (λ passed. rest)

-- `if c { return Err(e) }`
abbrev pub refuse_if : Bool → BudgetError → Result (Unit {0})
refuse_if true e = err e
refuse_if false e = ok tt

abbrev pub ok_or {ℓ} : {A : Type ℓ} → Option A → BudgetError → Result A
ok_or none e = err e
ok_or (some a) e = ok a

pub Result-cases {ℓ} :
    {A : Type ℓ} (m : Result A) → ((a : A) × (m ≡ ok a)) ⊎ ((e : BudgetError) × (m ≡ err e))
Result-cases (ok a) = inl (a, refl)
Result-cases (err e) = inr (e, refl)

-- `u128::MAX`
abbrev pub u128_max : ℕ
u128_max = 340282366920938463463374607431768211455

abbrev pub fit_u128 : ℕ → Option ℕ
fit_u128 n = if leb n u128_max then some n else none

-- The checked operations of `ScaledUsd`.
unfoldable pub checked_add : ℕ → ℕ → Result ℕ
checked_add a b = ok_or (fit_u128 (a + b)) usage_cost_overflow

unfoldable pub checked_sub : ℕ → ℕ → Result ℕ
checked_sub a b = if leb b a then ok (a - b) else err usage_ledger_invalid

unfoldable pub checked_mul_tokens : ℕ → ℕ → Result ℕ
checked_mul_tokens a tokens = ok_or (fit_u128 (a * tokens)) usage_cost_overflow

-- `saturating_sub`
abbrev pub available_budget : ℕ → ℕ → ℕ
available_budget limit committed = limit - committed

-- A text is its bytes.
abbrev pub Text : Type 0
Text = List ℕ

unfoldable pub text_eq : Text → Text → Bool
text_eq [] [] = true
text_eq (a ∷ s) (b ∷ t) = a == b && text_eq s t
text_eq _ _ = false

abbrev pub usd_scale : ℕ
usd_scale = 1000000000000

-- The `n` lowest decimal digits of a number, most significant first.
unfoldable pub low_digits : ℕ → ℕ → Text
low_digits zero n = []
low_digits (suc k) n = low_digits k (n / 10) ++ ((48 + n % 10) ∷ [])

-- `{n}`: no leading zero, and at least one digit. Forty digits hold every `u128`.
unfoldable pub print : ℕ → ℕ → Text
print zero n = []
print (suc k) n =
    let rest = print k (n / 10) in if ltb n 10 then (48 + n) ∷ [] else rest ++ ((48 + n % 10) ∷ [])

-- `ScaledUsd::canonical`
unfoldable pub canonical : ℕ → Text
unfolding print low_digits
canonical n = print 40 (n / usd_scale) ++ (b'.' ∷ low_digits 12 (n % usd_scale))

canonical_runs : canonical 1500000000000 ≡ 49 ∷ 46 ∷ 53 ∷ low_digits 11 0
unfolding canonical
canonical_runs = refl
