-- ===== src/Llm/Budget/Parse.antt =====
-- llm/budget.rs: reading the amounts of a session and the prices of a provider.
use mathlib.Core.Option
use kokoro_koe.Prelude.{
  ℕ, zero, suc, ◌+◌, ◌-◌, ◌*◌, Bool, true, false, not, ◌&&◌, ◌||◌, [], ◌∷◌, ◌++◌, Option, none,
  some, ltb, leb, ◌==◌, if◌then◌else◌, length, any, is_empty, take, drop,
}
use kokoro_koe.Llm.Budget.Money.{
  usage_session_amount_invalid, usage_model_price_invalid, usage_cost_overflow, Result, ok, err,
  ◌>>=◌, ◌>>◌, refuse_if, ok_or, fit_u128, Text, usd_scale,
}

-- `u8::is_ascii_digit`
abbrev pub is_digit : ℕ → Bool
is_digit c = leb 48 c && leb c 57

abbrev pub not_digits : Text → Bool
not_digits = any (λ c. not (is_digit c))

unfoldable pub value_from : ℕ → Text → ℕ
value_from acc [] = acc
value_from acc (c ∷ s) = value_from (acc * 10 + (c - 48)) s

-- The number that a text of digits stands for.
abbrev pub value : Text → ℕ
value = value_from 0

-- `parse::<u128>` of a text that holds digits only.
unfoldable pub parse_u128 : Text → Option ℕ
parse_u128 s = if is_empty s then none else fit_u128 (value s)

-- `split_once`, and `find` with `split_at`: the text before and after the first such byte.
unfoldable pub split_at_first : (ℕ → Bool) → Text → Option (Text × Text)
split_at_first p [] = none
split_at_first p (c ∷ s) = elim (p c) [
  | true ↦ some ([], s)
  | false ↦ elim (split_at_first p s) [ none ↦ none | some (a, b) ↦ some (c ∷ a, b) ]
]

unfoldable pub parse_session_amount : Text → Result ℕ
unfolding split_at_first value_from parse_u128
parse_session_amount text = do
  (whole, fraction) ← ok_or (split_at_first (λ c. c == b'.') text) usage_session_amount_invalid
  refuse_if
      (ltb 18 (length text)
        || is_empty whole
        || not_digits whole
        || not (length fraction == 2)
        || not_digits fraction)
      usage_session_amount_invalid
  units ← ok_or (parse_u128 whole) usage_session_amount_invalid
  cents ← ok_or (parse_u128 fraction) usage_session_amount_invalid
  scaled ← ok_or (fit_u128 (units * usd_scale)) usage_cost_overflow
  ok_or (fit_u128 (scaled + cents * 10000000000)) usage_cost_overflow

-- An `i32`, as what it adds and what it takes away.
pub record Exponent : Type 0 where
  pub plus : ℕ
  pub minus : ℕ

-- `parse::<i32>`, after an optional sign.
abbrev pub parse_magnitude : Text → ℕ → Option ℕ
parse_magnitude s limit =
    if is_empty s || not_digits s
    then none
    else if leb (value s) limit
    then some (value s)
    else none

unfoldable pub parse_i32 : Text → Option Exponent
parse_i32 [] = none
parse_i32 (c ∷ s) =
    if c == b'+'
    then Option.map (λ n. record { plus = n; minus = 0 }) (parse_magnitude s 2147483647)
    else if c == b'-'
    then Option.map (λ n. record { plus = 0; minus = n }) (parse_magnitude s 2147483648)
    else Option.map (λ n. record { plus = n; minus = 0 }) (parse_magnitude (c ∷ s) 2147483647)

abbrev pub is_exponent_mark : ℕ → Bool
is_exponent_mark c = c == b'e' || c == b'E'

-- The mantissa of a price, and its exponent.
unfoldable pub split_exponent : Text → Result (Text × Exponent)
unfolding split_at_first parse_i32
split_exponent text = elim (split_at_first is_exponent_mark text) [
  | none ↦ ok (text, record { plus = 0; minus = 0 })
  | some (mantissa, digits) ↦ do
    refuse_if (is_empty digits || any is_exponent_mark digits) usage_model_price_invalid
    exponent ← ok_or (parse_i32 digits) usage_model_price_invalid
    ok (mantissa, exponent)
]

-- The digits before and after the point of a mantissa, which has one point at most.
unfoldable pub split_point : Text → Text × Text
unfolding split_at_first
split_point text = elim (split_at_first (λ c. c == b'.') text) [
  | none ↦ (text, [])
  | some parts ↦ parts
]

-- `trim_start_matches('0')`
unfoldable pub trim_zeros : Text → Text
trim_zeros [] = []
trim_zeros (c ∷ s) = elim (c == b'0') [ true ↦ trim_zeros s | false ↦ c ∷ s ]

-- The loop of `checked_mul(10)`.
unfoldable pub times_ten : ℕ → ℕ → Result ℕ
times_ten zero n = ok n
times_ten (suc k) n = elim (fit_u128 (n * 10)) [
  | none ↦ err usage_cost_overflow
  | some m ↦ times_ten k m
]

-- The branch for digits that are cut off: any that is not 0 rounds up.
unfoldable pub cut_digits : ℕ → Text → Result ℕ
unfolding parse_u128
cut_digits discarded significant = if leb (length significant) discarded then ok 1 else do
  units ← ok_or (parse_u128 (take kept significant)) usage_cost_overflow
  if any (λ c. not (c == b'0')) (drop kept significant)
      then ok_or (fit_u128 (units + 1)) usage_cost_overflow
      else ok units
  where
    kept : ℕ
    kept = length significant - discarded

-- Digits, scaled by ten to the power `plus - minus`.
unfoldable pub scale_digits : Text → ℕ → ℕ → Result ℕ
unfolding times_ten cut_digits parse_u128
scale_digits significant plus minus =
    if leb minus plus
    then (do n ← ok_or (parse_u128 significant) usage_cost_overflow; times_ten (plus - minus) n)
    else cut_digits (minus - plus) significant

-- ASCII white space. Other white space is refused later on, with the same error.
abbrev pub is_space : ℕ → Bool
is_space c = c == 32 || (leb 9 c && leb c 13)

abbrev pub starts_with_one : (ℕ → Bool) → Text → Bool
starts_with_one p [] = false
starts_with_one p (c ∷ s) = p c

abbrev pub ends_with_one : (ℕ → Bool) → Text → Bool
ends_with_one p [] = false
ends_with_one p (c ∷ []) = p c
ends_with_one p (c ∷ d ∷ s) = ends_with_one p (d ∷ s)

-- `strip_prefix('+').unwrap_or`
abbrev pub strip_plus : Text → Text
strip_plus [] = []
strip_plus (c ∷ s) = if c == b'+' then s else c ∷ s

unfoldable pub parse_provider_price : Text → Result ℕ
unfolding split_exponent split_point trim_zeros scale_digits
parse_provider_price text = do
  refuse_if
      (is_empty text
        || ltb 64 (length text)
        || starts_with_one is_space text
        || ends_with_one is_space text
        || starts_with_one (λ c. c == b'-') text)
      usage_model_price_invalid
  (mantissa, exponent) ← split_exponent (strip_plus text)
  let parts = split_point mantissa
  refuse_if ((is_empty parts.0 && is_empty parts.1) || not_digits parts.0 || not_digits parts.1)
      usage_model_price_invalid
  let significant = trim_zeros (parts.0 ++ parts.1)
  if is_empty significant
      then ok 0
      else scale_digits significant (12 + exponent.plus) (exponent.minus + length parts.1)
