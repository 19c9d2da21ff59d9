-- ===== src/Llm/Budget/Prices.antt =====
-- llm/budget.rs: which amount the price of a token is read as.
use kokoro_koe.Prelude.{
  ℕ, zero, suc, ◌+◌, ◌-◌, ◌*◌, ◌^◌, ◌≤◌, ◌<◌, ◌≡◌, ◌⊎◌, refl, sym, ap, ◌∙◌, true, false, not, ◌&&◌,
  ◌||◌, [], ◌∷◌, ◌++◌, arith, ltb, leb, leb→le, is_empty, ◌==◌, if◌then◌else◌, length, any, take,
  drop, length-drop, take-append-drop, any-drop, any-append, inl, inr, Bool-cases,
}
use kokoro_koe.Llm.Budget.Money.{
  usage_cost_overflow, u128_max, Text, Result, ok, ok_or, fit_u128, Result-cases,
}
use kokoro_koe.Llm.Budget.Parse.{
  Exponent, strip_plus, starts_with_one, ends_with_one, is_space, split_exponent, split_point,
  parse_provider_price, value_from, value, parse_u128, not_digits, is_digit, times_ten, cut_digits,
  scale_digits, trim_zeros,
}
use kokoro_koe.Llm.Budget.Digits.{pow_add, pow_suc, value-cons, value-append, value-lt}

pow_pos : (n : ℕ) → 0 < 10 ^ n
pow_pos zero = omega arith
pow_pos (suc n) = rw (sym (pow_suc n)) (omega (arith, pow_pos n))

pow_mono : (n m : ℕ) → n ≤ m → 10 ^ n ≤ 10 ^ m
pow_mono n m h =
    rw (split (omega (arith, h)) ∙ pow_add n (m - n))
      (grows (10 ^ n) (10 ^ (m - n)) (pow_pos (m - n)))
  where
    split : m ≡ n + (m - n) → 10 ^ m ≡ 10 ^ (n + (m - n))
    split e = ap (λ k. 10 ^ k) e

    grows : (a b : ℕ) → 0 < b → a ≤ a * b
    grows a b k = grind arith

no_digit : (d p v : ℕ) → d ≡ 0 → v ≡ 0 → d * p + v ≡ 0
no_digit d p v h k = grind arith

some_digit : (d p v : ℕ) → 0 < p → (0 < d) ⊎ (0 < v) → 0 < d * p + v
some_digit d p v h (inl k) = grind arith
some_digit d p v h (inr k) = omega (arith, k)

-- A text of digits stands for 0 just if all its digits are 0.
zeros_value : (s : Text) → any (λ c. not (c == b'0')) s ≡ false → value s ≡ 0
unfolding value_from
zeros_value [] h = refl
zeros_value (c ∷ s) h =
    value-cons c s
    ∙ no_digit (c - 48) (10 ^ length s) (value s) (ground arith) (zeros_value s (ground arith))

nonzero_value :
    (s : Text) → not_digits s ≡ false → any (λ c. not (c == b'0')) s ≡ true → 0 < value s
unfolding value_from
nonzero_value [] d h = absurd (ground arith)
nonzero_value (c ∷ s) d h = rw (value-cons c s) (
    some_digit (c - 48) (10 ^ length s) (value s) (pow_pos (length s))
      (elim (Bool-cases (c == b'0')) [
        | inl e ↦ inr (nonzero_value s (ground arith) (ground arith))
        | inr e ↦ inl (ground arith)
      ]))

pub times_ten_lem : (k n m : ℕ) → times_ten k n ≡ ok m → m ≡ n * 10 ^ k
unfolding times_ten
times_ten_lem zero n m h = grind arith
times_ten_lem (suc k) n m h = elim (Bool-cases (leb (n * 10) u128_max)) [
  | inl e ↦
      times_ten_lem k (n * 10) m (rw (e, times_ten) at h)
      ∙ regroup n (10 ^ k)
      ∙ ap (λ p. n * p) (pow_suc k)
  | inr e ↦ absurd (ground arith)
]
  where
    regroup : (a b : ℕ) → a * 10 * b ≡ a * (b * 10)
    regroup a b = grind arith

parsed : (s : Text) (n : ℕ) → ok_or (parse_u128 s) usage_cost_overflow ≡ ok n → n ≡ value s
unfolding parse_u128
parsed s n h = ground arith

-- Rounded up: the least multiple that is not below.
rounds_up :
    (q r p v m : ℕ)
    → v ≡ q * p + r
    → r < p
    → (r ≡ 0) × (m ≡ q) ⊎ (0 < r) × (m ≡ q + 1)
    → (v ≤ m * p) × (m * p < v + p)
rounds_up q r p v m e h (inl k) = grind arith
rounds_up q r p v m e h (inr k) =
    let up = ap (λ n. n * p) k.1 ∙ next q p in (omega (arith, up, e, h), omega (arith, up, e, k.0))
  where
    next : (a b : ℕ) → (a + 1) * b ≡ a * b + b
    next a b = grind arith

module _ (d : ℕ) (s : Text) (c : not_digits s ≡ false) where
  kept : ℕ
  kept = length s - d

  cut_value : d ≤ length s → value s ≡ value (take kept s) * 10 ^ d + value (drop kept s)
  unfolding kept
  cut_value h =
      ap value (sym (take-append-drop kept s))
      ∙ value-append (take kept s) (drop kept s)
      ∙ ap (λ n. value (take kept s) * 10 ^ n + value (drop kept s)) (size h)
    where
      size : d ≤ length s → length (drop kept s) ≡ d
      size h = omega (arith, h, length-drop kept s)

  rest_below : d ≤ length s → value (drop kept s) < 10 ^ d
  unfolding kept
  rest_below h =
      omega (arith, value-lt (drop kept s) (any-drop _ kept s c), ap (λ n. 10 ^ n) (size h))
    where
      size : d ≤ length s → d ≡ length (drop kept s)
      size h = omega (arith, h, length-drop kept s)

  cut_result :
      (m : ℕ)
      → leb (length s) d ≡ false
      → cut_digits d s ≡ ok m
      → ((value (drop kept s) ≡ 0) × (m ≡ value (take kept s)))
        ⊎ ((0 < value (drop kept s)) × (m ≡ value (take kept s) + 1))
  unfolding cut_digits kept
  cut_result m k h = elim (Result-cases (ok_or (parse_u128 (take kept s)) usage_cost_overflow)) [
    | inr (x, e) ↦ absurd (ground (arith, (rw (k, e, cut_digits) at h)))
    | inl (n, e) ↦
        let q = parsed (take kept s) n e in
        elim (Bool-cases (any (λ x. not (x == b'0')) (drop kept s))) [
          | inl z ↦ inr (
            nonzero_value (drop kept s) (any-drop _ kept s c) z,
            up n q (rw (k, e, z, cut_digits) at h),
          )
          | inr z ↦ inl (zeros_value (drop kept s) z, same n q (rw (k, e, z, cut_digits) at h))
        ]
  ]
    where
      up :
          (n : ℕ)
          → n ≡ value (take kept s)
          → ok_or (fit_u128 (n + 1)) usage_cost_overflow ≡ ok m
          → m ≡ value (take kept s) + 1
      up n q g = ground (arith, q, g)

      same : (n : ℕ) → n ≡ value (take kept s) → Result.ok n ≡ ok m → m ≡ value (take kept s)
      same n q g = ground (arith, q, g)

  -- Cutting `d` digits off divides by ten to the power `d` and rounds up.
  pub cut_digits-ceil :
      (m : ℕ)
      → 0 < value s
      → cut_digits d s ≡ ok m
      → (value s ≤ m * 10 ^ d) × (m * 10 ^ d < value s + 10 ^ d)
  unfolding cut_digits
  cut_digits-ceil m p h = elim (Bool-cases (leb (length s) d)) [
    | inr k ↦
        rounds_up (value (take kept s)) (value (drop kept s)) (10 ^ d) (value s) m
          (cut_value (ground arith)) (rest_below (ground arith)) (cut_result m k h)
    | inl k ↦
        let one : m ≡ 1 = ground arith in
        let below = value-lt s c in
        let wide = pow_mono (length s) d (leb→le _ _ k) in
        rw one (omega (arith, below, wide), omega (arith, p))
  ]

-- Both bounds, multiplied by a power of ten.
scaled :
    (v m d p : ℕ)
    → 0 < p
    → v ≤ m * d
    → m * d < v + d
    → (v * p ≤ m * (d * p)) × (m * (d * p) < v * p + d * p)
scaled v m d p h lo hi =
    let regroup = assoc m d p in
    let up = mul_le (v) (m * d) p lo in
    let over = mul_le (m * d + 1) (v + d) p (omega (arith, hi)) in
    (omega (arith, up, regroup), omega (arith, over, regroup, spread (m * d) 1 p, spread v d p, h))
  where
    assoc : (a b c : ℕ) → a * (b * c) ≡ a * b * c
    assoc a b c = grind arith

    spread : (a b c : ℕ) → (a + b) * c ≡ a * c + b * c
    spread a b c = grind arith

    mul_le : (a b c : ℕ) → a ≤ b → a * c ≤ b * c
    mul_le a b c h = grind arith

pow_split : (a b : ℕ) → b ≤ a → 10 ^ a ≡ 10 ^ (a - b) * 10 ^ b
pow_split a b h = ap (λ n. 10 ^ n) (parts a b h) ∙ pow_add (a - b) b
  where
    parts : (a b : ℕ) → b ≤ a → a ≡ a - b + b
    parts a b h = omega (arith, h)

-- Scaling digits by ten to the power `plus - minus` rounds up.
pub scale_digits-ceil :
    (s : Text) (plus minus m : ℕ)
    → not_digits s ≡ false
    → 0 < value s
    → scale_digits s plus minus ≡ ok m
    → (value s * 10 ^ plus ≤ m * 10 ^ minus) × (m * 10 ^ minus < value s * 10 ^ plus + 10 ^ minus)
unfolding scale_digits
scale_digits-ceil s plus minus m c p h = elim (Bool-cases (leb minus plus)) [
  | inl k ↦ elim (Result-cases (ok_or (parse_u128 s) usage_cost_overflow)) [
    | inr (x, e) ↦ absurd (ground (arith, (rw (k, e, scale_digits) at h)))
    | inl (n, e) ↦
        let exact = times_ten_lem (plus - minus) n m (rw (k, e, scale_digits) at h) in
        let same : m * 10 ^ minus ≡ value s * 10 ^ plus =
          ap (λ a. a * 10 ^ minus) (exact ∙ ap (λ a. a * 10 ^ (plus - minus)) (parsed s n e))
          ∙ regroup (value s) (10 ^ (plus - minus)) (10 ^ minus)
          ∙ ap (λ a. value s * a) (sym (pow_split plus minus (leb→le _ _ k))) in
        (omega (arith, same), omega (arith, same, pow_pos minus))
  ]
  | inr k ↦
      let cut = cut_digits-ceil (minus - plus) s c m p (rw (k, scale_digits) at h) in
      let wide = scaled (value s) m (10 ^ (minus - plus)) (10 ^ plus) (pow_pos plus) cut.0 cut.1 in
      rw (pow_split minus plus (ground arith)) wide
]
  where
    regroup : (a b c : ℕ) → a * b * c ≡ a * (b * c)
    regroup a b c = grind arith

value-trim_zeros : (s : Text) → value (trim_zeros s) ≡ value s
unfolding trim_zeros value_from
value-trim_zeros [] = refl
value-trim_zeros (c ∷ s) = elim (Bool-cases (c == b'0')) [
  | inr e ↦ rw (e, trim_zeros) refl
  | inl e ↦
      rw (e, trim_zeros)
        (value-trim_zeros s
          ∙ sym (value-cons c s ∙ zero_digit (c - 48) (10 ^ length s) (value s) (ground arith)))
]
  where
    zero_digit : (d p v : ℕ) → d ≡ 0 → d * p + v ≡ v
    zero_digit d p v h = grind arith

trim_zeros_digits : (s : Text) → not_digits s ≡ false → not_digits (trim_zeros s) ≡ false
unfolding trim_zeros
trim_zeros_digits [] h = refl
trim_zeros_digits (c ∷ s) h = ground (arith, trim_zeros_digits s)

trim_zeros_positive :
    (s : Text) → is_empty (trim_zeros s) ≡ false → any (λ c. not (c == b'0')) (trim_zeros s) ≡ true
unfolding trim_zeros
trim_zeros_positive [] h = absurd (ground arith)
trim_zeros_positive (c ∷ s) h = ground (arith, trim_zeros_positive s)

-- How a price was read: its digits, the digits after the point, and its exponent.
pub record Reading (text : Text) (m : ℕ) : Type 0 where
  pub mantissa : Text
  pub exponent : Exponent
  pub split : split_exponent (strip_plus text) ≡ ok (mantissa, exponent)
  pub not_below :
      value ((split_point mantissa).0 ++ (split_point mantissa).1) * 10 ^ (12 + exponent.plus)
      ≤ m * 10 ^ (exponent.minus + length (split_point mantissa).1)
  pub least :
      m * 10 ^ (exponent.minus + length (split_point mantissa).1)
      < value ((split_point mantissa).0 ++ (split_point mantissa).1) * 10 ^ (12 + exponent.plus)
        + 10 ^ (exponent.minus + length (split_point mantissa).1)

digits-append :
    (s t : Text) → not_digits s ≡ false → not_digits t ≡ false → not_digits (s ++ t) ≡ false
digits-append s t h k = rw (any-append (λ c. not (is_digit c)) s t, h, k) refl

-- The last step: zeros in front are dropped, and the rest is scaled.
scaled_bounds :
    (s : Text) (plus minus m : ℕ)
    → not_digits s ≡ false
    → (if is_empty (trim_zeros s) then ok 0 else scale_digits (trim_zeros s) plus minus) ≡ ok m
    → (value s * 10 ^ plus ≤ m * 10 ^ minus) × (m * 10 ^ minus < value s * 10 ^ plus + 10 ^ minus)
unfolding value_from
scaled_bounds s plus minus m c h = elim (Bool-cases (is_empty (trim_zeros s))) [
  | inr e ↦ rw (value-trim_zeros s) at (
      scale_digits-ceil (trim_zeros s) plus minus m (trim_zeros_digits s c)
        (nonzero_value (trim_zeros s) (trim_zeros_digits s c) (trim_zeros_positive s e))
        (rw e at h))
  | inl e ↦
      let none_left : m ≡ 0 = ground (arith, (rw e at h)) in
      let zero_value : value s ≡ 0 = sym (value-trim_zeros s) ∙ empty_value (trim_zeros s) e in
      rw (none_left, zero_value) (omega arith, omega (arith, pow_pos minus))
]
  where
    empty_value : (t : Text) → is_empty t ≡ true → value t ≡ 0
    empty_value [] h = refl
    empty_value (c ∷ t) h = absurd (ground arith)

-- A price that is read is the number of picodollars that its text stands for, rounded up: with the
-- digits before and after the point as one number, it is the least amount that is not below that
-- number scaled by the exponent and by the places after the point.
pub parse_provider_price-Reading :
    (text : Text) (m : ℕ) → parse_provider_price text ≡ ok m → Reading text m
unfolding parse_provider_price
parse_provider_price-Reading text m h =
    elim (Bool-cases (
      is_empty text
      || ltb 64 (length text)
      || starts_with_one is_space text
      || ends_with_one is_space text
      || starts_with_one (λ c. c == b'-') text)) [
        | inl e ↦ absurd (ground (arith, (rw (e, parse_provider_price) at h)))
        | inr e ↦ elim (Result-cases (split_exponent (strip_plus text))) [
          | inr (x, k) ↦ absurd (ground (arith, (rw (e, k, parse_provider_price) at h)))
          | inl ((mantissa, exponent), k) ↦
              let parts = split_point mantissa in
              elim (Bool-cases (
                (is_empty parts.0 && is_empty parts.1)
                || not_digits parts.0
                || not_digits parts.1)) [
                  | inl d ↦ absurd (ground (arith, (rw (e, k, d, parse_provider_price) at h)))
                  | inr d ↦
                      let bounds =
                        scaled_bounds (parts.0 ++ parts.1) (12 + exponent.plus)
                          (exponent.minus + length parts.1) m
                          (digits-append parts.0 parts.1 (ground arith) (ground arith))
                          (rw (e, k, d, parse_provider_price) at h) in
                      record {
                        mantissa = mantissa;
                        exponent = exponent;
                        split = k;
                        not_below = bounds.0;
                        least = bounds.1;
                      }
                ]
        ]
      ]
