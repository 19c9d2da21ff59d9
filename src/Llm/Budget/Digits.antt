-- ===== src/Llm/Budget/Digits.antt =====
-- Decimal digits, as llm/budget.rs reads them: what number a text of digits stands for.
use native.Mathlib.Nat.{pow-suc}
use kokoro_koe.Prelude.{
  ℕ, zero, suc, ◌+◌, ◌-◌, ◌*◌, ◌^◌, ◌≤◌, ◌<◌, ◌≡◌, sym, ap, ap₂, ◌∙◌, false, [], ◌∷◌, ◌++◌, arith,
  length, length-append,
}
use kokoro_koe.Llm.Budget.Money.{Text}
use kokoro_koe.Llm.Budget.Parse.{value_from, value, not_digits}

regroup : (a d p v : ℕ) → (a * 10 + d) * p + v ≡ a * (p * 10) + ((0 + d) * p + v)
regroup a d p v = grind arith

pub pow_suc : (n : ℕ) → 10 ^ n * 10 ≡ 10 ^ suc n
pow_suc n = grind (arith, pow-suc 10 n)

pub value_from-eq : (acc : ℕ) (s : Text) → value_from acc s ≡ acc * 10 ^ length s + value s
unfolding value_from
value_from-eq acc [] = grind arith
value_from-eq acc (c ∷ s) =
    value_from-eq (acc * 10 + (c - 48)) s
    ∙ regroup acc (c - 48) (10 ^ length s) (value s)
    ∙ ap₂ ◌+◌ (ap (λ p. acc * p) (pow_suc (length s))) (sym (value_from-eq (0 + (c - 48)) s))

pub value-cons : (c : ℕ) (s : Text) → value (c ∷ s) ≡ (c - 48) * 10 ^ length s + value s
unfolding value_from
value-cons c s = value_from-eq (0 + (c - 48)) s ∙ grind arith

pub pow_add : (m n : ℕ) → 10 ^ (m + n) ≡ 10 ^ m * 10 ^ n
pow_add m zero = grind arith
pow_add m (suc n) =
    ap (λ k. 10 ^ k) (shift m n)
    ∙ sym (pow_suc (m + n))
    ∙ ap (λ p. p * 10) (pow_add m n)
    ∙ tail (10 ^ m) (10 ^ n)
    ∙ ap (λ p. 10 ^ m * p) (pow_suc n)
  where
    shift : (a b : ℕ) → a + suc b ≡ suc (a + b)
    shift a b = omega arith

    tail : (a b : ℕ) → (a * b) * 10 ≡ a * (b * 10)
    tail a b = grind arith

spread : (d p q v w : ℕ) → d * (p * q) + (v * q + w) ≡ (d * p + v) * q + w
spread d p q v w = grind arith

pub value-append : (s t : Text) → value (s ++ t) ≡ value s * 10 ^ length t + value t
unfolding value_from
value-append [] t = grind arith
value-append (c ∷ s) t =
    value-cons c (s ++ t)
    ∙ ap₂ (λ p v. (c - 48) * p + v)
        (ap (λ n. 10 ^ n) (length-append s t) ∙ pow_add (length s) (length t)) (value-append s t)
    ∙ spread (c - 48) (10 ^ length s) (10 ^ length t) (value s) (value t)
    ∙ ap (λ v. v * 10 ^ length t + value t) (sym (value-cons c s))

digit_bound : (d p v : ℕ) → d ≤ 9 → v < p → d * p + v < p * 10
digit_bound d p v h k = grind arith

pub value-lt : (s : Text) → not_digits s ≡ false → value s < 10 ^ length s
unfolding value_from
value-lt [] h = grind arith
value-lt (c ∷ s) h =
    rw (value-cons c s, sym (pow_suc (length s)))
      (digit_bound (c - 48) (10 ^ length s) (value s) (ground arith) (value-lt s (ground arith)))
