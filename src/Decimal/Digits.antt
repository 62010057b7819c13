-- ===== src/Decimal/Digits.antt =====
-- decimal.go, the digits of a number: `digits` and its fuel.
use payment_processing.Prelude.{
  ℕ, zero, suc, ◌+◌, ◌-◌, ◌*◌, ◌/◌, ◌%◌, ◌<◌, ◌≡◌, ◌∙◌, ap, [], ◌∷◌, Bytes, ltb, Bool-cases, inl,
  inr, arith, All, ◌≤◌,
}
use payment_processing.Decimal.{digits, digits_from}

-- The number that digits after `n` stand for.
abbrev pub value_after : ℕ → Bytes → ℕ
value_after n [] = n
value_after n (c ∷ s) = value_after (n * 10 + (c - b'0')) s

digit-back : (n : ℕ) → (n / 10) * 10 + (b'0' + n % 10 - b'0') ≡ n
digit-back n = omega arith

small-back : (n : ℕ) → n < 10 → 0 * 10 + (b'0' + n % 10 - b'0') ≡ n
small-back n h = omega arith

value-digits_from :
    (fuel n : ℕ) (out : Bytes)
    → n < fuel
    → value_after 0 (digits_from fuel n out) ≡ value_after n out
unfolding digits_from
value-digits_from zero n out h = absurd (omega arith)
value-digits_from (suc fuel) n out h = elim (Bool-cases (ltb n 10)) [
  | inl last ↦
      let small : n < 10 = ground arith in
      rw last (ap (λ k. value_after k out) (small-back n small))
  | inr more ↦
      let large : 10 < suc n = ground arith in
      let below : n / 10 < fuel = omega arith in
      rw more (
        value-digits_from fuel (n / 10) ((b'0' + n % 10) ∷ out) below
        ∙ ap (λ k. value_after k out) (digit-back n))
]

-- Reading the digits of a number gives the number.
pub value-digits : (n : ℕ) → value_after 0 (digits n) ≡ n
unfolding digits
value-digits n = value-digits_from (suc n) n [] (omega arith)

abbrev pub IsDigits : Bytes → Type 0
IsDigits s = All (λ c. (48 ≤ c) × (c ≤ 57)) s

digits_from-IsDigits : (fuel n : ℕ) (out : Bytes) → IsDigits out → IsDigits (digits_from fuel n out)
unfolding digits_from
digits_from-IsDigits zero n out h = h
digits_from-IsDigits (suc fuel) n out h = elim (Bool-cases (ltb n 10)) [
  | inl last ↦ rw last ((omega arith, omega arith), h)
  | inr more ↦ rw more (digits_from-IsDigits fuel (n / 10) _ ((omega arith, omega arith), h))
]

pub digits-IsDigits : (n : ℕ) → IsDigits (digits n)
unfolding digits
digits-IsDigits n = digits_from-IsDigits (suc n) n [] tt
