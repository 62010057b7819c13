-- ===== src/Storage/Units/Exact.antt =====
-- What a column NUMERIC(36,18) holds of a decimal of which the digits and the exponent are known.
use payment_processing.Prelude.{
  ℕ, zero, suc, ◌+◌, ◌-◌, ◌*◌, ◌/◌, ◌^◌, ◌≤◌, ◌<◌, ◌≡◌, refl, sym, ap, ◌∙◌, true, false, inl, inr,
  Bool-cases, arith,
}
use payment_processing.Prelude.Int.{pos, pos_part, neg_part, leb_ℤ, neg_ℕ, abs_ℕ}
use payment_processing.Decimal.{Decimal, get_value, exp_diff}
use payment_processing.Decimal.Stripping.{pow-add}
use payment_processing.Storage.Tables.{units, unit_exp}
use native.Mathlib.Nat.{
  one-le-pow, mul_assoc, mul-le-mul, mul-add-div_right, div-eq_of_lt, pow-le-pow_right,
  mul-le-mul_right,
}
use payment_processing.Storage.Units.{StoredExactly}

power-positive : (n : ℕ) → 1 ≤ 10 ^ n
power-positive n = one-le-pow n 10 (omega arith)

scaled-twice : (x a b : ℕ) → x * 10 ^ a * 10 ^ b ≡ x * 10 ^ (a + b)
scaled-twice x a b = mul_assoc x (10 ^ a) (10 ^ b) ∙ ap (λ n. x * n) (sym (pow-add 10 a b))

rounding-exact : (q s : ℕ) → 1 ≤ s → (q * s + s / 2) / s ≡ q
rounding-exact q s h =
    let rest : s / 2 / s ≡ 0 = div-eq_of_lt (omega arith) in
    mul-add-div_right h q (s / 2) ∙ omega (arith, rest)

pub scaled-positive : (x s : ℕ) → 1 ≤ x → 1 ≤ x * 10 ^ s
scaled-positive x s h = mul-le-mul h (power-positive s)

pub scaled-bound : (x n s bound : ℕ) → x < 10 ^ n → n + s ≤ bound → x * 10 ^ s < 10 ^ bound
scaled-bound x n s bound h k =
    let scaled : (x + 1) * 10 ^ s ≤ 10 ^ n * 10 ^ s = mul-le-mul_right (10 ^ s) (omega arith) in
    let whole : 10 ^ (n + s) ≡ 10 ^ n * 10 ^ s = pow-add 10 n s in
    let within : 10 ^ (n + s) ≤ 10 ^ bound = pow-le-pow_right (omega arith) k in
    let one : 1 ≤ 10 ^ s = power-positive s in
    let next : (x + 1) * 10 ^ s ≡ x * 10 ^ s + 10 ^ s = omega arith in omega arith

pub units-fine :
    (d : Decimal) (a s : ℕ)
    → get_value d ≡ pos a
    → exp_diff d.exp unit_exp ≡ s
    → leb_ℤ unit_exp d.exp ≡ true
    → units d ≡ pos (a * 10 ^ s)
unfolding units
units-fine d a s value scale fine = rw (value, scale, fine) refl

units-coarse :
    (d : Decimal) (a s : ℕ)
    → get_value d ≡ pos a
    → exp_diff d.exp unit_exp ≡ s
    → leb_ℤ unit_exp d.exp ≡ false
    → units d ≡ pos ((a + 10 ^ s / 2) / 10 ^ s)
unfolding units
units-coarse d a s value scale coarse = rw (value, scale, coarse) refl

pub neg_ℕ_parts : (k : ℕ) → (pos_part (neg_ℕ k) ≡ 0) × (neg_part (neg_ℕ k) ≡ k)
neg_ℕ_parts zero = (refl, refl)
neg_ℕ_parts (suc k) = (refl, refl)

factor-positive : (a m s : ℕ) → suc a ≡ m * s → 1 ≤ m
factor-positive a zero s h = absurd (omega (arith, h))
factor-positive a (suc m) s h = omega arith

pub exact-kept :
    (d : Decimal) (a k m p z : ℕ)
    → get_value d ≡ pos (suc a)
    → d.exp ≡ neg_ℕ k
    → suc a ≡ m * 10 ^ z
    → k ≡ p + z
    → p ≤ 18
    → m < 10 ^ (18 + p)
    → StoredExactly d
exact-kept d a k m p z value exp digits_kept places few bound =
    let up : pos_part d.exp ≡ 0 = ap pos_part exp ∙ (neg_ℕ_parts k).0 in
    let down : neg_part d.exp ≡ k = ap neg_part exp ∙ (neg_ℕ_parts k).1 in
    record {
      amount = m * 10 ^ (18 - p);
      stored = elim (Bool-cases (leb_ℤ unit_exp d.exp)) [
        | inl fine ↦
            let enough : k ≤ 18 = ground arith in
            let sum : z + (18 - k) ≡ 18 - p = omega arith in
            units-fine d (suc a) (18 - k) value (omega arith) fine
            ∙ ap (λ n. pos (n * 10 ^ (18 - k))) digits_kept
            ∙ ap pos (scaled-twice m z (18 - k))
            ∙ ap (λ n. pos (m * 10 ^ n)) sum
        | inr coarse ↦
            let more : 18 ≤ k = ground arith in
            let sum : 18 - p + (k - 18) ≡ z = omega arith in
            let whole : suc a ≡ m * 10 ^ (18 - p) * 10 ^ (k - 18) =
              digits_kept
              ∙ ap (λ n. m * 10 ^ n) (sym sum)
              ∙ sym (scaled-twice m (18 - p) (k - 18)) in
            units-coarse d (suc a) (k - 18) value (omega arith) coarse
            ∙ ap (λ n. pos ((n + 10 ^ (k - 18) / 2) / 10 ^ (k - 18))) whole
            ∙ ap pos (rounding-exact (m * 10 ^ (18 - p)) (10 ^ (k - 18)) (power-positive (k - 18)))
      ];
      positive = scaled-positive m (18 - p) (factor-positive a m (10 ^ z) digits_kept);
      in_bounds = scaled-bound m (18 + p) (18 - p) 36 bound (omega arith);
      same_value =
          let sum : 18 - p + neg_part d.exp ≡ z + (pos_part d.exp + 18) = omega arith in
          scaled-twice m (18 - p) (neg_part d.exp)
          ∙ ap (λ n. m * 10 ^ n) sum
          ∙ sym (scaled-twice m z (pos_part d.exp + 18))
          ∙ ap (λ n. n * 10 ^ (pos_part d.exp + 18)) (sym digits_kept ∙ sym (ap abs_ℕ value));
    }
