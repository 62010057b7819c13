-- ===== src/Storage/Units/Accepted.antt =====
-- An amount that Transfer accepts is stored as it is: `FitsNumeric` before, and `units` in the
-- statements.
use payment_processing.Prelude.{
  ℕ, zero, suc, ◌+◌, ◌-◌, ◌*◌, ◌^◌, ◌≤◌, ◌<◌, ◌≡◌, refl, sym, ap, ◌∙◌, true, length, arith, Bytes,
  ◌&&◌, ok, subst,
}
use payment_processing.Prelude.Int.{ℤ, pos, negsuc, pos_part, neg_part, eq_ℤ, neg_ℕ, abs_ℕ}
use payment_processing.Decimal.{
  Decimal, get_value, digits, strip_zeros, is_positive, sign, sign_ℤ, fits_numeric,
}
use payment_processing.Decimal.Digits.{value_after, value-digits, IsDigits, digits-IsDigits}
use payment_processing.Decimal.Stripping.{value-bound, strip_zeros-Stripped, strip_zeros-whole}
use payment_processing.Decimal.Parse.{new_from_string}
use native.Mathlib.Nat.{pow-zero, pow-le-pow_right}
use payment_processing.Storage.Units.{StoredExactly}
use payment_processing.Storage.Units.Exact.{
  scaled-positive, scaled-bound, units-fine, neg_ℕ_parts, exact-kept,
}
use payment_processing.Decimal.Limits.{fits_numeric-limits, limits}
use payment_processing.Decimal.Exponents.{HasSmallExponent, new_from_string-HasSmallExponent}

digits-bound :
    (kept : Bytes) (n : ℕ) → IsDigits kept → length kept ≤ n → value_after 0 kept < 10 ^ n
digits-bound kept n digits_only few =
    let own : value_after 0 kept < (0 + 1) * 10 ^ length kept = value-bound 0 kept digits_only in
    let within : 10 ^ length kept ≤ 10 ^ n = pow-le-pow_right (omega arith) few in omega arith

exact-fraction :
    (d : Decimal) (a k : ℕ)
    → get_value d ≡ pos (suc a)
    → d.exp ≡ neg_ℕ k
    → k ≤ 1000
    → length (digits (suc a)) ≤ 2 ^ 30
    → fits_numeric d (pos 36) (pos 18) ≡ true
    → StoredExactly d
exact-fraction d a k value exp down few fits =
    let written = digits (suc a) in
    let t = strip_zeros-Stripped (length written) k written (omega arith) in
    let stripped : strip_zeros (length written) written d.exp ≡ (t.kept, neg_ℕ t.places) =
      ap (λ e. strip_zeros (length written) written e) exp ∙ t.result in
    let e_parts = neg_ℕ_parts t.places in
    let within =
      limits (length t.kept) (neg_ℕ t.places) (omega (arith, t.fewer)) (omega (arith, e_parts.0))
        (omega (arith, e_parts.1, t.exponent))
        (sym (fits_numeric-limits d a t.kept (neg_ℕ t.places) value stripped) ∙ fits) in
    exact-kept d a k (value_after 0 t.kept) t.places t.zeros value exp
      (sym (value-digits (suc a)) ∙ t.same_value) t.exponent (omega (arith, within.0, e_parts.1))
      (digits-bound t.kept (18 + t.places) (t.still_digits (digits-IsDigits (suc a)))
        (omega (arith, within.1, e_parts)))

exact-whole :
    (d : Decimal) (a n : ℕ)
    → get_value d ≡ pos (suc a)
    → d.exp ≡ pos n
    → n ≤ 1000
    → length (digits (suc a)) ≤ 2 ^ 30
    → fits_numeric d (pos 36) (pos 18) ≡ true
    → StoredExactly d
exact-whole d a n value exp up few fits =
    let written = digits (suc a) in
    let stripped : strip_zeros (length written) written d.exp ≡ (written, pos n) =
      ap (λ e. strip_zeros (length written) written e) exp
      ∙ strip_zeros-whole (length written) written n in
    let within =
      limits (length written) (pos n) few up (omega arith)
        (sym (fits_numeric-limits d a written (pos n) value stripped) ∙ fits) in
    let bound : suc a < 10 ^ (18 - n) =
      rw (sym (value-digits (suc a)))
        (digits-bound written (18 - n) (digits-IsDigits (suc a)) (omega (arith, within.1))) in
    let above : pos_part d.exp ≡ n = ap pos_part exp in
    let below : neg_part d.exp ≡ 0 = ap neg_part exp in
    record {
      amount = suc a * 10 ^ (n + 18);
      stored = units-fine d (suc a) (n + 18) value (omega arith) (ground arith);
      positive = scaled-positive (suc a) (n + 18) (omega arith);
      in_bounds = scaled-bound (suc a) (18 - n) (n + 18) 36 bound (omega arith);
      same_value =
          ap (λ e. suc a * 10 ^ (n + 18) * 10 ^ e) below
          ∙ omega (arith, pow-zero 10)
          ∙ ap (λ e. suc a * 10 ^ (e + 18)) (sym above)
          ∙ ap (λ v. abs_ℕ v * 10 ^ (pos_part d.exp + 18)) (sym value);
    }

exact-value :
    (d : Decimal) (v e : ℤ)
    → get_value d ≡ v
    → d.exp ≡ e
    → eq_ℤ (sign_ℤ v) (pos 1) ≡ true
    → length (digits (abs_ℕ v)) ≤ 2 ^ 30
    → pos_part e ≤ 1000
    → neg_part e ≤ 1000
    → fits_numeric d (pos 36) (pos 18) ≡ true
    → StoredExactly d
exact-value d (pos zero) e value exp positive few up down fits = absurd (ground arith)
exact-value d (negsuc a) e value exp positive few up down fits = absurd (ground arith)
exact-value d (pos (suc a)) (pos n) value exp positive few up down fits =
    exact-whole d a n value exp up few fits
exact-value d (pos (suc a)) (negsuc k) value exp positive few up down fits =
    exact-fraction d a (suc k) value exp down few fits

accepted-StoredExactly :
    (d : Decimal)
    → (is_positive d && fits_numeric d (pos 36) (pos 18)) ≡ true
    → pos_part d.exp ≤ 1000
    → neg_part d.exp ≤ 1000
    → length (digits (abs_ℕ (get_value d))) ≤ 2 ^ 30
    → StoredExactly d
unfolding is_positive sign
accepted-StoredExactly d accepted up down few =
    exact-value d (get_value d) d.exp refl refl (ground (arith, accepted)) few up down
      (ground (arith, accepted))

-- An amount that NewFromString reads, of at most 2^30 digits, and that passes the two checks of
-- Transfer is stored exactly in a NUMERIC(36,18): its units are positive, fewer than 10^36, and
-- of the value that was read, with no rounding.
pub amount-StoredExactly :
    (text : Bytes) (d : Decimal)
    → new_from_string text ≡ ok d
    → (is_positive d && fits_numeric d (pos 36) (pos 18)) ≡ true
    → length (digits (abs_ℕ (get_value d))) ≤ 2 ^ 30
    → StoredExactly d
amount-StoredExactly text d parsed accepted few =
    let small : HasSmallExponent (ok d) =
      subst HasSmallExponent parsed (new_from_string-HasSmallExponent text) in
    accepted-StoredExactly d accepted small.0 small.1 few
