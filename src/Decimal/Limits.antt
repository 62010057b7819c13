-- ===== src/Decimal/Limits.antt =====
-- decimal.go `FitsNumeric`: what its two tests say of the digits and the exponent that its loop
-- leaves, where nothing leaves the range of an int32.
use payment_processing.Prelude.{
  ℕ, suc, ◌+◌, ◌^◌, ◌≤◌, ◌<◌, ◌≡◌, refl, sym, ap, ◌∙◌, Bool, true, length, arith, if◌then◌else◌,
  Bytes, ◌&&◌,
}
use payment_processing.Prelude.Int.{
  ℤ, pos, negsuc, pos_part, neg_part, ◌+ℤ◌, ◌-ℤ◌, leb_ℤ, ltb_ℤ, wrap32, +ℤ_parts, -ℤ_parts,
}
use payment_processing.Decimal.{Decimal, get_value, digits, strip_zeros, sign, fits_numeric}
use payment_processing.Decimal.Stripping.{wrap32-same}

-- A difference of two numbers below 2^31 is an int32.
pub wrap32-difference :
    (z : ℤ) (u v : ℕ) → pos_part z + v ≡ neg_part z + u → u < 2 ^ 31 → v ≤ 2 ^ 31 → wrap32 z ≡ z
wrap32-difference (pos n) u v h up down = wrap32-same (pos n) (omega arith) (omega arith)
wrap32-difference (negsuc n) u v h up down = wrap32-same (negsuc n) (omega arith) (omega arith)

-- The two tests of `FitsNumeric`, on the exponent, its opposite, and its sum with the digits.
abbrev pub limit_tests : ℤ → ℤ → ℤ → ℤ → Bool
limit_tests e opposite all places =
    leb_ℤ (if ltb_ℤ e (pos 0) then opposite else pos 0) (pos 18)
    && leb_ℤ (if ltb_ℤ all (pos 0) then pos 0 else all) places

pub fits_numeric-limits :
    (d : Decimal) (a : ℕ) (ds : Bytes) (e : ℤ)
    → get_value d ≡ pos (suc a)
    → strip_zeros (length (digits (suc a))) (digits (suc a)) d.exp ≡ (ds, e)
    → fits_numeric d (pos 36) (pos 18)
      ≡ limit_tests e
          (wrap32 (pos 0 -ℤ e))
          (wrap32 (wrap32 (pos (length ds)) +ℤ e))
          (wrap32 (pos 36 -ℤ pos 18))
unfolding fits_numeric sign
fits_numeric-limits d a ds e value stripped = rw (value, stripped) refl

places_fit : wrap32 (pos 36 -ℤ pos 18) ≡ pos 18
unfolding ◌-ℤ◌
places_fit = refl

exact_limits :
    (total : ℕ) (e opposite all : ℤ)
    → pos_part opposite + pos_part e ≡ neg_part opposite + neg_part e
    → pos_part all + neg_part e ≡ neg_part all + (total + pos_part e)
    → limit_tests e opposite all (pos 18) ≡ true
    → (neg_part e ≤ 18) × (total + pos_part e ≤ 18 + neg_part e)
exact_limits total (pos n) opposite all o a h = ground arith
exact_limits total (negsuc n) opposite all o a h = ground arith

pub limits :
    (total : ℕ) (e : ℤ)
    → total ≤ 2 ^ 30
    → pos_part e ≤ 1000
    → neg_part e ≤ 1000
    → limit_tests e
        (wrap32 (pos 0 -ℤ e))
        (wrap32 (wrap32 (pos total) +ℤ e))
        (wrap32 (pos 36 -ℤ pos 18))
      ≡ true
    → (neg_part e ≤ 18) × (total + pos_part e ≤ 18 + neg_part e)
limits total e few up down fits =
    let all_parts : pos_part (pos total +ℤ e) + neg_part e
        ≡ neg_part (pos total +ℤ e) + (total + pos_part e) =
      omega (arith, +ℤ_parts (pos total) e) in
    let opposite_parts : pos_part (pos 0 -ℤ e) + pos_part e ≡ neg_part (pos 0 -ℤ e) + neg_part e =
      omega (arith, -ℤ_parts (pos 0) e) in
    let length_fits : wrap32 (pos total) ≡ pos total =
      wrap32-difference (pos total) total 0 (omega arith) (omega arith) (omega arith) in
    let all_fits : wrap32 (wrap32 (pos total) +ℤ e) ≡ pos total +ℤ e =
      ap (λ z. wrap32 (z +ℤ e)) length_fits
      ∙ wrap32-difference _ _ _ all_parts (omega arith) (omega arith) in
    let opposite_fits : wrap32 (pos 0 -ℤ e) ≡ pos 0 -ℤ e =
      wrap32-difference _ (neg_part e) (pos_part e) opposite_parts (omega arith) (omega arith) in
    exact_limits total e (pos 0 -ℤ e) (pos total +ℤ e) opposite_parts all_parts (
      sym (
        ap (λ o. limit_tests e o (wrap32 (wrap32 (pos total) +ℤ e)) (wrap32 (pos 36 -ℤ pos 18)))
          opposite_fits
        ∙ ap (λ a. limit_tests e (pos 0 -ℤ e) a (wrap32 (pos 36 -ℤ pos 18))) all_fits
        ∙ ap (λ p. limit_tests e (pos 0 -ℤ e) (pos total +ℤ e) p) places_fit)
      ∙ fits)
