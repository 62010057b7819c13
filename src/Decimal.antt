-- ===== src/Decimal.antt =====
-- internal/decimal/decimal.go: the number value * 10^exp, its arithmetic, and the NUMERIC test.
-- `*big.Int` is ℤ, with `none` for a nil pointer; an `int32` is a ℤ in its range, and additions on
-- it that may leave the range go through `wrap32`. Text is in the children Text and Parse.
pub mod Digits
pub mod Text
pub mod Parse
pub mod Json
pub mod Stripping
pub mod Limits
pub mod Exponents
mod Tests
use payment_processing.Prelude.{
  ℕ, zero, suc, ◌+◌, ◌-◌, ◌*◌, ◌/◌, ◌%◌, ◌^◌, Bool, true, false, ◌&&◌, ◌||◌, Option, none, some, [],
  ◌∷◌, Bytes, leb, ltb, ◌==◌, if◌then◌else◌, length, take,
}
use payment_processing.Prelude.Int.{
  ℤ, pos, negsuc, pos_part, neg_part, ◌+ℤ◌, ◌-ℤ◌, ltb_ℤ, leb_ℤ, eq_ℤ, neg_ℕ, abs_ℕ, map_abs, wrap32,
}

pub record Decimal : Type 0 where
  pub value : Option ℤ
  pub exp : ℤ

-- A nil pointer counts as zero.
abbrev pub or_zero : Option ℤ → ℤ
or_zero none = pos 0
or_zero (some v) = v

abbrev pub get_value : Decimal → ℤ
get_value d = or_zero d.value

-- big.Int.Sign and big.Int.Cmp.
abbrev pub sign_ℤ : ℤ → ℤ
sign_ℤ (pos zero) = pos 0
sign_ℤ (pos (suc _)) = pos 1
sign_ℤ (negsuc _) = negsuc 0

abbrev pub cmp_ℤ : ℤ → ℤ → ℤ
cmp_ℤ a b = if ltb_ℤ a b then negsuc 0 else if ltb_ℤ b a then pos 1 else pos 0

unfoldable pub sign : Decimal → ℤ
sign d = sign_ℤ (get_value d)

unfoldable pub is_positive : Decimal → Bool
unfolding sign
is_positive d = eq_ℤ (sign d) (pos 1)

abbrev pub zero_decimal : Decimal
zero_decimal = record { value = some (pos 0); exp = pos 0 }

-- `diff` of rescale: float64 holds the difference of two int32 exactly.
abbrev pub exp_diff : ℤ → ℤ → ℕ
exp_diff a b =
    (pos_part a + neg_part b - (pos_part b + neg_part a))
    + (pos_part b + neg_part a - (pos_part a + neg_part b))

unfoldable pub rescale : Decimal → ℤ → Decimal
rescale d exp =
    if eq_ℤ d.exp exp
    then record { value = some (get_value d); exp = d.exp }
    else let scale = 10 ^ exp_diff exp d.exp in
      record {
        value = some (
            if ltb_ℤ d.exp exp
            then map_abs (λ a. a / scale) (get_value d)
            else if ltb_ℤ exp d.exp
            then map_abs (λ a. a * scale) (get_value d)
            else get_value d);
        exp = exp;
      }

unfoldable pub rescale_pair : Decimal → Decimal → Decimal × Decimal
rescale_pair d1 d2 =
    if ltb_ℤ d1.exp d2.exp
    then (d1, rescale d2 d1.exp)
    else if ltb_ℤ d2.exp d1.exp
    then (rescale d1 d2.exp, d2)
    else (d1, d2)

pub add : Decimal → Decimal → Decimal
add d d2 =
    let (rd, rd2) = rescale_pair d d2 in
    record { value = some (get_value rd +ℤ get_value rd2); exp = rd.exp }

pub sub : Decimal → Decimal → Decimal
sub d d2 =
    let (rd, rd2) = rescale_pair d d2 in
    record { value = some (get_value rd -ℤ get_value rd2); exp = rd.exp }

pub cmp : Decimal → Decimal → ℤ
cmp d d2 =
    let (rd, rd2) = rescale_pair d d2 in
    if eq_ℤ d.exp d2.exp
    then cmp_ℤ (get_value d) (get_value d2)
    else cmp_ℤ (get_value rd) (get_value rd2)

pub compare : Decimal → Decimal → ℤ
compare d d2 = cmp d d2

-- The decimal digits of a number, most significant first, in front of `out`: big.Int.String. The
-- number itself is fuel enough, since each round divides it by ten.
pub digits_from : ℕ → ℕ → Bytes → Bytes
digits_from zero n out = out
digits_from (suc fuel) n out =
    let out' = (b'0' + n % 10) ∷ out in
    let rest = digits_from fuel (n / 10) out' in if ltb n 10 then out' else rest

unfoldable pub digits : ℕ → Bytes
unfolding digits_from
digits n = digits_from (suc n) n []

-- digits[len(digits)-1]; the loop reads it of a string of more than one byte.
abbrev pub last_byte : Bytes → ℕ
last_byte [] = 0
last_byte (c ∷ []) = c
last_byte (c ∷ d ∷ s) = last_byte (d ∷ s)

-- The loop of FitsNumeric over (digits, exp); each round drops a byte, so the length is fuel.
pub strip_zeros : ℕ → Bytes → ℤ → Bytes × ℤ
strip_zeros zero ds exp = (ds, exp)
strip_zeros (suc fuel) ds exp =
    let rest = strip_zeros fuel (take (length ds - 1) ds) (wrap32 (exp +ℤ pos 1)) in
    if ltb 1 (length ds) && ltb_ℤ exp (pos 0) && (last_byte ds == b'0') then rest else (ds, exp)

unfoldable pub fits_numeric : Decimal → ℤ → ℤ → Bool
unfolding sign digits strip_zeros
fits_numeric d precision scale =
    if leb_ℤ precision (pos 0) || ltb_ℤ scale (pos 0) || ltb_ℤ precision scale
    then false
    else if eq_ℤ (sign d) (pos 0)
    then true
    else let ds0 = digits (abs_ℕ (get_value d)) in
      let (ds, exp) = strip_zeros (length ds0) ds0 d.exp in
      let fractional_digits = if ltb_ℤ exp (pos 0) then wrap32 (pos 0 -ℤ exp) else pos 0 in
      let total = wrap32 (wrap32 (pos (length ds)) +ℤ exp) in
      let integer_digits = if ltb_ℤ total (pos 0) then pos 0 else total in
      leb_ℤ fractional_digits scale && leb_ℤ integer_digits (wrap32 (precision -ℤ scale))
