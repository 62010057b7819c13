-- ===== src/Decimal/Tests.antt =====
-- Runs of the decimal code at the inputs of decimal_test.go.
use payment_processing.Prelude.{
  ◌≡◌, refl, Bool, true, false, some, Result, ok, err, Bytes, codes, String,
}
use payment_processing.Prelude.Int.{pos, negsuc, ◌+ℤ◌, ◌-ℤ◌}
use payment_processing.Decimal.{Decimal, fits_numeric, add, cmp, rescale_pair}
use payment_processing.Decimal.Text.{to_string}
use payment_processing.Decimal.Parse.{
  ParseError, new_from_string, exponent_exceeds, exponent_not_numeric, not_decimal, too_many_dots,
  multiple_e,
}

abbrev fits : Result ParseError Decimal → Bool
fits (ok d) = fits_numeric d (pos 36) (pos 18)
fits (err e) = false

abbrev fits_text : String → Bool
fits_text s = fits (new_from_string (codes s))

abbrev shown : Result ParseError Decimal → Bytes
shown (ok d) = to_string d
shown (err e) = codes "error"

integer_boundary : fits_text "999999999999999999" ≡ true
unfolding fits_numeric new_from_string ◌+ℤ◌ ◌-ℤ◌
integer_boundary = refl

integer_overflow : fits_text "1000000000000000000" ≡ false
unfolding fits_numeric new_from_string ◌+ℤ◌ ◌-ℤ◌
integer_overflow = refl

scale_boundary : fits_text "0.123456789012345678" ≡ true
unfolding fits_numeric new_from_string ◌+ℤ◌ ◌-ℤ◌
scale_boundary = refl

scale_overflow : fits_text "0.1234567890123456789" ≡ false
unfolding fits_numeric new_from_string ◌+ℤ◌ ◌-ℤ◌
scale_overflow = refl

trailing_zeros : fits_text "1.2300000000000000000" ≡ true
unfolding fits_numeric new_from_string ◌+ℤ◌ ◌-ℤ◌
trailing_zeros = refl

smallest_scale : (fits_text "1e-18" ≡ true) × (fits_text "1e-19" ≡ false) × (fits_text "1e2" ≡ true)
unfolding fits_numeric new_from_string ◌+ℤ◌ ◌-ℤ◌
smallest_scale = (refl, refl, refl)

zero_and_negative : (fits_text "0" ≡ true) × (fits_text "-1.25" ≡ true)
unfolding fits_numeric new_from_string ◌+ℤ◌ ◌-ℤ◌
zero_and_negative = (refl, refl)

excessive_exponent :
    (new_from_string (codes "1e1001") ≡ err exponent_exceeds)
    × (new_from_string (codes "1e-1001") ≡ err exponent_exceeds)
unfolding new_from_string ◌-ℤ◌
excessive_exponent = (refl, refl)

invalid_inputs :
    (new_from_string (codes "") ≡ err not_decimal)
    × (new_from_string (codes ".") ≡ err not_decimal)
    × (new_from_string (codes "1.2.3") ≡ err too_many_dots)
    × (new_from_string (codes "1e2e3") ≡ err multiple_e)
    × (new_from_string (codes "not-a-number") ≡ err exponent_not_numeric)
unfolding new_from_string ◌-ℤ◌
invalid_inputs = (refl, refl, refl, refl, refl)

printed :
    (shown (new_from_string (codes "-0125.5000")) ≡ codes "-125.5")
    × (shown (new_from_string (codes "12e3")) ≡ codes "12000")
    × (shown (new_from_string (codes ".05")) ≡ codes "0.05")
unfolding new_from_string to_string ◌-ℤ◌
printed = (refl, refl, refl)

abbrev half : Decimal
half = record { value = some (pos 50); exp = negsuc 1 }

abbrev thousand : Decimal
thousand = record { value = some (pos 1); exp = pos 3 }

added : (to_string (add half thousand) ≡ codes "1000.5") × (cmp half thousand ≡ negsuc 0)
unfolding add cmp rescale_pair to_string ◌+ℤ◌
added = (refl, refl)
