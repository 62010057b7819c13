-- ===== src/Storage/Units/Tests.antt =====
-- Tests of stored amounts.
use payment_processing.Prelude.{◌^◌, ◌≤◌, ◌≡◌, refl, true, length, arith, some, ◌&&◌, ok, codes}
use payment_processing.Prelude.Int.{pos, negsuc, ◌+ℤ◌, ◌-ℤ◌}
use payment_processing.Decimal.{Decimal, digits, is_positive, fits_numeric}
use payment_processing.Decimal.Parse.{new_from_string}
use payment_processing.Storage.Units.{StoredExactly}
use payment_processing.Storage.Units.Accepted.{amount-StoredExactly}

abbrev twelve_fifty : Decimal
twelve_fifty = record { value = some (pos 1250); exp = negsuc 1 }

read_twelve_fifty : new_from_string (codes "12.50") ≡ ok twelve_fifty
unfolding new_from_string ◌+ℤ◌ ◌-ℤ◌
read_twelve_fifty = refl

twelve_fifty-accepted :
    (is_positive twelve_fifty && fits_numeric twelve_fifty (pos 36) (pos 18)) ≡ true
unfolding is_positive fits_numeric ◌+ℤ◌ ◌-ℤ◌
twelve_fifty-accepted = refl

few_digits : length (digits 1250) ≤ 2 ^ 30
unfolding digits
few_digits = omega arith

amount-StoredExactly_example : StoredExactly twelve_fifty
amount-StoredExactly_example =
    amount-StoredExactly (codes "12.50") twelve_fifty read_twelve_fifty twelve_fifty-accepted
      few_digits
