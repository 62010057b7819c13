-- ===== src/Decimal/Text.antt =====
-- decimal.go: `String`, `string` and `ScientificNotationString`, and sql.go `Value`.
use payment_processing.Prelude.{
  ℕ, zero, suc, ◌-◌, Bool, true, false, ◌++◌, [], ◌∷◌, Bytes, ltb, ◌==◌, if◌then◌else◌, length,
  take, drop, replicate,
}
use payment_processing.Prelude.Int.{ℤ, pos, negsuc, neg_part, ◌+ℤ◌, ◌-ℤ◌, ltb_ℤ, leb_ℤ, eq_ℤ, abs_ℕ}
use payment_processing.Decimal.{Decimal, get_value, rescale, digits, sign_ℤ}

-- big.Int.String and strconv.Itoa.
unfoldable pub int_string : ℤ → Bytes
unfolding digits
int_string (pos n) = digits n
int_string (negsuc n) = b'-' ∷ digits (suc n)

abbrev byte_at : Bytes → ℕ → ℕ
byte_at [] i = 0
byte_at (c ∷ s) zero = c
byte_at (c ∷ s) (suc i) = byte_at s i

-- The loop over i from len-1 down, on i + 1, and the slice [:i+1] after it.
unfoldable pub trim_from : ℕ → Bytes → Bytes
trim_from zero s = []
trim_from (suc i) s =
    let rest = trim_from i s in if byte_at s i == b'0' then rest else take (suc i) s

abbrev signed : ℤ → Bytes → Bytes
signed v number = if ltb_ℤ (sign_ℤ v) (pos 0) then b'-' ∷ number else number

unfoldable pub scientific_notation_string : Decimal → Bytes
unfolding digits int_string
scientific_notation_string d =
    let int_str = digits (abs_ℕ (get_value d)) in
    let long = ltb 1 (length int_str) in
    let remaining = if long then b'.' ∷ drop 1 int_str else [] in
    let exp = if long then d.exp +ℤ pos (length int_str) -ℤ pos 1 else d.exp in
    if abs_ℕ (get_value d) == 0
    then int_str
    else signed (get_value d) (take 1 int_str ++ (remaining ++ (b'E' ∷ int_string exp)))

-- The two parts of the number, for an exponent -k below zero.
abbrev pub int_part : ℕ → Bytes → Bytes
int_part k str = if ltb k (length str) then take (length str - k) str else b'0' ∷ []

abbrev pub fractional_part : ℕ → Bytes → Bytes
fractional_part k str =
    if ltb k (length str) then drop (length str - k) str else replicate (k - length str) b'0' ++ str

abbrev pub with_fraction : Bytes → Bytes → Bytes
with_fraction int_part [] = int_part
with_fraction int_part (c ∷ s) = int_part ++ (b'.' ∷ c ∷ s)

unfoldable pub string : Decimal → Bool → Bool → Bytes
unfolding rescale int_string digits trim_from
string d trim_trailing_zeros use_scientific_notation =
    let whole = int_string (get_value (rescale d (pos 0))) in
    let str = digits (abs_ℕ (get_value d)) in
    let k = neg_part d.exp in
    let fraction = fractional_part k str in
    let shown = if trim_trailing_zeros then trim_from (length fraction) fraction else fraction in
    if eq_ℤ d.exp (pos 0)
    then whole
    else if leb_ℤ (pos 0) d.exp
    then (if use_scientific_notation then scientific_notation_string d else whole)
    else signed (get_value d) (with_fraction (int_part k str) shown)

unfoldable pub to_string : Decimal → Bytes
unfolding string
to_string d = string d true false

-- sql.go: what a statement is given for an amount.
unfoldable pub sql_value : Decimal → Bytes
unfolding to_string
sql_value d = to_string d
