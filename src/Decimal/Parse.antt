-- ===== src/Decimal/Parse.antt =====
-- decimal.go: `NewFromString`, and sql.go `Scan`; with what they use of strconv and math/big. The
-- loop over runes is one over bytes: no byte of a longer rune is a dot or an E.
use payment_processing.Prelude.{
  ℕ, suc, ◌+◌, ◌-◌, ◌*◌, ◌^◌, Bool, true, false, ◌&&◌, ◌||◌, Option, none, some, Result, ◌>>=◌, ok,
  err, ◌++◌, [], ◌∷◌, Bytes, ltb, leb, ◌==◌, if◌then◌else◌, length, take, drop,
}
use payment_processing.Prelude.Int.{ℤ, pos, ◌-ℤ◌, ltb_ℤ, neg_ℕ}
use payment_processing.Decimal.{Decimal, last_byte}

pub data NumError : Type 0 where
  syntax range : NumError

pub data ParseError : Type 0 where
  multiple_e too_many_dots fraction_too_long exponent_not_numeric not_decimal : ParseError
  exponent_exceeds not_convertible : ParseError

abbrev pub max_abs_exponent : ℕ
max_abs_exponent = 1000

-- The digits of strconv.ParseUint: it stops at the first byte that is no digit, or that overflows.
unfoldable pub scan_uint : ℕ → ℕ → Bytes → Result NumError ℕ
scan_uint max n [] = ok n
scan_uint max n (c ∷ s) =
    let n' = n * 10 + (c - b'0') in
    let rest = scan_uint max n' s in
    if ltb c b'0' || ltb b'9' c then err syntax else if ltb max n' then err range else rest

abbrev parse_uint : ℕ → Bytes → Result NumError ℕ
parse_uint max [] = err syntax
parse_uint max (c ∷ s) = scan_uint max 0 (c ∷ s)

-- A leading sign: whether the number is negative, and the rest.
abbrev split_sign : Bytes → Bool × Bytes
split_sign [] = (false, [])
split_sign (c ∷ s) =
    if c == b'-' then (true, s) else if c == b'+' then (false, s) else (false, c ∷ s)

-- The tests of ParseInt on the magnitude, where a range error of ParseUint is as good as too much.
abbrev in_int_range : ℕ → Bool → Result NumError ℕ → Result NumError ℤ
in_int_range cutoff negative (err e) = err e
in_int_range cutoff true (ok n) = if ltb cutoff n then err range else ok (neg_ℕ n)
in_int_range cutoff false (ok n) = if leb cutoff n then err range else ok (pos n)

-- strconv.ParseInt(s, 10, bits).
unfoldable pub parse_int : ℕ → Bytes → Result NumError ℤ
unfolding scan_uint
parse_int bits s =
    let (negative, magnitude) = split_sign s in
    in_int_range (2 ^ (bits - 1)) negative (parse_uint (2 ^ bits - 1) magnitude)

scan_big : ℕ → Bytes → Option ℕ
scan_big n [] = some n
scan_big n (c ∷ s) =
    let rest = scan_big (n * 10 + (c - b'0')) s in if ltb c b'0' || ltb b'9' c then none else rest

abbrev to_big : Bool → Option ℕ → Option ℤ
to_big negative none = none
to_big true (some n) = some (neg_ℕ n)
to_big false (some n) = some (pos n)

abbrev scan_some : Bytes → Option ℕ
scan_some [] = none
scan_some (c ∷ s) = scan_big 0 (c ∷ s)

-- big.Int.SetString(s, 10).
unfoldable pub set_string : Bytes → Option ℤ
unfolding scan_big
set_string s = let (negative, magnitude) = split_sign s in to_big negative (scan_some magnitude)

-- The loop that finds the E and the dot, from index `i` on.
unfoldable pub find_marks :
    ℕ → Option ℕ → Option ℕ → Bytes → Result ParseError (Option ℕ × Option ℕ)
find_marks i e p [] = ok (e, p)
find_marks i none none (c ∷ s) =
    let at_e = find_marks (suc i) (some i) none s in
    let at_dot = find_marks (suc i) none (some i) s in
    let on = find_marks (suc i) none none s in
    if (c == b'E') || (c == b'e') then at_e else if c == b'.' then at_dot else on
find_marks i (some e) none (c ∷ s) =
    let at_dot = find_marks (suc i) (some e) (some i) s in
    let on = find_marks (suc i) (some e) none s in
    if (c == b'E') || (c == b'e') then err multiple_e else if c == b'.' then at_dot else on
find_marks i none (some p) (c ∷ s) =
    let at_e = find_marks (suc i) (some i) (some p) s in
    let on = find_marks (suc i) none (some p) s in
    if (c == b'E') || (c == b'e') then at_e else if c == b'.' then err too_many_dots else on
find_marks i (some e) (some p) (c ∷ s) =
    let on = find_marks (suc i) (some e) (some p) s in
    if (c == b'E') || (c == b'e')
    then err multiple_e
    else if c == b'.'
    then err too_many_dots
    else on

abbrev exponent_result : Bytes → Result NumError ℤ → Result ParseError (Bytes × ℤ)
exponent_result mantissa (ok exp) = ok (mantissa, exp)
exponent_result mantissa (err range) = err fraction_too_long
exponent_result mantissa (err syntax) = err exponent_not_numeric

-- The text before the E, and the exponent behind it.
unfoldable pub split_exponent : Bytes → Option ℕ → Result ParseError (Bytes × ℤ)
unfolding parse_int
split_exponent value none = ok (value, pos 0)
split_exponent value (some e) = exponent_result (take e value) (parse_int 32 (drop (suc e) value))

-- The text without its dot, and the exponent less the digits behind it.
abbrev pub split_point : Bytes → ℤ → Option ℕ → Bytes × ℤ
split_point value exp none = (value, exp)
split_point value exp (some p) = (
  if ltb (p + 1) (length value) then take p value ++ drop (p + 1) value else take p value,
  exp -ℤ pos (length (drop (p + 1) value)),
)

abbrev or_not_decimal : Option ℤ → Result ParseError ℤ
or_not_decimal none = err not_decimal
or_not_decimal (some v) = ok v

abbrev short_value : Result NumError ℤ → Result ParseError ℤ
short_value (ok v) = ok v
short_value (err e) = err not_decimal

unfoldable pub parse_digits : Bytes → Result ParseError ℤ
unfolding parse_int set_string
parse_digits s =
    if leb (length s) 18 then short_value (parse_int 64 s) else or_not_decimal (set_string s)

unfoldable pub check_exponent : ℤ → ℤ → Result ParseError Decimal
check_exponent value exp =
    if ltb_ℤ exp (neg_ℕ (2 ^ 31)) || ltb_ℤ (pos (2 ^ 31 - 1)) exp
    then err fraction_too_long
    else if ltb_ℤ exp (neg_ℕ max_abs_exponent) || ltb_ℤ (pos max_abs_exponent) exp
    then err exponent_exceeds
    else ok (record { value = some value; exp = exp })

unfoldable pub new_from_string : Bytes → Result ParseError Decimal
unfolding find_marks split_exponent parse_digits check_exponent
new_from_string value = do
  (e, p) ← find_marks 0 none none value
  (mantissa, exp) ← split_exponent value e
  let (int_string, exp') = split_point mantissa exp p
  parsed ← parse_digits int_string
  check_exponent parsed exp'

unfoldable pub unquote_if_quoted : Bytes → Bytes
unquote_if_quoted [] = []
unquote_if_quoted (c ∷ s) =
    if ltb 2 (length (c ∷ s)) && (c == b'"') && (last_byte (c ∷ s) == b'"')
    then take (length s - 1) s
    else c ∷ s

-- What a database driver hands to `Scan`: text, bytes, or a value of another type.
pub data Source : Type 0 where
  text : Bytes → Source
  raw : Bytes → Source
  other : Source

unfoldable pub scan : Source → Result ParseError Decimal
unfolding new_from_string unquote_if_quoted
scan (text v) = new_from_string (unquote_if_quoted v)
scan (raw v) = new_from_string (unquote_if_quoted v)
scan other = err not_convertible
