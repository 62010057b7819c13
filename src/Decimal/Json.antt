-- ===== src/Decimal/Json.antt =====
-- decimal.go: `MarshalJSON` and `UnmarshalJSON`. The text of a decimal has digits, a sign, a dot and
-- an E only, so that JSON writes it between quotes as it is.
use payment_processing.Prelude.{Option, none, some, Result, ok, err, [], ◌∷◌, ◌++◌, Bytes}
use payment_processing.Decimal.{Decimal}
use payment_processing.Decimal.Text.{to_string}
use payment_processing.Decimal.Parse.{ParseError, new_from_string}

unfoldable pub marshal_json : Decimal → Bytes
unfolding to_string
marshal_json d = b'"' ∷ (to_string d ++ (b'"' ∷ []))

-- json.Unmarshal of a string, and of a number that FormatFloat writes out again.
pub record JsonTexts : Type 0 where
  pub unmarshal_string : Bytes → Option Bytes
  pub unmarshal_number : Bytes → Option Bytes

pub data JsonError : Type 0 where
  no_text : JsonError
  no_decimal : ParseError → JsonError

abbrev parsed : Result ParseError Decimal → Result JsonError Decimal
parsed (ok d) = ok d
parsed (err e) = err (no_decimal e)

abbrev number_text : Option Bytes → Result JsonError Decimal
number_text (some s) = parsed (new_from_string s)
number_text none = err no_text

abbrev text_or_number : Option Bytes → Option Bytes → Result JsonError Decimal
text_or_number (some s) number = parsed (new_from_string s)
text_or_number none number = number_text number

unfoldable pub unmarshal_json : JsonTexts → Bytes → Result JsonError Decimal
unfolding new_from_string
unmarshal_json j raw = text_or_number (j.unmarshal_string raw) (j.unmarshal_number raw)
