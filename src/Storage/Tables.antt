-- ===== src/Storage/Tables.antt =====
-- migrations/*.sql: the tables with their constraints. A column NUMERIC(36,18) is the integer number
-- of its units of 10^-18. A table is the list of its rows, oldest first.
use payment_processing.Prelude.{
  ℕ, ◌+◌, ◌*◌, ◌/◌, ◌^◌, Bool, ◌&&◌, some, List, map, Bytes, ltb, leb, if◌then◌else◌,
}
use payment_processing.Prelude.Int.{ℤ, pos, negsuc, leb_ℤ, abs_ℕ, map_abs}
use payment_processing.Decimal.{Decimal, get_value, exp_diff}
use payment_processing.Domain.{Uuid, Time, TransactionStatus, TransferIdempotency}

pub record AccountRow : Type 0 where
  pub id : Uuid
  pub name : Bytes
  pub email : Bytes
  pub balance : ℤ
  pub password_hash : Bytes
  pub role : Bytes

pub record TransactionRow : Type 0 where
  pub id : Uuid
  pub amount : ℤ
  pub sender_id : Uuid
  pub receiver_id : Uuid
  pub status : TransactionStatus
  pub created_at : Time

pub record TokenRow : Type 0 where
  pub jti : Bytes
  pub user_id : Uuid
  pub family_id : Uuid
  pub revoked : Bool
  pub expires_at : Time

pub record Db : Type 0 where
  pub accounts : List AccountRow
  pub transactions : List TransactionRow
  pub transfer_idempotency : List TransferIdempotency
  pub refresh_token : List TokenRow

-- -18, the exponent of a unit.
abbrev pub unit_exp : ℤ
unit_exp = negsuc 17

-- The units that a decimal is stored as: exact, or rounded half away from zero where it has more
-- than 18 places.
unfoldable pub units : Decimal → ℤ
units d =
    let scale = 10 ^ exp_diff d.exp unit_exp in
    if leb_ℤ unit_exp d.exp
    then map_abs (λ a. a * scale) (get_value d)
    else map_abs (λ a. (a + scale / 2) / scale) (get_value d)

-- What `Scan` makes of a column: its text has 18 places always.
abbrev pub of_units : ℤ → Decimal
of_units u = record { value = some u; exp = unit_exp }

-- The precision of NUMERIC(36,18).
abbrev pub numeric_bound : ℕ
numeric_bound = 10 ^ 36

abbrev pub in_precision : ℤ → Bool
in_precision u = ltb (abs_ℕ u) numeric_bound

-- CONSTRAINT balance_is_positive.
abbrev pub not_negative : ℤ → Bool
not_negative u = leb_ℤ (pos 0) u

-- LOWER(email), of an ASCII address.
unfoldable pub lower_char : ℕ → ℕ
lower_char c = if leb b'A' c && leb c b'Z' then c + 32 else c

unfoldable pub lower : Bytes → Bytes
unfolding lower_char
lower = map lower_char
