-- ===== src/Storage/Units.antt =====
-- storage.go and migrations/*.sql: what a NUMERIC(36,18) holds of an amount that Transfer accepts.
pub mod Exact
pub mod Accepted
mod Tests
use payment_processing.Prelude.{ℕ, ◌+◌, ◌*◌, ◌^◌, ◌≤◌, ◌<◌, ◌≡◌}
use payment_processing.Prelude.Int.{pos, pos_part, neg_part, abs_ℕ}
use payment_processing.Decimal.{Decimal, get_value}
use payment_processing.Storage.Tables.{units}

-- What is stored of a positive amount: a positive number of units, in the precision of the column,
-- and of the same value: units * 10^-18 = value * 10^exp.
pub record StoredExactly (d : Decimal) : Type 0 where
  pub amount : ℕ
  pub stored : units d ≡ pos amount
  pub positive : 1 ≤ amount
  pub in_bounds : amount < 10 ^ 36
  pub same_value : amount * 10 ^ neg_part d.exp ≡ abs_ℕ (get_value d) * 10 ^ (pos_part d.exp + 18)
