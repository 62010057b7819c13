-- ===== src/Storage/Accounts.antt =====
-- storage.go `accountRepo`.
pub mod Balances
pub mod Exchange
pub mod Progress
pub mod Locking
mod Tests
use payment_processing.Prelude.{
  ℕ, Bool, false, ◌&&◌, ◌||◌, Option, none, some, List, [], ◌∷◌, ◌++◌, Bytes, eq_bytes, ok, err,
  find, exists_row, all_rows, update_where, count_where, select, ltb, leb, ◌==◌, if◌then◌else◌,
}
use text.Mathlib.Text.{◌==◌ as str_eq}
use payment_processing.Prelude.Int.{ℤ, ◌+ℤ◌, ◌-ℤ◌, leb_ℤ}
use payment_processing.Decimal.{Decimal}
use payment_processing.Domain.{
  Error, Outcome, Uuid, Account, pg_error, account_not_found, account_already_exist,
  insufficient_funds, receiver_account_not_found,
}
use payment_processing.Storage.Tables.{
  AccountRow, Db, units, of_units, in_precision, not_negative, lower,
}
use payment_processing.Storage.Session.{M, statement, guard, ◌>>=◌}

-- The constraints on balances, over the rows that a statement would leave.
unfoldable pub check_balances : {A : Type 0} → A → Db → List AccountRow → Outcome (A × Db)
check_balances a db rows =
    if all_rows (λ r. in_precision r.balance) rows
    then (if all_rows (λ r. not_negative r.balance) rows
        then ok (a, record db { accounts = rows })
        else err (pg_error "23514"))
    else err (pg_error "22003")

-- UPDATE accounts SET balance = f balance WHERE p; the number of rows.
unfoldable pub update_balance : (AccountRow → Bool) → (ℤ → ℤ) → Db → Outcome (ℕ × Db)
unfolding check_balances
update_balance p f db =
    check_balances (count_where p db.accounts) db
      (update_where p (λ r. record r { balance = f r.balance }) db.accounts)

abbrev pub account_row : Account → AccountRow
account_row ac = record {
  id = ac.id;
  name = ac.name;
  email = ac.email;
  balance = units ac.balance;
  password_hash = ac.password_hash;
  role = ac.role;
}

abbrev pub account_of : AccountRow → Account
account_of r = record {
  id = r.id;
  name = r.name;
  email = r.email;
  balance = of_units r.balance;
  password_hash = r.password_hash;
  role = r.role;
}

-- The primary key, and the unique index on LOWER(email).
unfoldable pub insert_account : AccountRow → Db → Outcome (Unit {0} × Db)
unfolding check_balances lower
insert_account row db =
    if exists_row (λ r. (r.id == row.id) || eq_bytes (lower r.email) (lower row.email)) db.accounts
    then err (pg_error "23505")
    else check_balances tt db (db.accounts ++ (row ∷ []))

abbrev is_unique_violation : Error → Bool
is_unique_violation (pg_error code) = str_eq code "23505"
is_unique_violation _ = false

abbrev pub create_outcome : Outcome (Unit {0}) → Outcome (Unit {0})
create_outcome (ok a) = ok a
create_outcome (err e) = err (if is_unique_violation e then account_already_exist else e)

-- A query for at most one row.
abbrev pub row_or_missing : {A : Type 0} → Error → Db → Option A → Outcome (A × Db)
row_or_missing e db none = err e
row_or_missing e db (some a) = ok (a, db)

abbrev pub account_or_missing : Db → Option AccountRow → Outcome (Account × Db)
account_or_missing db none = err account_not_found
account_or_missing db (some r) = ok (account_of r, db)

-- ORDER BY id, one row at a time.
unfoldable pub insert_by_id : Uuid → List Uuid → List Uuid
insert_by_id id [] = id ∷ []
insert_by_id id (x ∷ xs) = if leb id x then id ∷ x ∷ xs else x ∷ insert_by_id id xs

unfoldable pub order_by_id : List AccountRow → List Uuid
unfolding insert_by_id
order_by_id [] = []
order_by_id (r ∷ rs) = insert_by_id r.id (order_by_id rs)

-- The rows of an IN list of two ids, in the order of the ids.
unfoldable pub locked_rows : Uuid → Uuid → Db → List Uuid
unfolding order_by_id
locked_rows first_id second_id db =
    order_by_id (select (λ r. (r.id == first_id) || (r.id == second_id)) db.accounts)

module _ {S : Type 0} where
  unfoldable pub create : Account → M S (Unit {0})
  unfolding insert_account
  create ac w =
      let (r, w') = statement (λ now. insert_account (account_row ac)) w in (create_outcome r, w')

  unfoldable pub get_by_id : Uuid → M S Account
  get_by_id id = statement (λ now db. account_or_missing db (find (λ r. r.id == id) db.accounts))

  unfoldable pub get_by_email : Bytes → M S Account
  unfolding lower
  get_by_email email = statement (λ now db.
      account_or_missing db (find (λ r. eq_bytes (lower r.email) (lower email)) db.accounts))

  unfoldable pub sub : Uuid → Decimal → M S (Unit {0})
  unfolding update_balance
  sub sender_id amount = do
    rows ← statement (λ now.
        update_balance (λ r. (r.id == sender_id) && leb_ℤ (units amount) r.balance)
          (λ b. b -ℤ units amount))
    guard (ltb 0 rows) insufficient_funds

  unfoldable pub add : Uuid → Decimal → M S (Unit {0})
  unfolding update_balance
  add receiver_id amount = do
    rows ← statement (λ now. update_balance (λ r. r.id == receiver_id) (λ b. b +ℤ units amount))
    guard (ltb 0 rows) receiver_account_not_found

  -- SELECT … WHERE id IN ($1, $2) ORDER BY id FOR UPDATE.
  unfoldable pub lock_for_transfer : Uuid → Uuid → M S (Unit {0})
  unfolding locked_rows
  lock_for_transfer first_id second_id = do
    ids ← statement (λ now db. ok (locked_rows first_id second_id db, db))
    λ w. (ok tt, record w { locked = w.locked ++ ids })
