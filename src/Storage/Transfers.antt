-- ===== src/Storage/Transfers.antt =====
-- storage.go `txRepo`: the table of transactions.
pub mod Records
use payment_processing.Prelude.{
  ℕ, Bool, ◌&&◌, ◌||◌, not, Option, none, some, [], ◌∷◌, ◌++◌, ok, err, find, exists_row,
  update_where, count_where, ◌==◌, if◌then◌else◌,
}
use payment_processing.Prelude.Int.{pos, ltb_ℤ}
use payment_processing.Decimal.{Decimal}
use payment_processing.Domain.{
  Outcome, Uuid, Time, Transaction, TransactionStatus, pending, pg_error, no_rows,
}
use payment_processing.Storage.Tables.{TransactionRow, Db, units, of_units, in_precision}
use payment_processing.Storage.Session.{M, statement, new_uuid, pure, ◌>>=◌}

-- domain.NewTransaction: the status and the time are the zero values until a row is read back.
unfoldable pub new_transaction : {S : Type 0} → Decimal → Uuid → Uuid → M S Transaction
unfolding new_uuid
new_transaction amount sender_id receiver_id = do
  id ← new_uuid
  pure (record {
    id = id;
    amount = amount;
    sender_id = sender_id;
    receiver_id = receiver_id;
    status = pending;
    created_at = 0;
  })

abbrev pub has_account : Uuid → Db → Bool
has_account id db = exists_row (λ r. r.id == id) db.accounts

abbrev pub transaction_row : Time → Transaction → TransactionRow
transaction_row now tx = record {
  id = tx.id;
  amount = units tx.amount;
  sender_id = tx.sender_id;
  receiver_id = tx.receiver_id;
  status = pending;
  created_at = now;
}

-- INSERT INTO transactions: the precision, the two CHECKs, the primary key, the foreign keys.
unfoldable pub insert_transaction : Time → Transaction → Db → Outcome (Transaction × Db)
insert_transaction now tx db =
    let row = transaction_row now tx in
    if not (in_precision row.amount)
    then err (pg_error "22003")
    else if not (ltb_ℤ (pos 0) row.amount) || (row.sender_id == row.receiver_id)
    then err (pg_error "23514")
    else if exists_row (λ r. r.id == row.id) db.transactions
    then err (pg_error "23505")
    else if not (has_account row.sender_id db && has_account row.receiver_id db)
    then err (pg_error "23503")
    else ok (
      record tx { status = pending; created_at = now },
      record db { transactions = db.transactions ++ (row ∷ []) },
    )

abbrev status_or_missing :
    Transaction → TransactionStatus → Db → Option TransactionRow → Outcome (Transaction × Db)
status_or_missing tx status db none = err no_rows
status_or_missing tx status db (some r) = ok (
  record tx { status = status; created_at = r.created_at },
  record db {
    transactions =
        update_where (λ x. x.id == tx.id) (λ x. record x { status = status }) db.transactions;
  },
)

-- UPDATE … RETURNING: no row is an error.
unfoldable pub set_status : Transaction → TransactionStatus → Db → Outcome (Transaction × Db)
set_status tx status db = status_or_missing tx status db (find (λ r. r.id == tx.id) db.transactions)

abbrev pub transaction_of : TransactionRow → Transaction
transaction_of r = record {
  id = r.id;
  amount = of_units r.amount;
  sender_id = r.sender_id;
  receiver_id = r.receiver_id;
  status = r.status;
  created_at = r.created_at;
}

abbrev pub transaction_or_missing : Db → Option TransactionRow → Outcome (Transaction × Db)
transaction_or_missing db none = err no_rows
transaction_or_missing db (some r) = ok (transaction_of r, db)

module _ {S : Type 0} where
  -- `Transaction` creates a row; the value comes back as the method leaves it.
  unfoldable pub insert : Transaction → M S Transaction
  unfolding insert_transaction
  insert tx = statement (λ now. insert_transaction now tx)

  unfoldable pub update_status : Transaction → TransactionStatus → M S Transaction
  unfolding set_status
  update_status tx status = statement (λ now. set_status tx status)

  -- `GetByID`.
  unfoldable pub get_transaction_by_id : Uuid → M S Transaction
  get_transaction_by_id id =
      statement (λ now db. transaction_or_missing db (find (λ r. r.id == id) db.transactions))

  unfoldable pub total_transactions : Uuid → M S ℕ
  total_transactions user_id = statement (λ now db. ok (
    count_where (λ r. (r.receiver_id == user_id) || (r.sender_id == user_id)) db.transactions,
    db,
  ))
