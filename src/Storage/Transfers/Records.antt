-- ===== src/Storage/Transfers/Records.antt =====
-- What the statements on the table of transactions do where they succeed.
use payment_processing.Prelude.{
  ◌≡◌, ◌≢◌, false, [], ◌∷◌, ◌++◌, exists_row, find, update_where, ok, ◌==◌, Option-cases, inl, inr,
  arith,
}
use payment_processing.Prelude.Int.{pos, ◌≤ℤ◌}
use payment_processing.Decimal.{Decimal}
use payment_processing.Domain.{Uuid, Time, Transaction, TransactionStatus}
use payment_processing.Storage.Tables.{TransactionRow, Db, units}
use payment_processing.Storage.Session.{World}
use payment_processing.Storage.Session.Frames.{statement-ok, Frame, frame_rules}
use payment_processing.Storage.Transfers.{
  insert, insert_transaction, transaction_row, update_status, set_status, new_transaction,
}

abbrev pub with_status : TransactionStatus → TransactionRow → TransactionRow
with_status status r = record r { status = status }

-- What a successful INSERT has checked and done.
pub record Inserted (now : Time) (tx : Transaction) (db : Db) (tx' : Transaction) (db' : Db)
    : Type 0 where
  pub positive : pos 1 ≤ℤ units tx.amount
  pub distinct : tx.sender_id ≢ tx.receiver_id
  pub fresh : exists_row (λ r. r.id == tx.id) db.transactions ≡ false
  pub same_id : tx'.id ≡ tx.id
  pub left : db' ≡ record db { transactions = db.transactions ++ (transaction_row now tx ∷ []) }

insert_transaction-ok :
    (now : Time) (tx : Transaction) (db : Db) {tx' : Transaction} {db' : Db}
    → insert_transaction now tx db ≡ ok (tx', db')
    → Inserted now tx db tx' db'
unfolding insert_transaction
insert_transaction-ok now tx db h = ground arith

set_status-ok :
    (tx : Transaction) (status : TransactionStatus) (db : Db) {tx' : Transaction} {db' : Db}
    → set_status tx status db ≡ ok (tx', db')
    → (tx'.id ≡ tx.id)
      × (db' ≡ record db {
        transactions = update_where (λ x. x.id == tx.id) (with_status status) db.transactions;
      })
unfolding set_status
set_status-ok tx status db h = elim (Option-cases (find (λ r. r.id == tx.id) db.transactions)) [
  | inl absent ↦ cc (rw absent at h)
  | inr (r, found) ↦ ground arith
]

module _ {S : Type 0} where
  pub insert-ok :
      (tx : Transaction) (w : World S) {tx' : Transaction} {w' : World S}
      → insert tx w ≡ (ok tx', w')
      → Inserted w.clock tx w.tx_db tx' w'.tx_db
  unfolding insert
  insert-ok tx w h =
      insert_transaction-ok w.clock tx w.tx_db (statement-ok (λ now. insert_transaction now tx) w h)

  pub update_status-ok :
      (tx : Transaction) (status : TransactionStatus) (w : World S) {tx' : Transaction}
      {w' : World S}
      → update_status tx status w ≡ (ok tx', w')
      → (tx'.id ≡ tx.id)
        × (w'.tx_db ≡ record w.tx_db {
          transactions =
              update_where (λ x. x.id == tx.id) (with_status status) w.tx_db.transactions;
        })
  unfolding update_status
  update_status-ok tx status w h =
      set_status-ok tx status w.tx_db (statement-ok (λ now. set_status tx status) w h)

  pub new_transaction-ok :
      (amount : Decimal) (s r : Uuid) (w : World S) {tx : Transaction} {w' : World S}
      → new_transaction amount s r w ≡ (ok tx, w')
      → (tx.amount ≡ amount) × (tx.sender_id ≡ s) × (tx.receiver_id ≡ r) × (w'.tx_db ≡ w.tx_db)
  unfolding new_transaction
  new_transaction-ok amount s r w h = ground arith

  pub Frame-new_transaction :
      (amount : Decimal) (s r : Uuid) → Frame {S = S} (new_transaction amount s r)
  unfolding new_transaction
  Frame-new_transaction amount s r = search frame_rules

  pub Frame-insert : (tx : Transaction) → Frame {S = S} (insert tx)
  unfolding insert
  Frame-insert tx = search frame_rules

  pub Frame-update_status :
      (tx : Transaction) (status : TransactionStatus) → Frame {S = S} (update_status tx status)
  unfolding update_status
  Frame-update_status tx status = search frame_rules
