-- ===== src/Usecase/Transfers/Effects.antt =====
-- What a successful attempt has done to the tables.
use payment_processing.Prelude.{
  ◌<◌, ◌≡◌, subst, ◌∙◌, ap, false, [], ◌∷◌, ◌++◌, exists_row, count_where, update_where,
  update_where-last, ok, ◌==◌, arith,
}
use payment_processing.Prelude.Int.{pos, ◌≤ℤ◌}
use payment_processing.Domain.{Uuid, Time, Transaction, TransactionStatus}
use payment_processing.Storage.Tables.{TransactionRow, Db, units}
use payment_processing.Storage.Session.{World}
use payment_processing.Storage.Session.Frames.{bind-ok, SameOutside-ran}
use payment_processing.Storage.Accounts.{sub, add}
use payment_processing.Storage.Accounts.Exchange.{
  may_pay, debit, credit, sub-ok, add-ok, Frame-sub, Frame-add,
}
use payment_processing.Storage.Transfers.{new_transaction, insert, transaction_row}
use payment_processing.Storage.Transfers.Records.{
  Inserted, with_status, insert-ok, update_status-ok, new_transaction-ok, Frame-new_transaction,
}
use payment_processing.Usecase.Transfers.{TransferCommand, Platform, execute_transfer}

-- The row of a transfer that is done.
abbrev pub completed_transfer : Time → TransferCommand → Uuid → TransactionRow
completed_transfer now c id = record {
  id = id;
  amount = units c.amount;
  sender_id = c.sender_id;
  receiver_id = c.receiver_id;
  status = TransactionStatus.completed;
  created_at = now;
}

pub record Executed (now : Time) (c : TransferCommand) (id : Uuid) (db db' : Db) : Type 0 where
  pub paid : 0 < count_where (may_pay c.sender_id (units c.amount)) db.accounts
  pub got :
      0 < count_where (λ x. x.id == c.receiver_id) (debit c.sender_id (units c.amount) db.accounts)
  pub positive : pos 1 ≤ℤ units c.amount
  pub fresh : exists_row (λ r. r.id == id) db.transactions ≡ false
  pub left : db' ≡ record db {
    accounts =
        credit c.receiver_id (units c.amount) (debit c.sender_id (units c.amount) db.accounts);
    transactions = db.transactions ++ (completed_transfer now c id ∷ []);
  }

-- A transaction with the fields of a command.
abbrev Matches : TransferCommand → Transaction → Type 0
Matches c tx =
    (tx.amount ≡ c.amount) × (tx.sender_id ≡ c.sender_id) × (tx.receiver_id ≡ c.receiver_id)

completed_row :
    (now : Time) (c : TransferCommand) (tx : Transaction)
    → Matches c tx
    → with_status TransactionStatus.completed (transaction_row now tx)
      ≡ completed_transfer now c tx.id
completed_row now c tx m = cc

-- The row that `insert` added is the one that `update_status` sets.
settled_rows :
    (now : Time) (c : TransferCommand) (tx tx' : Transaction) (db db' : Db)
    → Matches c tx
    → Inserted now tx db tx' db'
    → update_where (λ x. x.id == tx'.id) (with_status TransactionStatus.completed) db'.transactions
      ≡ db.transactions ++ (completed_transfer now c tx'.id ∷ [])
settled_rows now c tx tx' db db' m i =
    rw (i.left, i.same_id)
      (update_where-last (λ x. x.id == tx.id) (with_status TransactionStatus.completed)
          db.transactions (transaction_row now tx) i.fresh (ground arith)
        ∙ ap (λ r. db.transactions ++ (r ∷ [])) (completed_row now c tx m))

-- The five statements in a row, over the tables between them.
executed :
    (now : Time) (c : TransferCommand) (tx tx' : Transaction) (db db1 db2 db3 db4 db' : Db)
    → (0 < count_where (may_pay c.sender_id (units c.amount)) db.accounts)
      × (db1 ≡ record db { accounts = debit c.sender_id (units c.amount) db.accounts })
    → (0 < count_where (λ x. x.id == c.receiver_id) db1.accounts)
      × (db2 ≡ record db1 { accounts = credit c.receiver_id (units c.amount) db1.accounts })
    → db3 ≡ db2
    → Matches c tx
    → Inserted now tx db3 tx' db4
    → db' ≡ record db4 {
      transactions =
          update_where
            (λ x. x.id == tx'.id)
            (with_status TransactionStatus.completed)
            db4.transactions;
    }
    → Executed now c tx'.id db db'
executed now c tx tx' db db1 db2 db3 db4 db' paid got same m i done =
    let rows : db3.transactions ≡ db.transactions =
      ap (λ (d : Db). d.transactions) (same ∙ got.1) ∙ ap (λ (d : Db). d.transactions) paid.1 in
    let accounts : db3.accounts
        ≡ credit c.receiver_id (units c.amount) (debit c.sender_id (units c.amount) db.accounts) =
      ap (λ (d : Db). d.accounts) (same ∙ got.1)
      ∙ ap (λ (d : Db). credit c.receiver_id (units c.amount) d.accounts) paid.1 in
    record {
      paid = paid.0;
      got =
          subst (λ (d : Db). 0 < count_where (λ x. x.id == c.receiver_id) d.accounts) paid.1 got.0;
      positive = subst (λ a. pos 1 ≤ℤ units a) m.0 i.positive;
      fresh = rw i.same_id (subst (λ ts. exists_row (λ r. r.id == tx.id) ts ≡ false) rows i.fresh);
      left =
          done
          ∙ ap (λ ts. record db4 { transactions = ts }) (settled_rows now c tx tx' db3 db4 m i)
          ∙ cc (i.left, same, got.1, paid.1, rows, accounts);
    }

module _ {S : Type 0} (p : Platform S) where
  pub execute_transfer-ok :
      (c : TransferCommand) (w : World S) {tx : Transaction} {w' : World S}
      → execute_transfer p c w ≡ (ok tx, w')
      → Executed w.clock c tx.id w.tx_db w'.tx_db
  unfolding execute_transfer
  execute_transfer-ok c w h =
      let (_, w1, ran1, h1) = bind-ok (sub c.sender_id c.amount) _ w h in
      let (_, w2, ran2, h2) = bind-ok (add c.receiver_id c.amount) _ w1 h1 in
      let (tx0, w3, ran3, h3) =
        bind-ok (new_transaction c.amount c.sender_id c.receiver_id) _ w2 h2 in
      let (tx1, w4, ran4, ran5) = bind-ok (insert tx0) _ w3 h3 in
      let (amount, from, to, same) =
        new_transaction-ok c.amount c.sender_id c.receiver_id w2 ran3 in
      let (id, done) = update_status-ok tx1 TransactionStatus.completed w4 ran5 in
      let clocks =
        (SameOutside-ran (new_transaction c.amount c.sender_id c.receiver_id)
          (Frame-new_transaction c.amount c.sender_id c.receiver_id) w2 ran3).clock
        ∙ (SameOutside-ran (add c.receiver_id c.amount) (Frame-add c.receiver_id c.amount) w1
            ran2).clock
        ∙ (SameOutside-ran (sub c.sender_id c.amount) (Frame-sub c.sender_id c.amount) w
            ran1).clock in
      rw id (
        executed w.clock c tx0 tx1 w.tx_db w1.tx_db w2.tx_db w3.tx_db w4.tx_db _
          (sub-ok c.sender_id c.amount w ran1) (add-ok c.receiver_id c.amount w1 ran2) same
          (amount, from, to)
          (subst (λ now. Inserted now tx0 w3.tx_db tx1 w4.tx_db) clocks (insert-ok tx0 w3 ran4))
          done)
