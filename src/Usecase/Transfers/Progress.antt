-- ===== src/Usecase/Transfers/Progress.antt =====
-- usecase/transactions.go, `executeTransfer` forwards: its statements where no error is raised.
use payment_processing.Prelude.{
  ◌≡◌, ◌≢◌, refl, sym, ◌∙◌, true, false, Option, some, List, [], ◌∷◌, ◌++◌, Bytes, ok, find-last,
  exists_row, count_where-last, update_where-last, exists_row-narrow, ◌==◌, arith,
}
use payment_processing.Prelude.Int.{ℤ, pos, ltb_ℤ, ◌≤ℤ◌, ◌+ℤ◌, ◌-ℤ◌}
use payment_processing.Domain.{
  Uuid, Time, Transaction, TransactionStatus, TransferIdempotency, pending,
}
use payment_processing.Storage.Tables.{Db, AccountRow, TransactionRow, units, in_precision}
use payment_processing.Storage.Session.{World, M, statement, new_uuid, ◌>>=◌, ◌>>◌, new_uuid}
use payment_processing.Storage.Session.Frames.{bind-run}
use payment_processing.Storage.Accounts.{sub, add}
use payment_processing.Storage.Accounts.Balances.{
  IsValid, balance_of, balance_of-update_ne, exists_row-update,
}
use payment_processing.Storage.Accounts.Exchange.{
  may_pay, may_pay-id, debit, credit, debit-IsValid, is_id,
}
use payment_processing.Storage.Accounts.Progress.{
  session, are_precise, sub-run, add-run, debit-precise, exists_row-found,
}
use payment_processing.Storage.Transfers.{
  new_transaction, insert, update_status, transaction_row, has_account,
}
use payment_processing.Storage.Transfers.Records.{with_status}
use payment_processing.Storage.Idempotency.Reservations.{open_row}
use payment_processing.Storage.Idempotency.{
  has_key, complete_row, has_transaction_id, complete_idempotency,
}
use payment_processing.Usecase.Transfers.{TransferCommand, Platform, execute_transfer}
use payment_processing.Usecase.Transfers.Effects.{completed_transfer}

module _ {S : Type 0} (w : World S) (db : Db) where
  insert-run :
      (tx : Transaction)
      → in_precision (units tx.amount) ≡ true
      → pos 1 ≤ℤ units tx.amount
      → tx.sender_id ≢ tx.receiver_id
      → exists_row (λ r. r.id == tx.id) db.transactions ≡ false
      → has_account tx.sender_id db ≡ true
      → has_account tx.receiver_id db ≡ true
      → insert tx (session w db) ≡ (
        ok (record tx { status = pending; created_at = w.clock }),
        session w
            (record db { transactions = db.transactions ++ (transaction_row w.clock tx ∷ []) }),
      )
  unfolding insert statement
  insert-run tx fits positive apart new from to =
      let gain : ltb_ℤ (pos 0) (units tx.amount) ≡ true = ground arith in
      let test : (tx.sender_id == tx.receiver_id) ≡ false = ground arith in
      simp (fits, gain, test, new, from, to)

  update_status-run :
      (tx : Transaction) (ts : List TransactionRow) (row : TransactionRow)
      → db.transactions ≡ ts ++ (row ∷ [])
      → exists_row (λ r. r.id == tx.id) ts ≡ false
      → row.id ≡ tx.id
      → update_status tx TransactionStatus.completed (session w db) ≡ (
        ok (record tx { status = TransactionStatus.completed; created_at = row.created_at }),
        session w
            (record db { transactions = ts ++ (with_status TransactionStatus.completed row ∷ []) }),
      )
  unfolding update_status statement
  update_status-run tx ts row rows new same =
      let hit : (row.id == tx.id) ≡ true = ground arith in
      let found = find-last (λ (r : TransactionRow). r.id == tx.id) ts row new hit in
      let set =
        update_where-last (λ (r : TransactionRow). r.id == tx.id)
          (with_status TransactionStatus.completed) ts row new hit in
      rw (rows, found, set)

  pub complete-run :
      (s : Uuid) (key : Bytes) (id : Uuid) (rs : List TransferIdempotency)
      (row : TransferIdempotency)
      → db.transfer_idempotency ≡ rs ++ (row ∷ [])
      → exists_row (has_key s key) rs ≡ false
      → open_row s key row ≡ true
      → exists_row (has_transaction_id id) (rs ++ (row ∷ [])) ≡ false
      → exists_row (λ r. r.id == id) db.transactions ≡ true
      → complete_idempotency s key id (session w db) ≡ (
        ok tt,
        session w (record db { transfer_idempotency = rs ++ (complete_row w.clock id row ∷ []) }),
      )
  unfolding complete_idempotency statement
  complete-run s key id rs row rows new opened unused there =
      let none_open =
        exists_row-narrow (has_key s key) (open_row s key) rs (λ r h. ground arith) new in
      let one = count_where-last (open_row s key) rs row none_open opened in
      let set =
        update_where-last (open_row s key) (complete_row w.clock id) rs row none_open opened in
      rw (rows, one, unused, there, set)

-- What a transfer needs: two accounts, the sender's with the amount, and the receiver's with room
-- for it.
pub record Payable (c : TransferCommand) (rs : List AccountRow) : Type 0 where
  pub paid_from : ℤ
  pub paid_to : ℤ
  pub valid : IsValid rs
  pub precise : are_precise rs ≡ true
  pub from : balance_of c.sender_id rs ≡ some paid_from
  pub to : balance_of c.receiver_id rs ≡ some paid_to
  pub covered : units c.amount ≤ℤ paid_from
  pub room : in_precision (paid_to +ℤ units c.amount) ≡ true
  pub fits : in_precision (units c.amount) ≡ true
  pub positive : pos 1 ≤ℤ units c.amount
  pub apart : c.sender_id ≢ c.receiver_id

abbrev moved : TransferCommand → Db → Db
moved c db = record db {
  accounts = credit c.receiver_id (units c.amount) (debit c.sender_id (units c.amount) db.accounts);
}

module _ {S : Type 0} (p : Platform S) where
  moved-run :
      {A : Type 0} (k : M S A) (c : TransferCommand) (w : World S) (db : Db)
      → Payable c db.accounts
      → (sub c.sender_id c.amount >> (add c.receiver_id c.amount >> k)) (session w db)
        ≡ k (session w (moved c db))
  moved-run k c w db h =
      let nonneg : pos 0 ≤ℤ units c.amount = omega (arith, h.positive) in
      let u = units c.amount in
      let left = record db { accounts = debit c.sender_id u db.accounts } in
      bind-run (sub c.sender_id c.amount) (λ _. add c.receiver_id c.amount >> k) (session w db)
        (sub-run w db c.sender_id c.amount h.paid_from h.valid h.precise h.from nonneg h.covered)
      ∙ bind-run (add c.receiver_id c.amount) (λ _. k) (session w left)
          (add-run w left c.receiver_id c.amount h.paid_to
            (debit-IsValid c.sender_id u db.accounts h.valid)
            (debit-precise c.sender_id u db.accounts nonneg h.precise)
            (balance_of-update_ne (may_pay c.sender_id u) (λ b. b -ℤ u) c.sender_id
                (may_pay-id c.sender_id u) db.accounts c.receiver_id (λ e. h.apart (sym e))
              ∙ h.to)
            nonneg h.room)

  moved-has_account :
      (c : TransferCommand) (db : Db) (id : Uuid)
      → has_account id db ≡ true
      → has_account id (moved c db) ≡ true
  moved-has_account c db id h =
      exists_row-update (λ r. r.id == c.receiver_id) (λ b. b +ℤ units c.amount) c.receiver_id
        (is_id c.receiver_id) id (debit c.sender_id (units c.amount) db.accounts)
      ∙ exists_row-update (may_pay c.sender_id (units c.amount)) (λ b. b -ℤ units c.amount)
          c.sender_id (may_pay-id c.sender_id (units c.amount)) id db.accounts
      ∙ h

  abbrev pub after_transfer : Time → TransferCommand → Uuid → Db → Db
  after_transfer now c id db = record (moved c db) {
    transactions = db.transactions ++ (completed_transfer now c id ∷ []);
  }

  -- The transaction that comes back, but for its status.
  abbrev pub made : Time → TransferCommand → Uuid → Transaction
  made now c id = record {
    id = id;
    amount = c.amount;
    sender_id = c.sender_id;
    receiver_id = c.receiver_id;
    status = TransactionStatus.completed;
    created_at = now;
  }

  pub execute-run :
      (c : TransferCommand) (w : World S) (db : Db) (id : Uuid) (rest : List (Option Uuid))
      → Payable c db.accounts
      → exists_row (λ r. r.id == id) db.transactions ≡ false
      → w.ids ≡ some id ∷ rest
      → execute_transfer p c (session w db) ≡ (
        ok (made w.clock c id),
        session (record w { ids = rest }) (after_transfer w.clock c id db),
      )
  unfolding execute_transfer new_transaction new_uuid
  execute-run c w db id rest h unused ids =
      let new = record (made w.clock c id) { status = pending } in
      let made_new : new_transaction c.amount c.sender_id c.receiver_id (session w (moved c db))
          ≡ (ok (record new { created_at = 0 }), session (record w { ids = rest }) (moved c db)) =
        rw ids refl in
      moved-run
        (new_transaction c.amount c.sender_id c.receiver_id >>= λ tx.
          insert tx >>= λ created. update_status created TransactionStatus.completed)
        c w db h
      ∙ bind-run (new_transaction c.amount c.sender_id c.receiver_id)
          (λ tx. insert tx >>= λ created. update_status created TransactionStatus.completed)
          (session w (moved c db)) made_new
      ∙ bind-run (insert (record new { created_at = 0 }))
          (λ created. update_status created TransactionStatus.completed)
          (session (record w { ids = rest }) (moved c db))
          (insert-run (record w { ids = rest }) (moved c db) (record new { created_at = 0 }) h.fits
            h.positive h.apart unused
            (moved-has_account c db c.sender_id
              (exists_row-found c.sender_id h.paid_from db.accounts h.from))
            (moved-has_account c db c.receiver_id
              (exists_row-found c.receiver_id h.paid_to db.accounts h.to)))
      ∙ update_status-run (record w { ids = rest })
          (record (moved c db) {
            transactions = db.transactions ++ (transaction_row w.clock new ∷ []);
          })
          new db.transactions (transaction_row w.clock new) refl unused refl
