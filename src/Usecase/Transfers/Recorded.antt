-- ===== src/Usecase/Transfers/Recorded.antt =====
-- What a transfer leaves in the tables: the rows of a new one, or an earlier row that answers.
use payment_processing.Prelude.{
  ◌<◌, ◌≡◌, ◌≢◌, sym, subst, ◌∙◌, ap, true, false, some, [], ◌∷◌, ◌++◌, eq_bytes_self, exists_row,
  exists_row-narrow, find, count_where, update_where, update_where-last, ◌==◌, arith,
}
use payment_processing.Prelude.Int.{pos, ◌≤ℤ◌}
use payment_processing.Domain.{Uuid, Time, IdempotencyStatus, TransferIdempotency}
use payment_processing.Storage.Tables.{Db, units}
use payment_processing.Storage.Accounts.Balances.{IsValid}
use payment_processing.Storage.Accounts.Exchange.{Exchange, may_pay, debit, credit, exchanged}
use payment_processing.Storage.Idempotency.{has_key, fresh_row, complete_row}
use payment_processing.Storage.Idempotency.Reservations.{open_row, Reserved}
use payment_processing.Usecase.Transfers.{TransferCommand}
use payment_processing.Usecase.Transfers.Effects.{Executed, completed_transfer}

-- A new transfer: the amount has moved, and one row each records the transaction and its key.
pub record Transferred (now : Time) (c : TransferCommand) (id : Uuid) (db db' : Db) : Type 0 where
  pub exchange : Exchange c.sender_id c.receiver_id (units c.amount) db.accounts db'.accounts
  pub positive : pos 1 ≤ℤ units c.amount
  pub new_key : exists_row (has_key c.sender_id c.key) db.transfer_idempotency ≡ false
  pub new_id : exists_row (λ r. r.id == id) db.transactions ≡ false
  pub recorded : db'.transactions ≡ db.transactions ++ (completed_transfer now c id ∷ [])
  pub keyed :
      db'.transfer_idempotency
      ≡ db.transfer_idempotency
        ++ (complete_row now id (fresh_row now c.sender_id c.key c.request_fingerprint) ∷ [])
  pub tokens : db'.refresh_token ≡ db.refresh_token

-- A row that records a finished transfer of the same request.
pub record Answers (c : TransferCommand) (id : Uuid) (db : Db) : Type 0 where
  pub row : TransferIdempotency
  pub found : find (has_key c.sender_id c.key) db.transfer_idempotency ≡ some row
  pub same_request : row.request_fingerprint ≡ c.request_fingerprint
  pub finished : row.status ≡ IdempotencyStatus.completed
  pub result : row.transaction_id ≡ some id

pub own_row :
    (now : Time) (c : TransferCommand)
    → has_key c.sender_id c.key (fresh_row now c.sender_id c.key c.request_fingerprint) ≡ true
own_row now c = ground (arith, eq_bytes_self c.key)

-- The tables of a new transfer, step by step.
pub transferred :
    (now : Time) (c : TransferCommand) (id : Uuid) (db db1 db2 db3 : Db)
    → c.sender_id ≢ c.receiver_id
    → IsValid db.accounts
    → Reserved now c.sender_id c.key c.request_fingerprint db true db1
    → Executed now c id db1 db2
    → db3 ≡ record db2 {
      transfer_idempotency =
          update_where (open_row c.sender_id c.key) (complete_row now id) db2.transfer_idempotency;
    }
    → Transferred now c id db db3
transferred now c id db db1 db2 db3 distinct valid reserved x done =
    let fresh = fresh_row now c.sender_id c.key c.request_fingerprint in
    let same_accounts : db1.accounts ≡ db.accounts = ap (λ (d : Db). d.accounts) reserved.1 in
    let same_rows : db1.transactions ≡ db.transactions =
      ap (λ (d : Db). d.transactions) reserved.1 in
    let after : db3.accounts
        ≡ credit c.receiver_id (units c.amount) (debit c.sender_id (units c.amount) db.accounts) =
      ap (λ (d : Db). d.accounts) done
      ∙ ap (λ (d : Db). d.accounts) x.left
      ∙ ap (λ rows. credit c.receiver_id (units c.amount) (debit c.sender_id (units c.amount) rows))
          same_accounts in
    let keys : db2.transfer_idempotency ≡ db.transfer_idempotency ++ (fresh ∷ []) =
      ap (λ (d : Db). d.transfer_idempotency) x.left
      ∙ ap (λ (d : Db). d.transfer_idempotency) reserved.1 in
    record {
      exchange =
          subst (λ rows. Exchange c.sender_id c.receiver_id (units c.amount) db.accounts rows)
            (sym after)
            (exchanged c.sender_id c.receiver_id (units c.amount) db.accounts distinct valid
              (omega (arith, x.positive))
              (subst (λ rows. 0 < count_where (may_pay c.sender_id (units c.amount)) rows)
                same_accounts x.paid)
              (subst
                (λ rows.
                  0
                  < count_where (λ r. r.id == c.receiver_id)
                      (debit c.sender_id (units c.amount) rows))
                same_accounts x.got));
      positive = x.positive;
      new_key = reserved.0;
      new_id = subst (λ ts. exists_row (λ r. r.id == id) ts ≡ false) same_rows x.fresh;
      recorded =
          ap (λ (d : Db). d.transactions) done
          ∙ ap (λ (d : Db). d.transactions) x.left
          ∙ ap (λ ts. ts ++ (completed_transfer now c id ∷ [])) same_rows;
      keyed =
          ap (λ (d : Db). d.transfer_idempotency) done
          ∙ ap (update_where (open_row c.sender_id c.key) (complete_row now id)) keys
          ∙ update_where-last (open_row c.sender_id c.key) (complete_row now id)
              db.transfer_idempotency fresh
              (exists_row-narrow (has_key c.sender_id c.key) (open_row c.sender_id c.key)
                db.transfer_idempotency (λ r h. ground arith) reserved.0)
              (ground (arith, own_row now c));
      tokens =
          ap (λ (d : Db). d.refresh_token) done
          ∙ ap (λ (d : Db). d.refresh_token) x.left
          ∙ ap (λ (d : Db). d.refresh_token) reserved.1;
    }
