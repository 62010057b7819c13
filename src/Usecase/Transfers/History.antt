-- ===== src/Usecase/Transfers/History.antt =====
-- Any number of transfers in a row, by any callers and with any errors between them.
use payment_processing.Prelude.{
  ◌≡◌, refl, sym, subst, ◌∙◌, ap, inl, inr, true, some, List, [], ◌∷◌, ◌++◌, Bytes, ok, err,
  exists_row, exists_row-append, exists_row-last, All, All-last, All-map, ◌==◌, arith,
}
use payment_processing.Domain.{Outcome, Uuid, Time, IdempotencyStatus, TransferIdempotency}
use payment_processing.Decimal.{Decimal}
use payment_processing.Storage.Tables.{Db, TransactionRow}
use payment_processing.Storage.Session.{World}
use payment_processing.Storage.Accounts.Balances.{IsValid, total}
use payment_processing.Usecase.Transfers.{TransferCommand, Platform, transfer_command, transfer}
use payment_processing.Usecase.Transfers.Effects.{completed_transfer}
use payment_processing.Usecase.Transfers.Recorded.{Transferred}
use payment_processing.Usecase.Transfers.Loop.{Accounted, transfer-Accounted}

pub record Call : Type 0 where
  pub sender_id : Uuid
  pub receiver_id : Uuid
  pub key : Bytes
  pub amount : Decimal

-- A finished result, whose transaction is there.
abbrev pub IsFinished : List TransactionRow → TransferIdempotency → Type 0
IsFinished transactions r =
    (r.status ≡ IdempotencyStatus.completed)
    × ((id : Uuid) × (r.transaction_id ≡ some id)
        × (exists_row (λ t. t.id == id) transactions ≡ true))

-- Between transfers: account ids are unique, no balance is negative, and no key is half done.
pub record IsConsistent (db : Db) : Type 0 where
  pub accounts : IsValid db.accounts
  pub finished : All (IsFinished db.transactions) db.transfer_idempotency

append-IsFinished :
    (t : TransactionRow) (ts : List TransactionRow) (r : TransferIdempotency)
    → IsFinished ts r
    → IsFinished (ts ++ (t ∷ [])) r
append-IsFinished t ts r (status, (id, holds, there)) =
    (status, (id, holds, exists_row-append (λ x. x.id == id) ts (t ∷ []) there))

module _ {S : Type 0} (p : Platform S) where
  abbrev pub call : Call → World S → Outcome Bytes × World S
  call c = transfer p c.sender_id c.receiver_id c.key c.amount

  abbrev pub command_of : Call → TransferCommand
  command_of c = transfer_command p c.sender_id c.receiver_id c.key c.amount

  unfoldable pub serve : List Call → World S → World S
  serve [] w = w
  serve (c ∷ cs) w = serve cs (call c w).1

  Transferred-IsConsistent :
      (now : Time) (c : TransferCommand) (id : Uuid) (db db' : Db)
      → Transferred now c id db db'
      → IsConsistent db
      → IsConsistent db'
  Transferred-IsConsistent now c id db db' t h = record {
    accounts = t.exchange.valid;
    finished =
        rw (t.recorded, t.keyed)
          (All-last (IsFinished (db.transactions ++ (completed_transfer now c id ∷ [])))
            db.transfer_idempotency _
            (All-map (IsFinished db.transactions) _ db.transfer_idempotency
              (append-IsFinished (completed_transfer now c id) db.transactions) h.finished)
            (
              refl,
              (
                id,
                refl,
                exists_row-last (λ t. t.id == id) db.transactions (completed_transfer now c id)
                    (ground arith),
              ),
            ));
  }

  Accounted-IsConsistent :
      (now : Time) (c : TransferCommand) (r : Outcome Bytes) (db db' : Db)
      → Accounted p now c r db db'
      → IsConsistent db
      → IsConsistent db'
  Accounted-IsConsistent now c (ok result) db db' (id, _, inl t) h =
      Transferred-IsConsistent now c id db db' t h
  Accounted-IsConsistent now c (ok result) db db' (id, _, inr (_, same)) h =
      subst IsConsistent (sym same) h
  Accounted-IsConsistent now c (err e) db db' same h = subst IsConsistent (sym same) h

  total_kept :
      (now : Time) (c : TransferCommand) (r : Outcome Bytes) (db db' : Db)
      → Accounted p now c r db db'
      → total db'.accounts ≡ total db.accounts
  total_kept now c (ok result) db db' (id, _, inl t) = t.exchange.conserved
  total_kept now c (ok result) db db' (id, _, inr (_, same)) =
      ap (λ (d : Db). total d.accounts) same
  total_kept now c (err e) db db' same = ap (λ (d : Db). total d.accounts) same

  pub accounted :
      (c : Call) (w : World S)
      → IsConsistent w.db
      → Accounted p w.clock (command_of c) (call c w).0 w.db (call c w).1.db
  accounted c w h = transfer-Accounted p c.sender_id c.receiver_id c.key c.amount w h.accounts

  pub call-IsConsistent :
      (c : Call) (w : World S) → IsConsistent w.db → IsConsistent (call c w).1.db
  call-IsConsistent c w h =
      Accounted-IsConsistent w.clock (command_of c) (call c w).0 w.db (call c w).1.db
        (accounted c w h) h

  -- Any number of transfers from consistent tables, successful or not, leave them consistent,
  -- and the sum of the balances as it was.
  pub serve-IsConsistent :
      (cs : List Call) (w : World S)
      → IsConsistent w.db
      → IsConsistent (serve cs w).db × (total (serve cs w).db.accounts ≡ total w.db.accounts)
  unfolding serve
  serve-IsConsistent [] w h = (h, refl)
  serve-IsConsistent (c ∷ cs) w h =
      let (consistent, same) = serve-IsConsistent cs (call c w).1 (call-IsConsistent c w h) in
      (
        consistent,
        same
            ∙ total_kept w.clock (command_of c) (call c w).0 w.db (call c w).1.db (accounted c w h),
      )
