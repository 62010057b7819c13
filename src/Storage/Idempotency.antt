-- ===== src/Storage/Idempotency.antt =====
-- storage.go `txRepo`: the table of transfer results, by sender and key.
pub mod Reservations
use payment_processing.Prelude.{
  ℕ, Bool, true, false, ◌&&◌, not, Option, none, some, [], ◌∷◌, ◌++◌, Bytes, eq_bytes, ok, err,
  find, exists_row, update_where, count_where, ◌==◌, if◌then◌else◌,
}
use payment_processing.Domain.{
  Outcome, Uuid, Time, IdempotencyStatus, TransferIdempotency, pg_error, no_rows, other_error,
}
use payment_processing.Storage.Tables.{Db}
use payment_processing.Storage.Session.{M, statement, guard, ◌>>=◌}
use payment_processing.Storage.Transfers.{has_account}

-- The primary key.
abbrev pub has_key : Uuid → Bytes → TransferIdempotency → Bool
has_key sender_id key r = (r.sender_id == sender_id) && eq_bytes r.key key

abbrev pub is_processing : TransferIdempotency → Bool
is_processing r = elim r.status [ IdempotencyStatus.processing ↦ true | _ ↦ false ]

abbrev pub has_transaction_id : Uuid → TransferIdempotency → Bool
has_transaction_id id r = elim r.transaction_id [ none ↦ false | some t ↦ t == id ]

abbrev pub fresh_row : Time → Uuid → Bytes → Bytes → TransferIdempotency
fresh_row now sender_id key fingerprint = record {
  sender_id = sender_id;
  key = key;
  request_fingerprint = fingerprint;
  status = IdempotencyStatus.processing;
  transaction_id = none;
  created_at = now;
  updated_at = now;
}

-- INSERT … ON CONFLICT (sender_id, idempotency_key) DO NOTHING.
unfoldable pub reserve : Time → Uuid → Bytes → Bytes → Db → Outcome (Bool × Db)
reserve now sender_id key fingerprint db =
    if exists_row (has_key sender_id key) db.transfer_idempotency
    then ok (false, db)
    else if not (has_account sender_id db)
    then err (pg_error "23503")
    else ok (
      true,
      record db {
        transfer_idempotency =
            db.transfer_idempotency ++ (fresh_row now sender_id key fingerprint ∷ []);
      },
    )

abbrev row_or_missing : Db → Option TransferIdempotency → Outcome (TransferIdempotency × Db)
row_or_missing db none = err no_rows
row_or_missing db (some r) = ok (r, db)

abbrev pub complete_row : Time → Uuid → TransferIdempotency → TransferIdempotency
complete_row now transaction_id r = record r {
  status = IdempotencyStatus.completed;
  transaction_id = some transaction_id;
  updated_at = now;
}

-- UPDATE … WHERE status = 'processing', with the UNIQUE and the foreign key of transaction_id.
unfoldable pub complete : Time → Uuid → Bytes → Uuid → Db → Outcome (ℕ × Db)
complete now sender_id key transaction_id db =
    let hit = λ (r : TransferIdempotency). has_key sender_id key r && is_processing r in
    let rows = count_where hit db.transfer_idempotency in
    if rows == 0
    then ok (0, db)
    else if exists_row (has_transaction_id transaction_id) db.transfer_idempotency
    then err (pg_error "23505")
    else if not (exists_row (λ r. r.id == transaction_id) db.transactions)
    then err (pg_error "23503")
    else ok (
      rows,
      record db {
        transfer_idempotency =
            update_where hit (complete_row now transaction_id) db.transfer_idempotency;
      },
    )

module _ {S : Type 0} where
  unfoldable pub try_create_idempotency : Uuid → Bytes → Bytes → M S Bool
  unfolding reserve
  try_create_idempotency sender_id key fingerprint =
      statement (λ now. reserve now sender_id key fingerprint)

  unfoldable pub get_idempotency : Uuid → Bytes → M S TransferIdempotency
  get_idempotency sender_id key =
      statement (λ now db. row_or_missing db (find (has_key sender_id key) db.transfer_idempotency))

  unfoldable pub complete_idempotency : Uuid → Bytes → Uuid → M S (Unit {0})
  unfolding complete
  complete_idempotency sender_id key transaction_id = do
    rows ← statement (λ now. complete now sender_id key transaction_id)
    guard (rows == 1) other_error
