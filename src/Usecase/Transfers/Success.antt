-- ===== src/Usecase/Transfers/Success.antt =====
-- usecase/transactions.go, `Transfer` forwards: the attempt of a new key.
use payment_processing.Prelude.{
  pair_of, ◌≡◌, refl, true, false, ◌&&◌, Option, none, some, List, [], ◌∷◌, ◌++◌, Bytes, ok,
  exists_row, exists_row-last, ◌==◌, arith,
}
use payment_processing.Prelude.Int.{pos}
use payment_processing.Decimal.{Decimal, is_positive, fits_numeric}
use payment_processing.Domain.{Uuid, TransferIdempotency}
use payment_processing.Domain.Keys.{validate_idempotency_key}
use payment_processing.Storage.Tables.{Db}
use payment_processing.Storage.Session.{World, statement, commit, deferring_rollback, rollback}
use payment_processing.Storage.Accounts.{locked_rows}
use payment_processing.Storage.Accounts.Progress.{session, exists_row-found}
use payment_processing.Storage.Idempotency.{
  has_key, has_transaction_id, fresh_row, complete_row, reserve, try_create_idempotency,
}
use payment_processing.Usecase.Transfers.{
  TransferCommand, Platform, check_rate_limit_once, ask_rate_limit, resolve_idempotency,
  finish_attempt, transfer_attempt, transfer_command, transfer,
}
use payment_processing.Usecase.Transfers.Effects.{completed_transfer}
use payment_processing.Usecase.Transfers.Recorded.{own_row}
use payment_processing.Usecase.Transfers.Progress.{
  Payable, complete-run, execute-run, after_transfer,
}
use payment_processing.Usecase.Transfers.Answers.{attempt_begin, loop_ends, transfer_starts}

-- An id that no transaction has.
pub record IsUnused (id : Uuid) (db : Db) : Type 0 where
  pub no_row : exists_row (λ r. r.id == id) db.transactions ≡ false
  pub no_result : exists_row (has_transaction_id id) db.transfer_idempotency ≡ false

no_result-fresh :
    (id : Uuid) (rs : List TransferIdempotency) (row : TransferIdempotency)
    → row.transaction_id ≡ none
    → exists_row (has_transaction_id id) rs ≡ false
    → exists_row (has_transaction_id id) (rs ++ (row ∷ [])) ≡ false
no_result-fresh id [] row e h = rw e refl
no_result-fresh id (r ∷ rs) row e h = ground (arith, no_result-fresh id rs row e)

module _ {S : Type 0} (p : Platform S) (c : TransferCommand) (w : World S) where
  abbrev fresh : TransferIdempotency
  fresh = fresh_row w.clock c.sender_id c.key c.request_fingerprint

  abbrev reserved : Db → Db
  reserved db = record db { transfer_idempotency = db.transfer_idempotency ++ (fresh ∷ []) }

  reserve-run :
      (db : Db)
      → exists_row (has_key c.sender_id c.key) db.transfer_idempotency ≡ false
      → exists_row (λ r. r.id == c.sender_id) db.accounts ≡ true
      → resolve_idempotency p c (session w db) ≡ (ok none, session w (reserved db))
  unfolding resolve_idempotency try_create_idempotency reserve statement
  reserve-run db new there = simp (new, there)

  -- The session after the limiter has let the transfer pass.
  abbrev asked : World S
  asked = record w {
    cache = (p.cache.check_rate_limit (p.uuid_string c.sender_id) w.cache).1;
    rate_limit_checked = true;
  }

  limiter-run :
      (db : Db)
      → w.rate_limit_checked ≡ false
      → (p.cache.check_rate_limit (p.uuid_string c.sender_id) w.cache).0 ≡ ok tt
      → check_rate_limit_once p c.sender_id (session w db) ≡ (ok tt, session asked db)
  unfolding check_rate_limit_once ask_rate_limit
  limiter-run db first allowed = rw (first, allowed) refl

  abbrev pub db_after : Uuid → Db → Db
  db_after id db = record (after_transfer p w.clock c id (reserved db)) {
    transfer_idempotency = db.transfer_idempotency ++ (complete_row w.clock id fresh ∷ []);
  }

  finish-run :
      (db : Db) (id : Uuid) (rest : List (Option Uuid))
      → Payable c db.accounts
      → exists_row (has_key c.sender_id c.key) db.transfer_idempotency ≡ false
      → IsUnused id db
      → w.ids ≡ some id ∷ rest
      → w.rate_limit_checked ≡ false
      → (p.cache.check_rate_limit (p.uuid_string c.sender_id) w.cache).0 ≡ ok tt
      → let ran = finish_attempt p c none (session w (reserved db)) in
        (ran.0 ≡ ok (p.uuid_string id)) × (ran.1.db ≡ db_after id db) × (ran.1.faults ≡ [])
  unfolding finish_attempt commit
  finish-run db id rest h new unused ids first allowed =
      rw
        (
          limiter-run (reserved db) first allowed,
          execute-run p c asked (reserved db) id rest h unused.no_row ids,
          complete-run (record asked { ids = rest }) (after_transfer p w.clock c id (reserved db))
              c.sender_id c.key id db.transfer_idempotency fresh refl new
              (ground (arith, own_row w.clock c))
              (no_result-fresh id db.transfer_idempotency fresh refl unused.no_result)
              (exists_row-last (λ r. r.id == id) db.transactions (completed_transfer w.clock c id)
                (ground arith)),
        )
        (refl, refl, refl)

module _ {S : Type 0} (p : Platform S) (c : TransferCommand) where
  attempt-run :
      (w : World S) (id : Uuid) (rest : List (Option Uuid))
      → Payable c w.db.accounts
      → exists_row (has_key c.sender_id c.key) w.db.transfer_idempotency ≡ false
      → IsUnused id w.db
      → w.faults ≡ []
      → w.ids ≡ some id ∷ rest
      → w.rate_limit_checked ≡ false
      → (p.cache.check_rate_limit (p.uuid_string c.sender_id) w.cache).0 ≡ ok tt
      → let ran = transfer_attempt p c w in
        (ran.0 ≡ ok (p.uuid_string id)) × (ran.1.db ≡ db_after p c w id w.db) × (ran.1.faults ≡ [])
  unfolding deferring_rollback rollback
  attempt-run w id rest h new unused quiet ids first allowed =
      let w1 = record w { locked = locked_rows c.sender_id c.receiver_id w.db } in
      rw
        (
          attempt_begin p c w quiet h.apart,
          reserve-run p c w1 w.db new
              (exists_row-found c.sender_id h.paid_from w.db.accounts h.from),
        )
        (finish-run p c w1 w.db id rest h new unused ids first allowed)

module _ {S : Type 0} (p : Platform S) (sender_id receiver_id : Uuid) (key : Bytes)
    (amount : Decimal) (w : World S) where
  abbrev pub ordered : TransferCommand
  ordered = transfer_command p sender_id receiver_id key amount

  pub transfer-run :
      (id : Uuid) (rest : List (Option Uuid))
      → validate_idempotency_key key ≡ ok tt
      → (is_positive amount && fits_numeric amount (pos 36) (pos 18)) ≡ true
      → Payable ordered w.db.accounts
      → exists_row (has_key sender_id key) w.db.transfer_idempotency ≡ false
      → IsUnused id w.db
      → w.faults ≡ []
      → w.ids ≡ some id ∷ rest
      → (p.cache.check_rate_limit (p.uuid_string sender_id) w.cache).0 ≡ ok tt
      → let ran = transfer p sender_id receiver_id key amount w in
        (ran.0 ≡ ok (p.uuid_string id))
        × (ran.1.db ≡ db_after p ordered w id w.db)
        × (ran.1.faults ≡ [])
  unfolding transfer_command
  transfer-run id rest valid good h new unused quiet ids allowed =
      let fresh_call = record w { rate_limit_checked = false } in
      let (done, left, quiet_after) =
        attempt-run p ordered fresh_call id rest h new unused quiet ids refl allowed in
      rw
        (
          transfer_starts p sender_id receiver_id key amount w valid good,
          loop_ends p 2 1 ordered fresh_call (transfer_attempt p ordered fresh_call).1
              (p.uuid_string id) (pair_of _ done),
        )
        (refl, left, quiet_after)

  -- A call with a valid new key, a valid amount that the sender's balance covers and the
  -- receiver's has room for, and an unused id returns that id where the database raises no
  -- error and the limiter lets it pass; then the amount has moved, and the transaction and its
  -- key are recorded as completed.
  pub transfer_succeeds :
      (id : Uuid) (rest : List (Option Uuid))
      → validate_idempotency_key key ≡ ok tt
      → (is_positive amount && fits_numeric amount (pos 36) (pos 18)) ≡ true
      → Payable ordered w.db.accounts
      → exists_row (has_key sender_id key) w.db.transfer_idempotency ≡ false
      → IsUnused id w.db
      → w.faults ≡ []
      → w.ids ≡ some id ∷ rest
      → (p.cache.check_rate_limit (p.uuid_string sender_id) w.cache).0 ≡ ok tt
      → let ran = transfer p sender_id receiver_id key amount w in
        (ran.0 ≡ ok (p.uuid_string id)) × (ran.1.db ≡ db_after p ordered w id w.db)
  transfer_succeeds id rest valid good h new unused quiet ids allowed =
      let run = transfer-run id rest valid good h new unused quiet ids allowed in (run.0, run.1)
