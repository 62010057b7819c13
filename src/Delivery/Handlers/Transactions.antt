-- ===== src/Delivery/Handlers/Transactions.antt =====
-- internal/delivery/http/handlers/transactions/transaction_handler.go.
pub mod Transfer
pub mod Reading
pub mod Listing
use payment_processing.Prelude.{ℕ, Bool, true, false, List, Bytes, Result, ok, err}
use payment_processing.Decimal.{Decimal}
use payment_processing.Decimal.Parse.{ParseError, new_from_string}
use payment_processing.Domain.{
  Error, Outcome, Uuid, Transaction, other_error, idempotency_conflict, idempotency_in_progress,
  same_account, invalid_amount, insufficient_funds, receiver_account_not_found, access_denied,
}
use payment_processing.Domain.Keys.{validate_idempotency_key}
use payment_processing.Usecase.Transfers.{transfer}
use payment_processing.Usecase.Queries.{get_transaction, get_transaction_filter}
use payment_processing.Delivery.Responses.{
  Writer, Body, transfer_body, transaction_body, transactions_body, write_error, write_json,
}
use payment_processing.Delivery.Requests.{Request, decode_json, new_transaction_filter}
use payment_processing.Delivery.Handlers.{
  App, Answer, checking, calling, ◌>>=◌, answer_error, sending, identity_from, uuid_of, answer_json,
}

abbrev pub amount_outcome : Result ParseError Decimal → Outcome Decimal
amount_outcome (ok d) = ok d
amount_outcome (err e) = err other_error

-- The statuses of Transfer's errors.
unfoldable pub transfer_status : Error → ℕ
transfer_status idempotency_conflict = 409
transfer_status idempotency_in_progress = 409
transfer_status same_account = 400
transfer_status invalid_amount = 400
transfer_status insufficient_funds = 400
transfer_status receiver_account_not_found = 400
transfer_status _ = 500

abbrev pub transfer_refusal : Error → Writer
transfer_refusal e = answer_error (transfer_status e) true e

abbrev pub get_transaction_refusal : Error → Writer
get_transaction_refusal access_denied = answer_error 404 false access_denied
get_transaction_refusal e = answer_error 500 true e

module _ {S : Type 0} (app : App S) where
  -- Handler.Transfer.
  unfoldable pub handle_transfer : Request → Answer S
  unfolding transfer_status write_error write_json decode_json
  handle_transfer r = do
    identity ← checking (identity_from r) (answer_error 401 false)
    sender_id ← checking (uuid_of app.codecs identity.user_id) (answer_error 400 false)
    _ ← checking (validate_idempotency_key r.idempotency_key) (answer_error 400 true)
    dto ←
        checking (decode_json app.codecs app.codecs.decode_transfer r.body) (answer_error 400 false)
    amount ← checking (amount_outcome (new_from_string dto.amount)) (answer_error 400 false)
    transaction_id ←
        calling (transfer app.platform sender_id dto.receiver_id r.idempotency_key amount)
          transfer_refusal
    sending (answer_json app.codecs 201 (transfer_body transaction_id))

  -- Handler.GetTransaction.
  unfoldable pub handle_get_transaction : Request → Answer S
  unfolding write_error write_json
  handle_get_transaction r = do
    id ← checking (uuid_of app.codecs r.path_id) (answer_error 400 true)
    identity ← checking (identity_from r) (answer_error 401 false)
    user_id ← checking (uuid_of app.codecs identity.user_id) (answer_error 400 false)
    transaction ← calling (get_transaction app.platform id user_id) get_transaction_refusal
    sending (answer_json app.codecs 200 (transaction_body transaction))

  -- Handler.TransactionFilter.
  unfoldable pub handle_transaction_filter : Request → Answer S
  unfolding write_error write_json
  handle_transaction_filter r = do
    identity ← checking (identity_from r) (answer_error 401 false)
    user_id ← checking (uuid_of app.codecs identity.user_id) (answer_error 400 false)
    filter ← checking (new_transaction_filter app.codecs r.query) (answer_error 400 true)
    transactions ←
        calling (get_transaction_filter app.platform app.no_query filter user_id)
          (answer_error 500 true)
    sending (answer_json app.codecs 200 (transactions_body transactions))
