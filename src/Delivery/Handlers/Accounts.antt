-- ===== src/Delivery/Handlers/Accounts.antt =====
-- internal/delivery/http/handlers/accounts/account.go.
pub mod Owner
pub mod History
use payment_processing.Prelude.{ℕ, Bool, true, false, List, Bytes, eq_bytes, codes, Result, ok, err}
use payment_processing.Prelude.Int.{ℤ, pos, pos_part}
use payment_processing.Domain.{Error, Outcome, Account, Transaction, access_denied}
use payment_processing.Usecase.Accounts.{get_account, transaction_history}
use payment_processing.Delivery.Responses.{
  Writer, Body, account_body, history_body, write_error, write_json,
}
use payment_processing.Delivery.Requests.{Request, Identity, atoi}
use payment_processing.Delivery.Handlers.{
  App, Answer, checking, calling, ◌>>=◌, answer_error, sending, identity_from, uuid_of, answer_json,
}

-- Whether a user asks for the account of their own.
abbrev pub own_account : Bool → Outcome (Unit {0})
own_account true = ok tt
own_account false = err access_denied

abbrev pub or_else : ℤ → Outcome ℤ → ℤ
or_else d (ok i) = i
or_else d (err e) = d

module _ {S : Type 0} (app : App S) where
  -- Handler.GetAccount.
  unfoldable pub handle_get_account : Request → Answer S
  unfolding write_error write_json
  handle_get_account r = do
    account_id ← checking (uuid_of app.codecs r.path_id) (answer_error 400 false)
    identity ← checking (identity_from r) (answer_error 401 false)
    _ ←
        checking (own_account (eq_bytes identity.user_id (app.library.uuid_string account_id)))
          (answer_error 403 false)
    account ← calling (get_account app.platform account_id) (answer_error 500 true)
    sending (answer_json app.codecs 200 (account_body account))

  -- Handler.AccountTransactions.
  unfoldable pub handle_account_transactions : Request → Answer S
  unfolding write_error write_json atoi
  handle_account_transactions r = do
    account_id ← checking (uuid_of app.codecs r.path_id) (answer_error 400 false)
    identity ← checking (identity_from r) (answer_error 401 false)
    _ ←
        checking (own_account (eq_bytes identity.user_id (app.library.uuid_string account_id)))
          (answer_error 403 false)
    history ←
        calling
          (transaction_history app.platform app.no_query account_id
            (pos_part (or_else (pos 10) (atoi (r.query (codes "limit")))))
            (pos_part (or_else (pos 0) (atoi (r.query (codes "offset"))))))
          (answer_error 500 false)
    sending (answer_json app.codecs 200 (history_body history.0 history.1))
