-- ===== src/Usecase/Accounts.antt =====
-- internal/usecase/accounts.go: `AccountsService`.
pub mod Reading
pub mod History
use payment_processing.Prelude.{ℕ, List, Bytes, ◌*◌}
use payment_processing.Domain.{Outcome, Uuid, Account, Transaction, TransactionFilter, nil_uuid}
use payment_processing.Prelude.{none, []}
use payment_processing.Storage.Session.{M, pure, ◌>>=◌, ◌>>◌, new_tx, commit, deferring_rollback}
use payment_processing.Storage.Accounts.{create, get_by_id}
use payment_processing.Storage.Transfers.{total_transactions}
use payment_processing.Storage.Filter.{get_transactions}
use payment_processing.Usecase.Transfers.{Platform, ask_rate_limit}

-- time.Minute, in nanoseconds.
abbrev minute : ℕ
minute = 60 * 1000000000

-- The filter of an account's own transactions.
abbrev pub history_filter : Uuid → ℕ → ℕ → TransactionFilter
history_filter account_id limit offset = record {
  account_id = account_id;
  sender_id = nil_uuid;
  receiver_id = nil_uuid;
  min_amount = [];
  max_amount = [];
  from = none;
  to = none;
  limit = limit;
  offset = offset;
}

module _ {S : Type 0} (p : Platform S) where
  unfoldable pub check_duplicate : Bytes → M S (Unit {0})
  check_duplicate key w =
      let (r, cache) = p.cache.idempotency_check key minute w.cache in
      (r, record w { cache = cache })

  unfoldable pub create_account : Account → Bytes → M S (Unit {0})
  unfolding ask_rate_limit check_duplicate
  create_account acc ip = do
    ask_rate_limit p ip
    check_duplicate ip
    new_tx
    deferring_rollback (create acc >> commit)

  unfoldable pub get_account : Uuid → M S Account
  unfolding ask_rate_limit
  get_account id = do
    ask_rate_limit p (p.uuid_string id)
    new_tx
    deferring_rollback (do acc ← get_by_id id; commit; pure acc)

  unfoldable pub transaction_history :
      Outcome (List Transaction) → Uuid → ℕ → ℕ → M S (ℕ × List Transaction)
  unfolding ask_rate_limit
  transaction_history no_query account_id limit offset = do
    ask_rate_limit p (p.uuid_string account_id)
    new_tx
    deferring_rollback (do
      total ← total_transactions account_id
      transactions ← get_transactions no_query (history_filter account_id limit offset)
      commit
      pure (total, transactions))
