-- ===== src/Usecase/Queries/Tests.antt =====
-- Account 2 asks for a transfer that it has received.
use payment_processing.Prelude.{ℕ, suc, ◌≡◌, refl, false, [], ◌∷◌, ok}
use payment_processing.Prelude.Int.{pos}
use payment_processing.Domain.{TransactionStatus}
use payment_processing.Storage.Tables.{TransactionRow, Db}
use payment_processing.Storage.Session.{World, new_tx, statement, commit, deferring_rollback}
use payment_processing.Storage.Transfers.{transaction_of, get_transaction_by_id}
use payment_processing.Usecase.Transfers.{Platform, ask_rate_limit}
use payment_processing.Usecase.Queries.{get_transaction}

abbrev platform : Platform ℕ
platform = record {
  uuid_string = λ n. n ∷ [];
  sha256 = λ bs. bs;
  cache = record {
    check_rate_limit = λ _ n. (ok tt, suc n);
    idempotency_check = λ _ _ n. (ok tt, suc n);
  };
}

abbrev row : TransactionRow
row = record {
  id = 7;
  amount = pos 5;
  sender_id = 1;
  receiver_id = 2;
  status = TransactionStatus.completed;
  created_at = 40;
}

abbrev tables : Db
tables = record {
  accounts = [];
  transactions = row ∷ [];
  transfer_idempotency = [];
  refresh_token = [];
}

abbrev asked : World ℕ
asked = record {
  db = tables;
  tx_db = tables;
  locked = [];
  faults = [];
  ids = [];
  cancels = [];
  clock = 50;
  cache = 0;
  rate_limit_checked = false;
}

shown : (get_transaction platform 7 2 asked).0 ≡ ok (transaction_of row)
unfolding get_transaction ask_rate_limit new_tx deferring_rollback get_transaction_by_id statement
    commit
shown = refl
