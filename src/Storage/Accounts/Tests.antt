-- ===== src/Storage/Accounts/Tests.antt =====
-- A transfer from account 2 to account 1 locks account 1 first.
use payment_processing.Prelude.{ℕ, ◌≡◌, refl, false, [], ◌∷◌}
use payment_processing.Prelude.Int.{pos}
use payment_processing.Storage.Tables.{AccountRow, Db}
use payment_processing.Storage.Session.{World}
use payment_processing.Storage.Accounts.{lock_for_transfer}
use payment_processing.Storage.Accounts.Locking.{IsAscending, lock_order}

abbrev account : ℕ → AccountRow
account id = record {
  id = id;
  name = [];
  email = id ∷ [];
  balance = pos 0;
  password_hash = [];
  role = [];
}

abbrev tables : Db
tables = record {
  accounts = account 2 ∷ account 3 ∷ account 1 ∷ [];
  transactions = [];
  transfer_idempotency = [];
  refresh_token = [];
}

abbrev opened : World ℕ
opened = record {
  db = tables;
  tx_db = tables;
  locked = [];
  faults = [];
  ids = [];
  cancels = [];
  clock = 50;
  cache = 0;
  rate_limit_checked = false;
}

lock_order_example :
    (lock_for_transfer 2 1 opened ≡ lock_for_transfer 1 2 opened)
    × IsAscending (lock_for_transfer 2 1 opened).1.locked
lock_order_example = lock_order 2 1 opened refl
