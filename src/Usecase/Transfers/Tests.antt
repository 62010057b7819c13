-- ===== src/Usecase/Transfers/Tests.antt =====
-- The theorems on transfers at work: account 1 pays account 2, from a table of its own.
use payment_processing.Prelude.{
  ℕ, suc, ◌^◌, ◌≡◌, ◌⊎◌, refl, true, false, ◌&&◌, none, some, [], ◌∷◌, codes, eq_bytes_self, ok,
  err, arith,
}
use payment_processing.Prelude.Int.{pos, ◌+ℤ◌, ◌-ℤ◌}
use payment_processing.Decimal.{Decimal, is_positive, fits_numeric}
use payment_processing.Domain.{Cache, TransferIdempotency, processing, idempotency_conflict}
use payment_processing.Domain.Keys.{validate_idempotency_key}
use payment_processing.Storage.Tables.{AccountRow, Db, units}
use payment_processing.Storage.Session.{World}
use payment_processing.Storage.Idempotency.{complete_row, fresh_row}
use payment_processing.Storage.Accounts.Balances.{total, balance_of}
use payment_processing.Usecase.Transfers.Rounds.{transfer_loop_ends}
use payment_processing.Usecase.Transfers.{transfer_loop}
use payment_processing.Usecase.Transfers.{
  Platform, transfer, transfer_fingerprint, transfer_command, transfer_payload, hex_string,
}
use payment_processing.Usecase.Transfers.Loop.{Accounted, transfer-Accounted}
use payment_processing.Usecase.Transfers.History.{
  Call, IsConsistent, call, command_of, serve, serve-IsConsistent,
}
use payment_processing.Usecase.Transfers.Replay.{transfer_once}
use payment_processing.Usecase.Transfers.Recorded.{Answers}
use payment_processing.Usecase.Transfers.Progress.{Payable}
use payment_processing.Usecase.Transfers.Success.{db_after, transfer-run, transfer_succeeds}
use payment_processing.Usecase.Transfers.Limiter.{transfer_asks_once}
use payment_processing.Usecase.Transfers.Answers.{transfer_conflict, transfer_replay}

-- A cache that counts what it is asked.
abbrev counting : Cache ℕ
counting = record {
  check_rate_limit = λ _ n. (ok tt, suc n);
  idempotency_check = λ _ _ n. (ok tt, suc n);
}

abbrev platform : Platform ℕ
platform = record { uuid_string = λ n. n ∷ []; sha256 = λ bs. bs; cache = counting }

abbrev payer : AccountRow
payer = record {
  id = 1;
  name = codes "payer";
  email = codes "a@b.cd";
  balance = pos (10 ^ 20);
  password_hash = codes "h";
  role = codes "user";
}

abbrev payee : AccountRow
payee = record {
  id = 2;
  name = codes "payee";
  email = codes "b@b.cd";
  balance = pos 0;
  password_hash = codes "h";
  role = codes "user";
}

abbrev two_accounts : Db
two_accounts = record {
  accounts = payer ∷ payee ∷ [];
  transactions = [];
  transfer_idempotency = [];
  refresh_token = [];
}

abbrev before : World ℕ
before = record {
  db = two_accounts;
  tx_db = two_accounts;
  locked = [];
  faults = [];
  ids = some 7 ∷ some 8 ∷ [];
  cancels = [];
  clock = 50;
  cache = 0;
  rate_limit_checked = false;
}

abbrev seven : Decimal
seven = record { value = some (pos 7); exp = pos 0 }

abbrev eight : Decimal
eight = record { value = some (pos 8); exp = pos 0 }

abbrev pays_seven : Call
pays_seven = record { sender_id = 1; receiver_id = 2; key = codes "k"; amount = seven }

two_accounts-IsConsistent : IsConsistent two_accounts
two_accounts-IsConsistent = record { accounts = ground arith; finished = tt }

seven-valid : (is_positive seven && fits_numeric seven (pos 36) (pos 18)) ≡ true
unfolding is_positive fits_numeric ◌+ℤ◌ ◌-ℤ◌
seven-valid = refl

key-valid : validate_idempotency_key (codes "k") ≡ ok tt
unfolding validate_idempotency_key
key-valid = refl

seven-Payable : Payable (transfer_command platform 1 2 (codes "k") seven) two_accounts.accounts
unfolding transfer_command units balance_of ◌+ℤ◌
seven-Payable = record {
  paid_from = pos (10 ^ 20);
  paid_to = pos 0;
  valid = two_accounts-IsConsistent.accounts;
  precise = refl;
  from = refl;
  to = refl;
  covered = ground arith;
  room = refl;
  fits = refl;
  positive = ground arith;
  apart = omega arith;
}

transfer_succeeds_example :
    let ran = transfer platform 1 2 (codes "k") seven before in
    (ran.0 ≡ ok (7 ∷ []))
    × (ran.1.db
        ≡ db_after platform (transfer_command platform 1 2 (codes "k") seven) before 7 two_accounts)
transfer_succeeds_example =
    transfer_succeeds platform 1 2 (codes "k") seven before 7 (some 8 ∷ []) key-valid seven-valid
      seven-Payable refl (record { no_row = refl; no_result = refl }) refl refl refl

transfer-Accounted_example :
    let ran = transfer platform 1 2 (codes "k") seven before in
    Accounted platform 50
      (transfer_command platform 1 2 (codes "k") seven)
      ran.0
      two_accounts
      ran.1.db
transfer-Accounted_example =
    transfer-Accounted platform 1 2 (codes "k") seven before two_accounts-IsConsistent.accounts

serve-IsConsistent_example :
    let after = serve platform (pays_seven ∷ pays_seven ∷ []) before in
    IsConsistent after.db × (total after.db.accounts ≡ total two_accounts.accounts)
serve-IsConsistent_example =
    serve-IsConsistent platform (pays_seven ∷ pays_seven ∷ []) before two_accounts-IsConsistent

-- After the first call, of which `run` tells all that a second one depends on.
abbrev after : World ℕ
after = (call platform pays_seven before).1

run :
    ((call platform pays_seven before).0 ≡ ok (7 ∷ []))
    × (after.db ≡ db_after platform (command_of platform pays_seven) before 7 two_accounts)
    × (after.faults ≡ [])
run =
    transfer-run platform 1 2 (codes "k") seven before 7 (some 8 ∷ []) key-valid seven-valid
      seven-Payable refl (record { no_row = refl; no_result = refl }) refl refl refl

seven_recorded : Answers (command_of platform pays_seven) 7 after.db
unfolding transfer_command
seven_recorded = rw run.1 (record {
  row =
      complete_row 50 7
        (fresh_row 50 1 (codes "k") (command_of platform pays_seven).request_fingerprint);
  found = ground (arith, eq_bytes_self (codes "k"));
  same_request = refl;
  finished = refl;
  result = refl;
})

transfer_replay_example :
    let again = transfer platform 1 2 (codes "k") seven after in
    (again.0 ≡ ok (7 ∷ [])) × (again.1.db ≡ after.db) × (again.1.cache ≡ after.cache)
transfer_replay_example =
    transfer_replay platform 1 2 (codes "k") seven after run.2 (omega arith) key-valid seven-valid 7
      seven_recorded

transfer_once_example :
    (platform.uuid_string 7 ≡ platform.uuid_string 7)
    × ((call platform pays_seven after).1.db ≡ after.db)
unfolding serve
transfer_once_example =
    transfer_once platform pays_seven [] before (7 ∷ []) (7 ∷ []) two_accounts-IsConsistent run.0
      transfer_replay_example.0

-- Key `k` stands for another request.
abbrev other_request : TransferIdempotency
other_request = record {
  sender_id = 1;
  key = codes "k";
  request_fingerprint = [];
  status = processing;
  transaction_id = none;
  created_at = 0;
  updated_at = 0;
}

abbrev key_taken : World ℕ
key_taken = record before { db = record two_accounts { transfer_idempotency = other_request ∷ [] } }

transfer_conflict_example :
    let refused = transfer platform 1 2 (codes "k") seven key_taken in
    (refused.0 ≡ err idempotency_conflict) × (refused.1.db ≡ key_taken.db)
unfolding transfer_fingerprint transfer_payload hex_string
transfer_conflict_example =
    transfer_conflict platform 1 2 (codes "k") seven key_taken refl (omega arith) key-valid
      seven-valid other_request (ground (arith, eq_bytes_self (codes "k"))) (λ e. cc)

transfer_asks_once_example :
    let ran = transfer platform 1 2 (codes "k") seven before in
    (ran.1.cache ≡ 0) ⊎ (ran.1.cache ≡ 1)
transfer_asks_once_example =
    transfer_asks_once platform 1 2 (codes "k") seven before (λ id c e h. cc)

transfer_loop_ends_example :
    transfer_loop platform 8 1 (command_of platform pays_seven) before
    ≡ transfer_loop platform 3 1 (command_of platform pays_seven) before
transfer_loop_ends_example = transfer_loop_ends platform 5 (command_of platform pays_seven) before
