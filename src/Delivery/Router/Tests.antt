-- ===== src/Delivery/Router/Tests.antt =====
-- The theorems on requests at work.
use payment_processing.Prelude.{
  Bytes, ok, arith, ◌^◌, eq_bytes, ◌∷◌, ◌≡◌, ◌⊎◌, refl, false, some, none, [], codes,
}
use payment_processing.Delivery.Jwt.Tests.{
  library, library-IsLibrary, manager, start, service, encode,
}
use payment_processing.Delivery.Jwt.Pairs.{access_end}
use payment_processing.Delivery.Jwt.Renewal.{pair_renews}
use payment_processing.Delivery.Jwt.Purposes.{with_manager}
use payment_processing.Delivery.Jwt.{new_pair, access_claims, refresh_claims}
use payment_processing.Storage.Tokens.{token_row}
use payment_processing.Usecase.Auth.{refresh, public_token_pair, check_rate_limit}
use payment_processing.Usecase.Auth.Rotation.{after_rotation}
use payment_processing.Delivery.Requests.{Request, Identity}
use payment_processing.Delivery.Middleware.{Handler, middleware}
use payment_processing.Delivery.Middleware.Guarded.{
  with_bearer, IsRefused, passes_until, middleware_pair,
}
use payment_processing.Delivery.Handlers.Accounts.{handle_get_account}
use payment_processing.Delivery.Handlers.Accounts.Owner.{
  AccountAnswered, handle_get_account-Answered,
}
use payment_processing.Domain.{TransactionStatus}
use payment_processing.Storage.Tables.{TransactionRow}
use payment_processing.Prelude.Int.{pos}
use payment_processing.Storage.Session.{World}
use payment_processing.Delivery.Handlers.Auth.{handle_register, handle_login, handle_refresh}
use payment_processing.Delivery.Handlers.Auth.Answers.{
  AuthRefused, Created, Opened, Renewed, handle_register-Answered, handle_login-Answered,
  handle_refresh-Answered,
}
use payment_processing.Delivery.Handlers.Transactions.{handle_transfer, handle_get_transaction}
use payment_processing.Delivery.Handlers.Transactions.Transfer.{
  Transferring, Refused, handle_transfer-Answered,
}
use payment_processing.Delivery.Handlers.Transactions.Reading.{
  TransactionAnswered, handle_get_transaction-Answered,
}
use payment_processing.Delivery.Router.{
  serve, protected, transfer_route, account_route, protected_handler,
}
use payment_processing.Delivery.Router.Protected.{
  Passed, protected_decides, as_user, holder_transfers,
}
use payment_processing.Delivery.Router.Samples.{
  app, world, request, parses, texts, generated, pair, tables, tables-IsValid, account,
}

protected_decides_example :
    ((passed : Request) × Passed app request passed world
      × (serve app (protected account_route) request world
          ≡ protected_handler app account_route passed world))
    ⊎ IsRefused world (serve app (protected account_route) request world)
protected_decides_example = protected_decides app account_route request world

abbrev who : Identity
who = record { user_id = codes "uuuu"; role = codes "user" }

holder_transfers_example :
    let ran = serve app (protected transfer_route) (with_bearer pair.access_token request) world in
    ((t : Transferring app (as_user app pair.access_token who request) world ran.0 ran.1.db)
      × (t.sender_id ≡ 3))
    ⊎ Refused app world ran
holder_transfers_example =
    holder_transfers app library-IsLibrary parses 3 (codes "user") start texts generated (λ _. refl)
      request world tables-IsValid

-- A handler that answers nothing.
abbrev silent : Handler (Unit {0})
silent r w = (record { cookies = []; www_authenticate = false; status = none; body = [] }, w)

middleware_pair_example :
    (middleware library manager silent (with_bearer pair.access_token request) world
      ≡ passes_until
          (access_end manager 7500000000)
          silent
          who
          (with_bearer pair.access_token request)
          world)
    × IsRefused world
        (middleware library manager silent (with_bearer pair.refresh_token request) world)
middleware_pair_example =
    middleware_pair library manager silent library-IsLibrary (codes "uuuu") (codes "user") start
      texts generated request world

abbrev identified : Request
identified = record request { identity = some who }

handle_transfer-Answered_example :
    let ran = handle_transfer app identified world in
    Transferring app identified world ran.0 ran.1.db ⊎ Refused app world ran
handle_transfer-Answered_example =
    handle_transfer-Answered app (λ _. refl) identified world tables-IsValid

handle_get_transaction-Answered_example :
    TransactionAnswered app identified world (handle_get_transaction app identified world)
handle_get_transaction-Answered_example =
    handle_get_transaction-Answered app (λ _. refl) identified world

-- The path names the account of the user.
abbrev at_home : Request
at_home = record identified { path_id = codes "uuuu" }

handle_get_account-Answered_example :
    AccountAnswered app at_home world (handle_get_account app at_home world)
handle_get_account-Answered_example = handle_get_account-Answered app (λ _. refl) at_home world

-- The account of the user has a transfer to account 2.
abbrev sent : TransactionRow
sent = record {
  id = 7;
  amount = pos 5;
  sender_id = 3;
  receiver_id = 2;
  status = TransactionStatus.completed;
  created_at = 40;
}

abbrev after_transfer : World (Unit {0})
after_transfer = record world { db = record tables { transactions = sent ∷ [] } }

handle_register-Answered_example :
    let ran = handle_register app request world in
    Created app request tables ran ⊎ AuthRefused ran.0
handle_register-Answered_example =
    handle_register-Answered app library-IsLibrary (λ _. refl) request world

handle_login-Answered_example :
    let ran = handle_login app request world in Opened app request tables ran ⊎ AuthRefused ran.0
handle_login-Answered_example =
    handle_login-Answered app library-IsLibrary (λ _. refl) request world

handle_refresh-Answered_example :
    let ran = handle_refresh app request world in Renewed app request world ran ⊎ AuthRefused ran.0
handle_refresh-Answered_example =
    handle_refresh-Answered app library-IsLibrary (λ _. refl) request world

-- Account 3 renews the session of its pair, half a second later.
abbrev in_session : World (Unit {0})
in_session = record world {
  db = record tables { refresh_token = token_row pair.jti 3 9 pair.expires_at ∷ [] };
}

abbrev new_access : Bytes
new_access =
    encode (codes "s") (access_claims library manager (codes "uuuu") (codes "user") 8000000000)

abbrev new_refresh : Bytes
new_refresh =
    encode (codes "s") (refresh_claims library manager (codes "uuuu") (codes "uuuuuuuu") 8000000000)

pair_renews_example :
    let ran =
      refresh (with_manager library manager service) pair.refresh_token (codes "ip") in_session in
    let renewed = new_pair library manager (codes "uuuuuuuu") 8000000000 new_access new_refresh in
    (ran.0 ≡ ok (public_token_pair renewed))
    × (ran.1.db ≡ after_rotation pair.jti renewed.jti 3 9 renewed.expires_at in_session.db)
unfolding eq_bytes check_rate_limit
pair_renews_example =
    pair_renews library manager library-IsLibrary service (account 3 (codes "a@b.cd") (10 ^ 20))
      (codes "user") (codes "ip") pair 9 start (record start { ids = [] }) in_session 7 []
      new_access new_refresh texts generated (omega arith) refl refl refl refl refl refl refl refl
