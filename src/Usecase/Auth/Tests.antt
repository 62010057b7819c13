-- ===== src/Usecase/Auth/Tests.antt =====
-- The theorems on refresh sessions at work: account 1 with a session of its own.
use payment_processing.Prelude.{
  pair_of, arith, trim_space, ℕ, suc, ◌≡◌, ◌≢◌, refl, Bool, true, false, some, [], ◌∷◌, codes,
  eq_bytes, ok, err, All,
}
use payment_processing.Prelude.Int.{pos}
use payment_processing.Domain.{TokenPair, RefreshClaims, refresh_token_reuse}
use payment_processing.Storage.Tables.{AccountRow, TokenRow}
use payment_processing.Storage.Session.{World, statement, new_tx, commit, deferring_rollback}
use payment_processing.Storage.Accounts.{get_by_id}
use payment_processing.Storage.Tokens.{
  get_refresh_token, revoke_refresh_token, revoke_where, save_refresh_token_row, insert_token,
}
use payment_processing.Usecase.Auth.Revoked.{IsTokenManager}
use payment_processing.Usecase.Auth.Requests.{logging_out_all, handle_all}
use payment_processing.Usecase.Auth.Refresh.{Rotated, refresh-Rotated, refresh_once}
use payment_processing.Usecase.Auth.Reuse.{family_revoked, refresh_reuse}
use payment_processing.Decimal.{zero_decimal}
use payment_processing.Domain.{Account}
use payment_processing.Storage.Tables.{lower, units}
use payment_processing.Storage.Session.{new_uuid}
use payment_processing.Storage.Accounts.{create, insert_account, check_balances}
use payment_processing.Usecase.Auth.Credentials.{normalize_email, validate_registration}
use payment_processing.Usecase.Auth.Registration.{Registered, register-Registered}
use payment_processing.Usecase.Auth.{
  register, Services, refresh, map_error, attempting, check_rate_limit, public_token_pair,
}
use payment_processing.Usecase.Auth.Logout.{logout_ends}
use payment_processing.Usecase.Auth.Renewal.{refresh_succeeds}
use payment_processing.Usecase.Auth.Rotation.{with_revoked, after_rotation}
use payment_processing.Usecase.Auth.{logout}
use payment_processing.Usecase.Auth.Sessions.{LoggedIn, login-LoggedIn}
use payment_processing.Usecase.Auth.{
  login, login_rate_identity, load_account_for_login, save_refresh_session,
}
use payment_processing.Usecase.Auth.Credentials.{valid_email, valid_password}
use payment_processing.Storage.Accounts.{get_by_email}

abbrev new_pair : TokenPair
new_pair = record {
  access_token = codes "a";
  refresh_token = codes "r";
  expires_in = pos 60;
  jti = codes "new";
  expires_at = 99;
}

-- A token that stands for account 1 and is its own jti.
abbrev services : Services ℕ
services = record {
  uuid_string = λ n. n ∷ [];
  sha256 = λ bs. bs;
  generate_hash = λ bs. ok bs;
  compare_hash = λ h p. eq_bytes h p;
  cache = record {
    check_rate_limit = λ _ n. (ok tt, suc n);
    idempotency_check = λ _ _ n. (ok tt, suc n);
  };
  generate_token_pair = λ _ _ w. (ok new_pair, w);
  validate_refresh_token =
      λ token _. ok (record { user_id = 1 ∷ []; id = token; subject = 1 ∷ [] });
}

services-IsTokenManager : IsTokenManager services
services-IsTokenManager = record {
  same_tables = λ _ _ w. (refl, refl);
  same_claims = λ token now later a b h k. cc;
}

abbrev owner : AccountRow
owner = record {
  id = 1;
  name = codes "n";
  email = codes "a@b.cd";
  balance = pos 0;
  password_hash = codes "h";
  role = codes "user";
}

abbrev token_of : Bool → TokenRow
token_of revoked = record {
  jti = codes "t";
  user_id = 1;
  family_id = 5;
  revoked = revoked;
  expires_at = 100;
}

abbrev at_start : Bool → World ℕ
at_start revoked = record {
  db = record {
    accounts = owner ∷ [];
    transactions = [];
    transfer_idempotency = [];
    refresh_token = token_of revoked ∷ [];
  };
  tx_db = record {
    accounts = [];
    transactions = [];
    transfer_idempotency = [];
    refresh_token = [];
  };
  locked = [];
  faults = [];
  ids = [];
  cancels = [];
  clock = 50;
  cache = 0;
  rate_limit_checked = false;
}

refreshed :
    (refresh services (codes "t") (codes "ip") (at_start false)).0 ≡ ok (public_token_pair new_pair)
unfolding eq_bytes refresh map_error attempting check_rate_limit new_tx deferring_rollback
    get_refresh_token statement revoke_refresh_token revoke_where get_by_id save_refresh_token_row
    insert_token commit
refreshed = refl

refresh-Rotated_example :
    (claims : RefreshClaims) × (services.validate_refresh_token (codes "t") 50 ≡ ok claims)
    × Rotated 50 claims.id
        (at_start false).db
        (refresh services (codes "t") (codes "ip") (at_start false)).1.db
refresh-Rotated_example =
    refresh-Rotated services services-IsTokenManager (codes "t") (codes "ip") (at_start false)
      {pair = public_token_pair new_pair}
      {w' = (refresh services (codes "t") (codes "ip") (at_start false)).1} (pair_of _ refreshed)

refresh_once_example :
    (refresh services
      (codes "t")
      (codes "ip")
      (record (handle_all services
        ((60, logging_out_all 2) ∷ [])
        (refresh services (codes "t") (codes "ip") (at_start false)).1) { clock = 70 })).0
    ≢ ok new_pair
refresh_once_example =
    refresh_once services services-IsTokenManager (codes "t") (codes "ip") (at_start false)
      (public_token_pair new_pair) refreshed ((60, logging_out_all 2) ∷ []) 70 (codes "ip") new_pair

refresh_reuse_example :
    let ran = refresh services (codes "t") (codes "ip") (at_start true) in
    (ran.0 ≡ err refresh_token_reuse)
    × (ran.1.db
        ≡ record (at_start true).db { refresh_token = family_revoked 5 (token_of true ∷ []) })
    × All (λ r. r.family_id ≡ 5 → r.revoked ≡ true) ran.1.db.refresh_token
unfolding eq_bytes check_rate_limit
refresh_reuse_example =
    refresh_reuse services (codes "t") (codes "ip")
      (record { user_id = 1 ∷ []; id = codes "t"; subject = 1 ∷ [] }) (token_of true)
      (at_start true) refl refl refl refl refl refl refl

abbrev before_registration : World ℕ
before_registration = record (at_start false) { ids = some 9 ∷ [] }

abbrev newcomer : Account
newcomer = record {
  id = 9;
  name = codes "Ann";
  email = codes "ann@b.cd";
  balance = zero_decimal;
  password_hash = codes "password";
  role = codes "user";
}

registered :
    (register services
      (codes " Ann@b.cd")
      (codes "password")
      (codes "Ann ")
      (codes "ip")
      before_registration).0
    ≡ ok newcomer
unfolding eq_bytes register normalize_email trim_space validate_registration check_rate_limit new_tx
    deferring_rollback new_uuid create insert_account check_balances statement commit lower units
registered = refl

register-Registered_example :
    Registered services
      (codes " Ann@b.cd")
      (codes "password")
      (codes "Ann ")
      newcomer
      before_registration.db
      (register services
        (codes " Ann@b.cd")
        (codes "password")
        (codes "Ann ")
        (codes "ip")
        before_registration).1.db
register-Registered_example =
    register-Registered services (codes " Ann@b.cd") (codes "password") (codes "Ann ") (codes "ip")
      before_registration newcomer registered

abbrev before_login : World ℕ
before_login = record (at_start false) {
  db = record (at_start false).db {
    accounts = record owner { password_hash = codes "password" } ∷ [];
  };
  ids = some 8 ∷ [];
}

logged_in :
    (login services (codes "A@b.cd") (codes "password") (codes "ip") before_login).0
    ≡ ok (public_token_pair new_pair)
unfolding eq_bytes login normalize_email trim_space lower valid_email valid_password
    login_rate_identity load_account_for_login save_refresh_session map_error check_rate_limit
    new_tx deferring_rollback new_uuid get_by_email save_refresh_token_row insert_token statement
    commit
logged_in = refl

login-LoggedIn_example :
    LoggedIn services
      (codes "A@b.cd")
      (codes "password")
      before_login.db
      (login services (codes "A@b.cd") (codes "password") (codes "ip") before_login).1.db
login-LoggedIn_example =
    login-LoggedIn services services-IsTokenManager (codes "A@b.cd") (codes "password") (codes "ip")
      before_login (public_token_pair new_pair) logged_in

abbrev spent_claims : RefreshClaims
spent_claims = record { user_id = 1 ∷ []; id = codes "t"; subject = 1 ∷ [] }

-- Account 1 logs out, and comes back with the same token after account 2 has logged out everywhere.
logout_ends_example :
    let ran = logout services (codes "t") (codes "ip") (at_start false) in
    let later = handle_all services ((60, logging_out_all 2) ∷ []) ran.1 in
    (ran.0 ≡ ok tt)
    × (ran.1.db ≡ record (at_start false).db {
      refresh_token = with_revoked (codes "t") (token_of false ∷ []);
    })
    × ((refresh services (codes "t") (codes "ip") (record later { clock = 70 })).0 ≢ ok new_pair)
unfolding eq_bytes
logout_ends_example =
    logout_ends services services-IsTokenManager (codes "t") (codes "ip") spent_claims
      (token_of false) (at_start false) refl refl refl refl refl ((60, logging_out_all 2) ∷ []) 70
      (codes "ip") new_pair

-- Account 1 renews its session, which goes on in the family 5.
refresh_succeeds_example :
    let ran = refresh services (codes "t") (codes "ip") (at_start false) in
    (ran.0 ≡ ok (public_token_pair new_pair))
    × (ran.1.db ≡ after_rotation (codes "t") (codes "new") 1 5 99 (at_start false).db)
unfolding eq_bytes check_rate_limit
refresh_succeeds_example =
    refresh_succeeds services services-IsTokenManager (codes "t") (codes "ip") spent_claims
      (token_of false) owner new_pair (at_start false) _ refl refl refl refl refl refl (omega arith)
      refl refl refl refl refl
