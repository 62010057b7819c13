-- ===== src/Usecase/Auth.antt =====
-- internal/usecase/auth.go: `AuthService`. Logging is left out, and so is the comparison with a dummy
-- hash, which only takes time. A panic of uuid.New is an error.
pub mod Credentials
pub mod Spent
pub mod Revoked
pub mod Requests
pub mod Rotation
pub mod Refresh
pub mod Reuse
pub mod Registration
pub mod Sessions
pub mod Logout
pub mod Renewal
mod Tests
use payment_processing.Prelude.{
  trim_space, ℕ, Bool, true, false, ◌&&◌, ◌||◌, not, [], ◌∷◌, ◌++◌, Bytes, codes, eq_bytes, ok, err,
  take, ltb, if◌then◌else◌,
}
use payment_processing.Decimal.{zero_decimal}
use payment_processing.Domain.{
  Error, Outcome, Uuid, Time, Account, RefreshSession, TokenPair, RefreshClaims, Cache,
  account_not_found, refresh_token_not_found, user_not_found, token_expired, invalid_credentials,
  invalid_refresh_token, refresh_token_expired, refresh_token_reuse,
}
use payment_processing.Storage.Session.{
  World, M, pure, fail, lift, guard, ◌>>=◌, ◌>>◌, new_tx, commit, deferring_rollback, new_uuid,
}
use payment_processing.Storage.Accounts.{create, get_by_id, get_by_email}
use payment_processing.Storage.Tokens.{
  save_refresh_token_row, get_refresh_token, revoke_refresh_token, revoke_all_user_tokens,
  revoke_token_family,
}
use payment_processing.Usecase.Transfers.{hex_string}
use payment_processing.Usecase.Auth.Credentials.{
  validate_registration, valid_email, valid_password, normalize_email,
}

-- What the service calls: uuid.UUID.String, sha256.Sum256, bcrypt, the rate limiter over its state,
-- and `tokenManager`, which generates a pair of tokens in the session of the request.
pub record Services (S : Type 0) : Type 0 where
  pub uuid_string : Uuid → Bytes
  pub sha256 : Bytes → Bytes
  pub generate_hash : Bytes → Outcome Bytes
  pub compare_hash : Bytes → Bytes → Bool
  pub cache : Cache S
  pub generate_token_pair : Bytes → Bytes → M S TokenPair
  pub validate_refresh_token : Bytes → Time → Outcome RefreshClaims

abbrev pub role_user : Bytes
role_user = codes "user"

-- What a chain does with an error that it looks at.
unfoldable pub attempting : {S A : Type 0} → M S A → M S (Outcome A)
attempting m w = let (r, w') = m w in (ok r, w')

abbrev map_outcome : {A : Type 0} → (Error → Error) → Outcome A → Outcome A
map_outcome f (ok a) = ok a
map_outcome f (err e) = err (f e)

unfoldable pub map_error : {S A : Type 0} → (Error → Error) → M S A → M S A
map_error f m w = let (r, w') = m w in (map_outcome f r, w')

unfoldable pub is_refresh_token_not_found : Error → Bool
is_refresh_token_not_found refresh_token_not_found = true
is_refresh_token_not_found _ = false

unfoldable pub login_error : Error → Error
login_error account_not_found = invalid_credentials
login_error e = e

unfoldable pub claims_error : Error → Error
claims_error token_expired = refresh_token_expired
claims_error _ = invalid_refresh_token

unfoldable pub session_error : Error → Error
session_error refresh_token_not_found = invalid_refresh_token
session_error e = e

-- `err != nil && !errors.Is(err, ErrRefreshTokenNotFound)`, and the same with ErrUserNotFound.
abbrev unless_not_found : Outcome (Unit {0}) → Outcome (Unit {0})
unless_not_found (err refresh_token_not_found) = ok tt
unless_not_found r = r

abbrev unless_no_user : Outcome (Unit {0}) → Outcome (Unit {0})
unless_no_user (err user_not_found) = ok tt
unless_no_user r = r

abbrev pub is_empty : Bytes → Bool
is_empty [] = true
is_empty (c ∷ cs) = false

unfoldable pub public_token_pair : TokenPair → TokenPair
public_token_pair pair = record pair { jti = []; expires_at = 0 }

module _ {S : Type 0} (s : Services S) where
  unfoldable pub check_rate_limit : Bytes → Bytes → M S (Unit {0})
  check_rate_limit operation identity w =
      let (r, cache) =
        s.cache.check_rate_limit (codes "auth:" ++ (operation ++ (codes ":" ++ identity)))
          w.cache in
      (r, record w { cache = cache })

  unfoldable pub login_rate_identity : Bytes → Bytes → Bytes
  unfolding hex_string
  login_rate_identity ip email = ip ++ (codes ":" ++ hex_string (take 8 (s.sha256 email)))

  abbrev pub new_account : Bytes → Bytes → Bytes → Uuid → Account
  new_account email name password_hash id = record {
    id = id;
    name = name;
    email = email;
    balance = zero_decimal;
    password_hash = password_hash;
    role = role_user;
  }

  abbrev store_account : Bytes → Bytes → Bytes → M S Account
  store_account email name password_hash = do
    id ← new_uuid
    create (new_account email name password_hash id)
    commit
    pure (new_account email name password_hash id)

  abbrev register_normalized : Bytes → Bytes → Bytes → Bytes → M S Account
  register_normalized email password name ip = do
    lift (validate_registration email password name)
    check_rate_limit (codes "register") ip
    password_hash ← lift (s.generate_hash password)
    new_tx
    deferring_rollback (store_account email name password_hash)

  unfoldable pub register : Bytes → Bytes → Bytes → Bytes → M S Account
  unfolding normalize_email trim_space check_rate_limit
  register email password name ip =
      register_normalized (normalize_email email) password (trim_space name) ip

  unfoldable pub load_account_for_login : Bytes → M S Account
  load_account_for_login email =
      new_tx >> deferring_rollback (do account ← get_by_email email; commit; pure account)

  unfoldable pub save_refresh_session : TokenPair → Uuid → Uuid → M S (Unit {0})
  save_refresh_session pair user_id family_id =
      new_tx
      >> deferring_rollback
          (do save_refresh_token_row pair.jti user_id family_id pair.expires_at; commit)

  abbrev pub start_session : Account → M S TokenPair
  start_session account = do
    pair ← s.generate_token_pair (s.uuid_string account.id) account.role
    family_id ← new_uuid
    save_refresh_session pair account.id family_id
    pure (public_token_pair pair)

  abbrev login_normalized : Bytes → Bytes → Bytes → M S TokenPair
  login_normalized email password ip = do
    check_rate_limit (codes "login") (login_rate_identity ip email)
    guard (valid_email email && valid_password password) invalid_credentials
    account ← map_error login_error (load_account_for_login email)
    guard (s.compare_hash account.password_hash password) invalid_credentials
    start_session account

  unfoldable pub login : Bytes → Bytes → Bytes → M S TokenPair
  unfolding normalize_email login_rate_identity load_account_for_login save_refresh_session
      map_error
  login email password ip = login_normalized (normalize_email email) password ip

  unfoldable pub revoke_family_after_reuse : {A : Type 0} → Uuid → M S A
  revoke_family_after_reuse family_id = do
    revoke_token_family family_id
    commit
    fail refresh_token_reuse

  -- The session has expired: it is revoked too.
  abbrev pub expire_session : RefreshClaims → M S TokenPair
  expire_session claims = do
    revoked ← attempting (revoke_refresh_token claims.id)
    lift (unless_not_found revoked)
    commit
    fail refresh_token_expired

  -- The new pair, in the family of the old one.
  abbrev pub issue_pair : RefreshSession → M S TokenPair
  issue_pair session = do
    account ← get_by_id session.user_id
    pair ← s.generate_token_pair (s.uuid_string account.id) account.role
    save_refresh_token_row pair.jti account.id session.family_id pair.expires_at
    commit
    pure (public_token_pair pair)

  abbrev pub after_revocation : RefreshSession → Outcome (Unit {0}) → M S TokenPair
  after_revocation session (ok _) = issue_pair session
  after_revocation session (err e) =
      if is_refresh_token_not_found e then revoke_family_after_reuse session.family_id else fail e

  abbrev pub rotate : RefreshClaims → RefreshSession → M S TokenPair
  rotate claims session = attempting (revoke_refresh_token claims.id) >>= after_revocation session

  abbrev pub use_session : RefreshClaims → RefreshSession → M S TokenPair
  use_session claims session w =
      if session.revoked
      then revoke_family_after_reuse session.family_id w
      else if not (ltb w.clock session.expires_at)
      then expire_session claims w
      else rotate claims session w

  abbrev pub claimed_session : RefreshClaims → M S RefreshSession
  claimed_session claims = do
    session ← map_error session_error (get_refresh_token claims.id)
    guard (eq_bytes claims.user_id (s.uuid_string session.user_id)) invalid_refresh_token
    pure session

  unfoldable pub refresh : Bytes → Bytes → M S TokenPair
  unfolding check_rate_limit map_error attempting is_refresh_token_not_found
      revoke_family_after_reuse
  refresh refresh_token ip = do
    guard (not (is_empty refresh_token)) invalid_refresh_token
    check_rate_limit (codes "refresh") ip
    claims ← map_error claims_error (λ w. (s.validate_refresh_token refresh_token w.clock, w))
    new_tx
    deferring_rollback (claimed_session claims >>= use_session claims)

  abbrev revoke_for_logout : RefreshClaims → Outcome (Unit {0}) → M S (Unit {0})
  revoke_for_logout claims (ok _) = commit
  revoke_for_logout claims (err e) = if is_refresh_token_not_found e then pure tt else fail e

  abbrev logout_session : RefreshClaims → Outcome RefreshSession → M S (Unit {0})
  logout_session claims (ok session) =
      if not (eq_bytes claims.user_id (s.uuid_string session.user_id)) || session.revoked
      then pure tt
      else attempting (revoke_refresh_token claims.id) >>= revoke_for_logout claims
  logout_session claims (err e) = if is_refresh_token_not_found e then pure tt else fail e

  abbrev logout_claims : Outcome RefreshClaims → M S (Unit {0})
  logout_claims (err e) = pure tt
  logout_claims (ok claims) = do
    new_tx
    deferring_rollback (attempting (get_refresh_token claims.id) >>= logout_session claims)

  -- The rate limiter is asked, and its answer ignored.
  unfoldable pub logout : Bytes → Bytes → M S (Unit {0})
  unfolding check_rate_limit attempting is_refresh_token_not_found
  logout refresh_token ip = do
    _ ← attempting (check_rate_limit (codes "logout") ip)
    claims ← attempting (λ w. (s.validate_refresh_token refresh_token w.clock, w))
    logout_claims claims

  unfoldable pub logout_all : Uuid → M S (Unit {0})
  unfolding attempting
  logout_all user_id =
      new_tx
      >> deferring_rollback (do
        revoked ← attempting (revoke_all_user_tokens user_id)
        lift (unless_no_user revoked)
        commit)
