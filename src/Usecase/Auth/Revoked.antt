-- ===== src/Usecase/Auth/Revoked.antt =====
-- usecase/auth.go: the requests, against a session that is revoked.
use payment_processing.Prelude.{
  ◌≡◌, Bool, not, Bytes, ok, err, ltb, Bool-cases, inl, inr, if◌then◌else◌,
}
use payment_processing.Domain.{Error, Outcome, Uuid, Time, RefreshSession, RefreshClaims, TokenPair}
use payment_processing.Storage.Tables.{Db}
use payment_processing.Storage.Session.{M, World}
use payment_processing.Storage.Session.Preserves.{Preserves, preserve_rules}
use payment_processing.Usecase.Auth.Spent.{
  IsSpent, Spent-save, Spent-create, Spent-get_by_id, Spent-get_by_email, Spent-get_refresh_token,
  Spent-revoke, Spent-revoke_all, Spent-revoke_family,
}
use payment_processing.Usecase.Auth.{
  Services, register, login, refresh, logout, logout_all, attempting, map_error, check_rate_limit,
  revoke_family_after_reuse, load_account_for_login, save_refresh_session, issue_pair,
  expire_session, rotate, logout_session, logout_claims, revoke_for_logout, after_revocation,
  use_session,
}

-- What `tokenManager` promises: generating tokens changes no table, and the claims of a token are
-- the same whenever it is valid.
pub record IsTokenManager {S : Type 0} (s : Services S) : Type 0 where
  pub same_tables :
      (user role : Bytes) (w : World S)
      → ((s.generate_token_pair user role w).1.db ≡ w.db)
        × ((s.generate_token_pair user role w).1.tx_db ≡ w.tx_db)
  pub same_claims :
      (token : Bytes) (now later : Time) (a b : RefreshClaims)
      → s.validate_refresh_token token now ≡ ok a
      → s.validate_refresh_token token later ≡ ok b
      → a ≡ b

module _ {S A : Type 0} {P : Db → Type 0} where
  Preserves-attempting : (m : M S A) → Preserves P m → Preserves P (attempting m)
  unfolding attempting
  Preserves-attempting m h = record { at = h.at }

  Preserves-map_error :
      (f : Error → Error) (m : M S A) → Preserves P m → Preserves P (map_error f m)
  unfolding map_error
  Preserves-map_error f m h = record { at = h.at }

  Preserves-test :
      (b : World S → Bool) (m n : M S A)
      → Preserves P m
      → Preserves P n
      → Preserves P (λ w. if b w then m w else n w)
  Preserves-test b m n h k = record {
    at = λ w p. elim (Bool-cases (b w)) [
      | inl first ↦ rw first (h.at w p)
      | inr second ↦ rw second (k.at w p)
    ];
  }

  Preserves-read : (f : World S → Outcome A) → Preserves P (λ w. (f w, w))
  Preserves-read f = record { at = λ w h. h }

module _ {S : Type 0} (s : Services S) (law : IsTokenManager s) (jti : Bytes) where
  Spent-generate : (user role : Bytes) → Preserves (IsSpent jti) (s.generate_token_pair user role)
  Spent-generate user role = record {
    at = λ w h. rw ((law.same_tables user role w).0, (law.same_tables user role w).1) h;
  }

  Spent-rate :
      (operation identity : Bytes) → Preserves (IsSpent jti) (check_rate_limit s operation identity)
  unfolding check_rate_limit
  Spent-rate operation identity = record { at = λ w h. h }

  ruleset spent_rules = (
    Spent-generate, Spent-rate, Spent-save, Spent-create, Spent-get_by_id, Spent-get_by_email,
    Spent-get_refresh_token, Spent-revoke, Spent-revoke_all, Spent-revoke_family,
    Preserves-attempting, Preserves-map_error, Preserves-read, preserve_rules,
  )

  Spent-load : (email : Bytes) → Preserves (IsSpent jti) (load_account_for_login s email)
  unfolding load_account_for_login
  Spent-load email = search spent_rules depth 12

  Spent-save_session :
      (pair : TokenPair) (u f : Uuid) → Preserves (IsSpent jti) (save_refresh_session s pair u f)
  unfolding save_refresh_session
  Spent-save_session pair u f = search spent_rules depth 12

  Spent-family :
      {A : Type 0} (f : Uuid) → Preserves (IsSpent jti) (revoke_family_after_reuse s {A = A} f)
  unfolding revoke_family_after_reuse
  Spent-family f = search spent_rules depth 12

  pub Spent-register :
      (email password name ip : Bytes) → Preserves (IsSpent jti) (register s email password name ip)
  unfolding register
  Spent-register email password name ip = search spent_rules depth 14

  pub Spent-login :
      (email password ip : Bytes) → Preserves (IsSpent jti) (login s email password ip)
  unfolding login
  Spent-login email password ip = search (Spent-load, Spent-save_session, spent_rules) depth 14

  Spent-issue : (session : RefreshSession) → Preserves (IsSpent jti) (issue_pair s session)
  Spent-issue session = search spent_rules depth 14

  Spent-after :
      (session : RefreshSession) (r : Outcome (Unit {0}))
      → Preserves (IsSpent jti) (after_revocation s session r)
  Spent-after session (ok _) = Spent-issue session
  Spent-after session (err e) = search (Spent-family, spent_rules)

  Spent-use :
      (claims : RefreshClaims) (session : RefreshSession)
      → Preserves (IsSpent jti) (use_session s claims session)
  Spent-use claims session =
      Preserves-test (λ w. session.revoked) (revoke_family_after_reuse s session.family_id)
        (λ w.
          if not (ltb w.clock session.expires_at)
          then expire_session s claims w
          else rotate s claims session w)
        (Spent-family session.family_id)
        (Preserves-test (λ w. not (ltb w.clock session.expires_at)) (expire_session s claims)
          (rotate s claims session) (search spent_rules depth 14)
          (search (Spent-after, spent_rules)))

  pub Spent-refresh :
      (refresh_token ip : Bytes) → Preserves (IsSpent jti) (refresh s refresh_token ip)
  unfolding refresh
  Spent-refresh refresh_token ip = search (Spent-use, spent_rules) depth 14

  Spent-revoke_for_logout :
      (claims : RefreshClaims) (r : Outcome (Unit {0}))
      → Preserves (IsSpent jti) (revoke_for_logout s claims r)
  Spent-revoke_for_logout claims (ok _) = search spent_rules
  Spent-revoke_for_logout claims (err e) = search spent_rules

  Spent-logout_session :
      (claims : RefreshClaims) (r : Outcome RefreshSession)
      → Preserves (IsSpent jti) (logout_session s claims r)
  Spent-logout_session claims (ok session) = search (Spent-revoke_for_logout, spent_rules) depth 10
  Spent-logout_session claims (err e) = search spent_rules

  Spent-logout_claims : (r : Outcome RefreshClaims) → Preserves (IsSpent jti) (logout_claims s r)
  Spent-logout_claims (ok claims) = search (Spent-logout_session, spent_rules) depth 10
  Spent-logout_claims (err e) = search spent_rules

  pub Spent-logout :
      (refresh_token ip : Bytes) → Preserves (IsSpent jti) (logout s refresh_token ip)
  unfolding logout
  Spent-logout refresh_token ip = search (Spent-logout_claims, spent_rules) depth 10

  pub Spent-logout_all : (user_id : Uuid) → Preserves (IsSpent jti) (logout_all s user_id)
  unfolding logout_all
  Spent-logout_all user_id = search spent_rules depth 10
