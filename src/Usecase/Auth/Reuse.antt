-- ===== src/Usecase/Auth/Reuse.antt =====
-- usecase/auth.go, `Refresh` and `revokeFamilyAfterReuse`: a token that is used again.
use payment_processing.Prelude.{
  ◌≡◌, refl, true, false, not, ◌&&◌, some, List, [], ◌∷◌, Bytes, eq_bytes_self, codes, ok, err,
  find, update_where, All, ◌==◌, arith,
}
use payment_processing.Domain.{Uuid, RefreshClaims, refresh_token_reuse}
use payment_processing.Storage.Tables.{TokenRow}
use payment_processing.Storage.Session.{World, ◌>>=◌, statement, new_tx, commit, deferring_rollback}
use payment_processing.Storage.Tokens.{get_refresh_token, revoke_token_family, revoke_where}
use payment_processing.Usecase.Auth.Spent.{has_jti}
use payment_processing.Usecase.Auth.{
  Services, refresh, map_error, revoke_family_after_reuse, is_empty, check_rate_limit,
  claimed_session, use_session,
}

-- The sessions with every one of a family revoked.
abbrev pub family_revoked : Uuid → List TokenRow → List TokenRow
family_revoked family_id =
    update_where (λ r. (r.family_id == family_id) && not r.revoked)
      (λ r. record r { revoked = true })

family-All :
    (family_id : Uuid) (rs : List TokenRow)
    → All (λ r. r.family_id ≡ family_id → r.revoked ≡ true) (family_revoked family_id rs)
family-All family_id [] = tt
family-All family_id (r ∷ rs) = (λ e. ground arith, family-All family_id rs)

module _ {S : Type 0} (s : Services S) where
  reuse-run :
      (claims : RefreshClaims) (row : TokenRow) (w : World S)
      → w.faults ≡ []
      → find (has_jti claims.id) w.tx_db.refresh_token ≡ some row
      → row.revoked ≡ true
      → claims.user_id ≡ s.uuid_string row.user_id
      → let ran = (claimed_session s claims >>= use_session s claims) w in
        (ran.0 ≡ err refresh_token_reuse)
        × (ran.1.db
            ≡ record w.tx_db { refresh_token = family_revoked row.family_id w.tx_db.refresh_token })
  unfolding map_error get_refresh_token statement revoke_family_after_reuse revoke_token_family
      revoke_where commit
  reuse-run claims row w quiet found revoked owner =
      simp (quiet, found, revoked, owner, eq_bytes_self (s.uuid_string row.user_id)) (refl, refl)

  -- The session of a request that the limiter lets pass.
  abbrev pub opened : Bytes → World S → World S
  opened ip w = record (check_rate_limit s (codes "refresh") ip w).1 {
    tx_db = w.db;
    locked = [];
    faults = [];
  }

  pub refresh-opens :
      (token ip : Bytes) (claims : RefreshClaims) (w : World S)
      → is_empty token ≡ false
      → (check_rate_limit s (codes "refresh") ip w).0 ≡ ok tt
      → s.validate_refresh_token token w.clock ≡ ok claims
      → w.faults ≡ []
      → refresh s token ip w
        ≡ deferring_rollback (claimed_session s claims >>= use_session s claims) (opened ip w)
  unfolding refresh map_error check_rate_limit new_tx
  refresh-opens token ip claims w given allowed valid quiet = rw (given, allowed, valid, quiet) refl

  -- A valid token whose session is revoked, where the limiter lets the request pass and the
  -- database raises no error, is refused as a reuse, and every session of its family is
  -- revoked; nothing else changes.
  pub refresh_reuse :
      (token ip : Bytes) (claims : RefreshClaims) (row : TokenRow) (w : World S)
      → is_empty token ≡ false
      → (check_rate_limit s (codes "refresh") ip w).0 ≡ ok tt
      → s.validate_refresh_token token w.clock ≡ ok claims
      → w.faults ≡ []
      → find (has_jti claims.id) w.db.refresh_token ≡ some row
      → row.revoked ≡ true
      → claims.user_id ≡ s.uuid_string row.user_id
      → let ran = refresh s token ip w in
        (ran.0 ≡ err refresh_token_reuse)
        × (ran.1.db
            ≡ record w.db { refresh_token = family_revoked row.family_id w.db.refresh_token })
        × All (λ r. r.family_id ≡ row.family_id → r.revoked ≡ true) ran.1.db.refresh_token
  unfolding deferring_rollback check_rate_limit
  refresh_reuse token ip claims row w given allowed valid quiet found revoked owner =
      let (refused, left) = reuse-run claims row (opened ip w) refl found revoked owner in
      rw (refresh-opens token ip claims w given allowed valid quiet)
        (refused, left, rw left (family-All row.family_id w.db.refresh_token))
