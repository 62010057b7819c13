-- ===== src/Usecase/Auth/Logout.antt =====
-- usecase/auth.go, `Logout`: it ends the session of a token.
use payment_processing.Prelude.{
  ◌≡◌, ◌≢◌, refl, sym, subst, true, false, not, ◌&&◌, some, List, [], ◌∷◌, Bytes, eq_bytes,
  eq_bytes_self, codes, ok, find, ltb, arith, count_where,
}
use payment_processing.Domain.{Time, RefreshClaims, TokenPair}
use payment_processing.Storage.Tables.{TokenRow}
use payment_processing.Storage.Session.{World, ◌>>=◌, statement, new_tx, commit, deferring_rollback}
use payment_processing.Storage.Tokens.{get_refresh_token, revoke_refresh_token, revoke_where}
use payment_processing.Usecase.Auth.Spent.{IsSpent, has_jti}
use payment_processing.Usecase.Auth.Rotation.{with_revoked}
use payment_processing.Usecase.Auth.Revoked.{IsTokenManager}
use payment_processing.Usecase.Auth.Requests.{Request, handle_all, handle_all-IsSpent}
use payment_processing.Usecase.Auth.Refresh.{spent-refused, find-rotated}
use payment_processing.Usecase.Auth.{
  Services, logout, refresh, attempting, check_rate_limit, logout_session,
}

-- A session that is found and live is counted.
pub live-counted :
    (jti : Bytes) (rs : List TokenRow) (r : TokenRow)
    → find (has_jti jti) rs ≡ some r
    → r.revoked ≡ false
    → ltb 0 (count_where (λ x. eq_bytes x.jti jti && not x.revoked) rs) ≡ true
live-counted jti [] r h k = cc
live-counted jti (x ∷ rs) r h k = ground (arith, live-counted jti rs r)

module _ {S : Type 0} (s : Services S) where
  logout-run :
      (claims : RefreshClaims) (row : TokenRow) (w : World S)
      → w.faults ≡ []
      → find (has_jti claims.id) w.tx_db.refresh_token ≡ some row
      → row.revoked ≡ false
      → claims.user_id ≡ s.uuid_string row.user_id
      → let ran = (attempting (get_refresh_token claims.id) >>= logout_session s claims) w in
        (ran.0 ≡ ok tt)
        × (ran.1.db
            ≡ record w.tx_db { refresh_token = with_revoked claims.id w.tx_db.refresh_token })
  unfolding attempting get_refresh_token statement revoke_refresh_token revoke_where commit
  logout-run claims row w quiet found live owner =
      let counted = live-counted claims.id w.tx_db.refresh_token row found live in
      simp (quiet, found, live, owner, counted, eq_bytes_self (s.uuid_string row.user_id))
        (refl, refl)

  -- The session of a request, whatever the limiter has answered.
  abbrev opened : Bytes → World S → World S
  opened ip w = record (check_rate_limit s (codes "logout") ip w).1 {
    tx_db = w.db;
    locked = [];
    faults = [];
  }

  logout-opens :
      (token ip : Bytes) (claims : RefreshClaims) (w : World S)
      → s.validate_refresh_token token w.clock ≡ ok claims
      → w.faults ≡ []
      → logout s token ip w
        ≡ deferring_rollback
            (attempting (get_refresh_token claims.id) >>= logout_session s claims)
            (opened ip w)
  unfolding logout attempting check_rate_limit new_tx
  logout-opens token ip claims w valid quiet = rw (valid, quiet) refl

  logout_revokes :
      (token ip : Bytes) (claims : RefreshClaims) (row : TokenRow) (w : World S)
      → s.validate_refresh_token token w.clock ≡ ok claims
      → w.faults ≡ []
      → find (has_jti claims.id) w.db.refresh_token ≡ some row
      → row.revoked ≡ false
      → claims.user_id ≡ s.uuid_string row.user_id
      → let ran = logout s token ip w in
        let left = record w.db { refresh_token = with_revoked claims.id w.db.refresh_token } in
        (ran.0 ≡ ok tt) × (ran.1.db ≡ left) × (ran.1.tx_db ≡ left)
  unfolding deferring_rollback check_rate_limit
  logout_revokes token ip claims row w valid quiet found live owner =
      let (done, left) = logout-run claims row (opened ip w) refl found live owner in
      rw (logout-opens token ip claims w valid quiet) (done, left, left)

  -- With a token manager that keeps the tables and gives a token the same claims always, where
  -- the database raises no error, a logout with a valid token of a live session of its user
  -- succeeds, whatever the limiter answers; it revokes that session and changes nothing else,
  -- and whatever requests come after, no refresh with the token succeeds.
  pub logout_ends :
      IsTokenManager s
      → (token ip : Bytes) (claims : RefreshClaims) (row : TokenRow) (w : World S)
      → s.validate_refresh_token token w.clock ≡ ok claims
      → w.faults ≡ []
      → find (has_jti claims.id) w.db.refresh_token ≡ some row
      → row.revoked ≡ false
      → claims.user_id ≡ s.uuid_string row.user_id
      → (between : List (Time × Request)) (now : Time) (ip' : Bytes) (pair : TokenPair)
      → let ran = logout s token ip w in
        let later = handle_all s between ran.1 in
        (ran.0 ≡ ok tt)
        × (ran.1.db ≡ record w.db { refresh_token = with_revoked claims.id w.db.refresh_token })
        × ((refresh s token ip' (record later { clock = now })).0 ≢ ok pair)
  logout_ends law token ip claims row w valid quiet found live owner between now ip' pair =
      let (done, left, tx) = logout_revokes token ip claims row w valid quiet found live owner in
      let spent : IsSpent claims.id
          (record w.db { refresh_token = with_revoked claims.id w.db.refresh_token }) =
        (
          record row { revoked = true },
          find-rotated claims.id w.db.refresh_token row found live,
          refl,
        ) in
      let ran = logout s token ip w in
      let later = handle_all s between ran.1 in
      (
        done,
        left,
        spent-refused s law claims token ip' w.clock (record later { clock = now }) pair valid
            (handle_all-IsSpent s law claims.id between ran.1 (
              subst (IsSpent claims.id) (sym left) spent,
              subst (IsSpent claims.id) (sym tx) spent,
            )).0,
      )
