-- ===== src/Usecase/Auth/Renewal.antt =====
-- usecase/auth.go, `Refresh`: a refresh that is due succeeds.
use payment_processing.Prelude.{
  ◌<◌, ◌≡◌, refl, subst, sym, ◌∙◌, ap, true, false, some, List, [], ◌∷◌, ◌++◌, Bytes, eq_bytes_self,
  codes, ok, find, ltb, arith, exists_row, find-exists, ◌==◌,
}
use payment_processing.Domain.{Outcome, Uuid, RefreshClaims, RefreshSession, TokenPair}
use payment_processing.Storage.Tables.{TokenRow, AccountRow}
use payment_processing.Storage.Session.{World, ◌>>=◌, statement, commit, deferring_rollback}
use payment_processing.Storage.Accounts.{get_by_id}
use payment_processing.Storage.Tokens.{
  get_refresh_token, revoke_refresh_token, revoke_where, session_of, token_row,
  save_refresh_token_row, insert_token,
}
use payment_processing.Usecase.Auth.Spent.{has_jti}
use payment_processing.Usecase.Auth.Rotation.{with_revoked, after_rotation}
use payment_processing.Usecase.Auth.Revoked.{IsTokenManager}
use payment_processing.Usecase.Auth.Reuse.{opened, refresh-opens}
use payment_processing.Usecase.Auth.Logout.{live-counted}
use payment_processing.Usecase.Auth.{
  Services, refresh, attempting, check_rate_limit, claimed_session, use_session, map_error,
  issue_pair, is_empty, public_token_pair,
}

-- A jti that no session has is in none of the sessions after a revocation.
revoked-fresh :
    (jti new : Bytes) (rs : List TokenRow)
    → exists_row (has_jti new) rs ≡ false
    → exists_row (has_jti new) (with_revoked jti rs) ≡ false
revoked-fresh jti new [] h = refl
revoked-fresh jti new (r ∷ rs) h = ground (arith, revoked-fresh jti new rs)

owner-there :
    (id : Uuid) (rs : List AccountRow) (row : AccountRow)
    → find (λ r. r.id == id) rs ≡ some row
    → (row.id ≡ id) × (exists_row (λ r. r.id == row.id) rs ≡ true)
owner-there id rs row h =
    let (there, same) = find-exists (λ (r : AccountRow). r.id == id) rs row h in
    let same_id : row.id ≡ id = ground (arith, same) in
    (same_id, subst (λ n. exists_row (λ (r : AccountRow). r.id == n) rs ≡ true) (sym same_id) there)

module _ {S : Type 0} (s : Services S) where
  issue-run :
      (session : RefreshSession) (row : AccountRow) (pair : TokenPair) (w made : World S)
      → w.faults ≡ []
      → find (λ r. r.id == session.user_id) w.tx_db.accounts ≡ some row
      → s.generate_token_pair (s.uuid_string row.id) row.role (record w { faults = [] })
        ≡ (ok pair, made)
      → made.faults ≡ []
      → made.tx_db ≡ w.tx_db
      → exists_row (has_jti pair.jti) w.tx_db.refresh_token ≡ false
      → exists_row (λ r. r.id == row.id) w.tx_db.accounts ≡ true
      → let ran = issue_pair s session w in
        (ran.0 ≡ ok (public_token_pair pair))
        × (ran.1.db ≡ record w.tx_db {
          refresh_token =
              w.tx_db.refresh_token
              ++ (token_row pair.jti row.id session.family_id pair.expires_at ∷ []);
        })
  unfolding get_by_id statement save_refresh_token_row insert_token commit
  issue-run session row pair w made quiet found generates calm same fresh there =
      simp (quiet, found, generates, calm, same, fresh, there) (refl, refl)

  -- The session of a request after its token has been revoked.
  abbrev pub revoked : Bytes → World S → World S
  revoked jti w = record w {
    tx_db = record w.tx_db { refresh_token = with_revoked jti w.tx_db.refresh_token };
    faults = [];
  }

  renewal-issues :
      (claims : RefreshClaims) (row : TokenRow) (w : World S)
      → w.faults ≡ []
      → find (has_jti claims.id) w.tx_db.refresh_token ≡ some row
      → row.revoked ≡ false
      → ltb w.clock row.expires_at ≡ true
      → claims.user_id ≡ s.uuid_string row.user_id
      → (claimed_session s claims >>= use_session s claims) w
        ≡ issue_pair s (session_of row) (revoked claims.id w)
  unfolding map_error get_refresh_token statement attempting revoke_refresh_token revoke_where
  renewal-issues claims row w quiet found live in_time owner =
      let counted = live-counted claims.id w.tx_db.refresh_token row found live in
      simp (quiet, found, live, in_time, owner, counted, eq_bytes_self (s.uuid_string row.user_id))
        refl

  -- With a token manager that keeps the tables, where the limiter lets the request pass, the
  -- database raises no error and the manager makes a pair of a new id, a refresh succeeds with
  -- a valid token of a session that is live, has not expired, and is of the user of the token,
  -- who has an account: it returns the new pair, without its id, revokes the session and adds
  -- one for the new token, in the same family.
  pub refresh_succeeds :
      IsTokenManager s
      → (token ip : Bytes) (claims : RefreshClaims) (row : TokenRow) (account : AccountRow)
        (pair : TokenPair) (w made : World S)
      → is_empty token ≡ false
      → (check_rate_limit s (codes "refresh") ip w).0 ≡ ok tt
      → s.validate_refresh_token token w.clock ≡ ok claims
      → w.faults ≡ []
      → find (has_jti claims.id) w.db.refresh_token ≡ some row
      → row.revoked ≡ false
      → w.clock < row.expires_at
      → claims.user_id ≡ s.uuid_string row.user_id
      → find (λ r. r.id == row.user_id) w.db.accounts ≡ some account
      → s.generate_token_pair
          (s.uuid_string account.id)
          account.role
          (revoked claims.id (opened s ip w))
        ≡ (ok pair, made)
      → made.faults ≡ []
      → exists_row (has_jti pair.jti) w.db.refresh_token ≡ false
      → let ran = refresh s token ip w in
        (ran.0 ≡ ok (public_token_pair pair))
        × (ran.1.db
            ≡ after_rotation claims.id pair.jti row.user_id row.family_id pair.expires_at w.db)
  unfolding deferring_rollback check_rate_limit
  refresh_succeeds law token ip claims row account pair w made given allowed valid quiet found live
        in_time owner has_owner generates calm fresh =
      let opens = refresh-opens s token ip claims w given allowed valid quiet in
      let issues = renewal-issues claims row (opened s ip w) refl found live (ground arith) owner in
      let (same_id, there) = owner-there row.user_id w.db.accounts account has_owner in
      let same : made.tx_db ≡ (revoked claims.id (opened s ip w)).tx_db =
        ap (λ (t : Outcome TokenPair × World S). t.1.tx_db) (sym generates)
        ∙ (law.same_tables _ _ _).1 in
      let (done, left) =
        issue-run (session_of row) account pair (revoked claims.id (opened s ip w)) made refl
          has_owner generates calm same (revoked-fresh claims.id pair.jti w.db.refresh_token fresh)
          there in
      rw (opens, issues)
        (
          done,
          left
              ∙ ap (λ id. after_rotation claims.id pair.jti id row.family_id pair.expires_at w.db)
                  same_id,
        )
