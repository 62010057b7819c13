-- ===== src/Storage/Tokens.antt =====
-- storage.go `txToken`: the table of refresh sessions.
use payment_processing.Prelude.{
  ℕ, Bool, true, false, ◌&&◌, not, Option, none, some, [], ◌∷◌, ◌++◌, Bytes, eq_bytes, ok, err,
  find, exists_row, update_where, count_where, ltb, ◌==◌, if◌then◌else◌,
}
use payment_processing.Domain.{
  Outcome, Uuid, Time, RefreshSession, pg_error, save_refresh_token, refresh_token_not_found,
  user_not_found,
}
use payment_processing.Storage.Tables.{TokenRow, Db}
use payment_processing.Storage.Session.{M, statement, guard, pure, ◌>>=◌}
use payment_processing.Storage.Transfers.{has_account}

abbrev pub token_row : Bytes → Uuid → Uuid → Time → TokenRow
token_row jti user_id family_id expires_at = record {
  jti = jti;
  user_id = user_id;
  family_id = family_id;
  revoked = false;
  expires_at = expires_at;
}

-- The primary key and the foreign key.
unfoldable pub insert_token : TokenRow → Db → Outcome (Unit {0} × Db)
insert_token row db =
    if exists_row (λ r. eq_bytes r.jti row.jti) db.refresh_token
    then err (pg_error "23505")
    else if not (has_account row.user_id db)
    then err (pg_error "23503")
    else ok (tt, record db { refresh_token = db.refresh_token ++ (row ∷ []) })

-- UPDATE refresh_token SET revoked = true WHERE p AND revoked = false.
unfoldable pub revoke_where : (TokenRow → Bool) → Db → Outcome (ℕ × Db)
revoke_where p db =
    let hit = λ (r : TokenRow). p r && not r.revoked in
    ok (
      count_where hit db.refresh_token,
      record db {
        refresh_token = update_where hit (λ r. record r { revoked = true }) db.refresh_token;
      },
    )

abbrev pub session_of : TokenRow → RefreshSession
session_of r = record {
  user_id = r.user_id;
  family_id = r.family_id;
  revoked = r.revoked;
  expires_at = r.expires_at;
}

abbrev pub session_or_missing : Db → Option TokenRow → Outcome (RefreshSession × Db)
session_or_missing db none = err refresh_token_not_found
session_or_missing db (some r) = ok (session_of r, db)

-- Every error of the statement becomes ErrSaveRefreshToken.
abbrev pub save_outcome : Outcome (Unit {0}) → Outcome (Unit {0})
save_outcome (ok a) = ok a
save_outcome (err e) = err save_refresh_token

module _ {S : Type 0} where
  unfoldable pub save_refresh_token_row : Bytes → Uuid → Uuid → Time → M S (Unit {0})
  unfolding insert_token
  save_refresh_token_row jti user_id family_id expires_at w =
      let (r, w') =
        statement (λ now. insert_token (token_row jti user_id family_id expires_at)) w in
      (save_outcome r, w')

  unfoldable pub get_refresh_token : Bytes → M S RefreshSession
  get_refresh_token jti =
      statement (λ now db. session_or_missing db (find (λ r. eq_bytes r.jti jti) db.refresh_token))

  unfoldable pub revoke_refresh_token : Bytes → M S (Unit {0})
  unfolding revoke_where
  revoke_refresh_token jti = do
    rows ← statement (λ now. revoke_where (λ r. eq_bytes r.jti jti))
    guard (ltb 0 rows) refresh_token_not_found

  unfoldable pub revoke_all_user_tokens : Uuid → M S (Unit {0})
  unfolding revoke_where
  revoke_all_user_tokens user_id = do
    rows ← statement (λ now. revoke_where (λ r. r.user_id == user_id))
    guard (ltb 0 rows) user_not_found

  unfoldable pub revoke_token_family : Uuid → M S (Unit {0})
  unfolding revoke_where
  revoke_token_family family_id = do
    _ ← statement (λ now. revoke_where (λ r. r.family_id == family_id))
    pure tt
