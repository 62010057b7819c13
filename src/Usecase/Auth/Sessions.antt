-- ===== src/Usecase/Auth/Sessions.antt =====
-- What `Login` has checked and stored where it succeeds.
use payment_processing.Prelude.{
  pair_of, subst, ◌≡◌, refl, sym, ◌∙◌, ap, true, ◌&&◌, Option, none, some, List, [], ◌∷◌, ◌++◌,
  Bytes, eq_bytes, codes, ok, find,
}
use payment_processing.Domain.{Outcome, Uuid, Time, Account, TokenPair, invalid_credentials}
use payment_processing.Storage.Tables.{AccountRow, Db, lower}
use payment_processing.Storage.Session.{World, guard, new_uuid, new_tx, commit}
use payment_processing.Storage.Session.Frames.{
  bind-ok, statement-ok, guard-ok, deferring-ok, new_tx-ok, commit-ok, SameOutside-ran,
  Frame-new_uuid,
}
use payment_processing.Storage.Accounts.{get_by_email, account_of, account_or_missing}
use payment_processing.Storage.Tokens.{token_row, save_refresh_token_row}
use payment_processing.Usecase.Auth.Credentials.{normalize_email, valid_email, valid_password}
use payment_processing.Usecase.Auth.Revoked.{IsTokenManager}
use payment_processing.Usecase.Auth.Refresh.{mapped-ok}
use payment_processing.Usecase.Auth.Registration.{returned-ok, asked-db}
use payment_processing.Usecase.Auth.Rotation.{save-ok}
use payment_processing.Usecase.Auth.{
  Services, login, login_error, map_error, login_rate_identity, load_account_for_login,
  save_refresh_session, start_session, check_rate_limit, public_token_pair,
}

abbrev pub by_email : Bytes → List AccountRow → Option AccountRow
by_email email = find (λ r. eq_bytes (lower r.email) (lower email))

-- A new session of the account with the email and the password.
pub record LoggedIn {S : Type 0} (s : Services S) (email password : Bytes) (db db' : Db)
    : Type 0 where
  pub checked : (valid_email (normalize_email email) && valid_password password) ≡ true
  pub account : AccountRow
  pub found : by_email (normalize_email email) db.accounts ≡ some account
  pub same_password : s.compare_hash account.password_hash password ≡ true
  pub jti : Bytes
  pub family_id : Uuid
  pub expires_at : Time
  pub left : db' ≡ record db {
    refresh_token = db.refresh_token ++ (token_row jti account.id family_id expires_at ∷ []);
  }

email_found :
    (db : Db) (o : Option AccountRow) {a : Account} {db' : Db}
    → account_or_missing db o ≡ ok (a, db')
    → (db' ≡ db) × ((r : AccountRow) × (o ≡ some r) × (a ≡ account_of r))
email_found db none h = cc
email_found db (some r) h = (cc, (r, refl, cc))

module _ {S : Type 0} (s : Services S) where
  get_by_email-ok :
      (email : Bytes) (w : World S) {a : Account} {w' : World S}
      → get_by_email email w ≡ (ok a, w')
      → (w'.tx_db ≡ w.tx_db)
        × ((r : AccountRow) × (by_email email w.tx_db.accounts ≡ some r) × (a ≡ account_of r))
  unfolding get_by_email
  get_by_email-ok email w h =
      email_found w.tx_db (by_email email w.tx_db.accounts) (statement-ok _ w h)

  load-ok :
      (email : Bytes) (w : World S) {a : Account} {w' : World S}
      → load_account_for_login s email w ≡ (ok a, w')
      → (w'.db ≡ w.db)
        × ((r : AccountRow) × (by_email email w.db.accounts ≡ some r) × (a ≡ account_of r))
  unfolding load_account_for_login
  load-ok email w h =
      let (_, w1, ran1, h1) = bind-ok new_tx _ w h in
      let (u, body, last) = deferring-ok _ w1 h1 in
      let (account, w2, ran2, h2) = bind-ok (get_by_email email) _ w1 body in
      let (_, w3, ran3, h3) = bind-ok commit _ w2 h2 in
      let (is_account, same3) = returned-ok s account w3 h3 in
      let (same2, (r, hit, shown)) = get_by_email-ok email w1 ran2 in
      let tables = (new_tx-ok w ran1).0 in
      (
        last ∙ ap (λ (v : World S). v.db) same3 ∙ commit-ok w2 ran3 ∙ same2 ∙ tables,
        (r, subst (λ (d : Db). by_email email d.accounts ≡ some r) tables hit, is_account ∙ shown),
      )

  save_session-ok :
      (pair : TokenPair) (user_id family_id : Uuid) (w : World S) {w' : World S}
      → save_refresh_session s pair user_id family_id w ≡ (ok tt, w')
      → w'.db ≡ record w.db {
        refresh_token =
            w.db.refresh_token ++ (token_row pair.jti user_id family_id pair.expires_at ∷ []);
      }
  unfolding save_refresh_session
  save_session-ok pair user_id family_id w h =
      let (_, w1, ran1, h1) = bind-ok new_tx _ w h in
      let (u, body, last) = deferring-ok _ w1 h1 in
      let (_, w2, ran2, h2) =
        bind-ok (save_refresh_token_row pair.jti user_id family_id pair.expires_at) _ w1 body in
      last
      ∙ commit-ok w2 h2
      ∙ save-ok pair.jti user_id family_id pair.expires_at w1 ran2
      ∙ ap
          (λ (d : Db). record d {
            refresh_token =
                d.refresh_token ++ (token_row pair.jti user_id family_id pair.expires_at ∷ []);
          })
          (new_tx-ok w ran1).0

  module _ (law : IsTokenManager s) where
    start-ok :
        (account : Account) (w : World S) {pair : TokenPair} {w' : World S}
        → start_session s account w ≡ (ok pair, w')
        → (jti : Bytes) × (family_id : Uuid) × (t : Time) × (w'.db ≡ record w.db {
          refresh_token = w.db.refresh_token ++ (token_row jti account.id family_id t ∷ []);
        })
    start-ok account w h =
        let (made, w1, ran1, h1) =
          bind-ok (s.generate_token_pair (s.uuid_string account.id) account.role) _ w h in
        let (family_id, w2, ran2, h2) = bind-ok new_uuid _ w1 h1 in
        let (_, w3, ran3, h3) =
          bind-ok (save_refresh_session s made account.id family_id) _ w2 h2 in
        let (_, same3) = returned-ok s (public_token_pair made) w3 h3 in
        let same1 : w1.db ≡ w.db =
          ap (λ (t : Outcome TokenPair × World S). t.1.db) (sym ran1) ∙ (law.same_tables _ _ w).0 in
        let same2 : w2.db ≡ w.db = (SameOutside-ran new_uuid Frame-new_uuid w1 ran2).db ∙ same1 in
        (
          made.jti,
          family_id,
          made.expires_at,
          ap (λ (v : World S). v.db) same3
              ∙ save_session-ok made account.id family_id w2 ran3
              ∙ ap
                  (λ (d : Db). record d {
                    refresh_token =
                        d.refresh_token
                        ++ (token_row made.jti account.id family_id made.expires_at ∷ []);
                  })
                  same2,
        )

    -- With a token manager that keeps the tables, a login succeeds only with a valid email that
    -- an account has, case aside, and a password that matches its hash; a live session of that
    -- account is then added, and nothing else changes.
    pub login-LoggedIn :
        (email password ip : Bytes) (w : World S) (pair : TokenPair)
        → (login s email password ip w).0 ≡ ok pair
        → LoggedIn s email password w.db (login s email password ip w).1.db
    unfolding login
    login-LoggedIn email password ip w pair h =
        let address = normalize_email email in
        let ran : login s email password ip w ≡ (ok pair, (login s email password ip w).1) =
          pair_of _ h in
        let (_, w1, ran1, h1) =
          bind-ok (check_rate_limit s (codes "login") (login_rate_identity s ip address)) _ w ran in
        let (_, w2, ran2, h2) =
          bind-ok (guard (valid_email address && valid_password password) invalid_credentials) _ w1
            h1 in
        let (account, w3, ran3, h3) =
          bind-ok (map_error login_error (load_account_for_login s address)) _ w2 h2 in
        let (_, w4, ran4, h4) =
          bind-ok (guard (s.compare_hash account.password_hash password) invalid_credentials) _ w3
            h3 in
        let (checked, same2) =
          guard-ok (valid_email address && valid_password password) invalid_credentials w1 ran2 in
        let (loaded, (r, hit, shown)) =
          load-ok address w2 (mapped-ok login_error (load_account_for_login s address) w2 ran3) in
        let (matched, same4) =
          guard-ok (s.compare_hash account.password_hash password) invalid_credentials w3 ran4 in
        let (jti, family_id, t, left) = start-ok account w4 h4 in
        let begun : w2.db ≡ w.db =
          ap (λ (v : World S). v.db) (sym same2)
          ∙ asked-db s (codes "login") (login_rate_identity s ip address) w ran1 in
        let tables : w4.db ≡ w.db = ap (λ (v : World S). v.db) (sym same4) ∙ loaded ∙ begun in
        record {
          checked = checked;
          account = r;
          found = subst (λ (d : Db). by_email address d.accounts ≡ some r) begun hit;
          same_password =
              subst (λ (a : Account). s.compare_hash a.password_hash password ≡ true) shown matched;
          jti = jti;
          family_id = family_id;
          expires_at = t;
          left =
              left
              ∙ ap
                  (λ (d : Db). record d {
                    refresh_token = d.refresh_token ++ (token_row jti account.id family_id t ∷ []);
                  })
                  tables
              ∙ ap
                  (λ (a : Account). record w.db {
                    refresh_token = w.db.refresh_token ++ (token_row jti a.id family_id t ∷ []);
                  })
                  shown;
        }
