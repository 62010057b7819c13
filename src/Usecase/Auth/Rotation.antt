-- ===== src/Usecase/Auth/Rotation.antt =====
-- What the parts of a refresh that succeeds have found and done.
use payment_processing.Prelude.{
  ◌<◌, ◌≡◌, ◌≢◌, refl, sym, ◌∙◌, ap, true, false, not, ◌&&◌, Option, some, ◌==◌, find-exists, none,
  Option, ◌==◌, find-exists, List, [], ◌∷◌, ◌++◌, Bytes, eq_bytes, ok, err, ltb, Bool-cases, inl,
  inr, find, update_where, arith,
}
use payment_processing.Domain.{
  Outcome, Uuid, Time, Account, RefreshSession, RefreshClaims, TokenPair,
}
use payment_processing.Storage.Tables.{AccountRow, TokenRow, Db}
use payment_processing.Storage.Session.{World, lift, statement, commit}
use payment_processing.Storage.Session.Frames.{bind-ok, statement-ok, commit-ok}
use payment_processing.Storage.Accounts.{get_by_id, account_or_missing}
use payment_processing.Storage.Tokens.{
  session_of, session_or_missing, token_row, save_refresh_token_row, insert_token,
  get_refresh_token, revoke_refresh_token, revoke_where, revoke_token_family,
}
use payment_processing.Usecase.Auth.Spent.{has_jti}
use payment_processing.Usecase.Auth.Revoked.{IsTokenManager}
use payment_processing.Usecase.Auth.{
  Services, use_session, expire_session, unless_not_found, rotate, after_revocation, issue_pair,
  revoke_family_after_reuse, attempting, is_refresh_token_not_found,
}

abbrev pub with_revoked : Bytes → List TokenRow → List TokenRow
with_revoked jti =
    update_where (λ r. eq_bytes r.jti jti && not r.revoked) (λ r. record r { revoked = true })

-- The old session revoked, and a new one of the same user in the same family.
abbrev pub after_rotation : Bytes → Bytes → Uuid → Uuid → Time → Db → Db
after_rotation old new user_id family_id expires_at db = record db {
  refresh_token =
      with_revoked old db.refresh_token ++ (token_row new user_id family_id expires_at ∷ []);
}

account_found :
    (db : Db) (id : Uuid) (o : Option AccountRow) {a : Account} {db' : Db}
    → ((r : AccountRow) → o ≡ some r → r.id ≡ id)
    → account_or_missing db o ≡ ok (a, db')
    → (db' ≡ db) × (a.id ≡ id)
account_found db id none k h = cc
account_found db id (some r) k h = ground (arith, k r refl)

session_found :
    (db : Db) (o : Option TokenRow) {a : RefreshSession} {db' : Db}
    → session_or_missing db o ≡ ok (a, db')
    → (db' ≡ db) × ((r : TokenRow) × (o ≡ some r) × (a ≡ session_of r))
session_found db none h = cc
session_found db (some r) h = (cc, (r, refl, cc))

module _ {S : Type 0} where
  revoke-ok :
      (jti : Bytes) (w : World S) {w' : World S}
      → revoke_refresh_token jti w ≡ (ok tt, w')
      → w'.tx_db ≡ record w.tx_db { refresh_token = with_revoked jti w.tx_db.refresh_token }
  unfolding revoke_refresh_token revoke_where statement
  revoke-ok jti w h = ground arith

  pub save-ok :
      (jti : Bytes) (user_id family_id : Uuid) (expires_at : Time) (w : World S) {w' : World S}
      → save_refresh_token_row jti user_id family_id expires_at w ≡ (ok tt, w')
      → w'.tx_db ≡ record w.tx_db {
        refresh_token = w.tx_db.refresh_token ++ (token_row jti user_id family_id expires_at ∷ []);
      }
  unfolding save_refresh_token_row insert_token statement
  save-ok jti user_id family_id expires_at w h = ground arith

  get_by_id-ok :
      (id : Uuid) (w : World S) {a : Account} {w' : World S}
      → get_by_id id w ≡ (ok a, w')
      → (w'.tx_db ≡ w.tx_db) × (a.id ≡ id)
  unfolding get_by_id
  get_by_id-ok id w h =
      account_found w.tx_db id (find (λ r. r.id == id) w.tx_db.accounts)
        (λ r e. ground (arith, find-exists (λ (r : AccountRow). r.id == id) w.tx_db.accounts r e))
        (statement-ok _ w h)

  pub get_refresh_token-ok :
      (jti : Bytes) (w : World S) {a : RefreshSession} {w' : World S}
      → get_refresh_token jti w ≡ (ok a, w')
      → (w'.tx_db ≡ w.tx_db)
        × ((r : TokenRow) × (find (has_jti jti) w.tx_db.refresh_token ≡ some r)
            × (a ≡ session_of r))
  unfolding get_refresh_token
  get_refresh_token-ok jti w h =
      session_found w.tx_db (find (has_jti jti) w.tx_db.refresh_token) (statement-ok _ w h)

  -- The answer to a reuse is an error always.
  reuse-fails :
      {A : Type 0} (s : Services S) (f : Uuid) (w : World S) {a : A} {w' : World S}
      → revoke_family_after_reuse s f w ≢ (ok a, w')
  unfolding revoke_family_after_reuse
  reuse-fails s f w h =
      let (_, w1, ran1, h1) = bind-ok (revoke_token_family f) _ w h in
      let (_, w2, ran2, h2) = bind-ok commit _ w1 h1 in cc

  expire-fails :
      (s : Services S) (claims : RefreshClaims) (w : World S) {a : TokenPair} {w' : World S}
      → expire_session s claims w ≢ (ok a, w')
  expire-fails s claims w h =
      let (r, w1, ran1, h1) = bind-ok (attempting (revoke_refresh_token claims.id)) _ w h in
      let (_, w2, ran2, h2) = bind-ok (lift (unless_not_found r)) _ w1 h1 in
      let (_, w3, ran3, h3) = bind-ok commit _ w2 h2 in cc

module _ {S : Type 0} (s : Services S) (law : IsTokenManager s) where
  issue-ok :
      (session : RefreshSession) (w : World S) {pair : TokenPair} {w' : World S}
      → issue_pair s session w ≡ (ok pair, w')
      → (jti : Bytes) × (t : Time) × (w'.db ≡ record w.tx_db {
        refresh_token =
            w.tx_db.refresh_token ++ (token_row jti session.user_id session.family_id t ∷ []);
      })
  issue-ok session w {pair} {w'} h =
      let (account, w1, ran1, h1) = bind-ok (get_by_id session.user_id) _ w h in
      let (made, w2, ran2, h2) =
        bind-ok (s.generate_token_pair (s.uuid_string account.id) account.role) _ w1 h1 in
      let (_, w3, ran3, h3) =
        bind-ok (save_refresh_token_row made.jti account.id session.family_id made.expires_at) _ w2
          h2 in
      let (_, w4, ran4, h4) = bind-ok commit _ w3 h3 in
      let (same1, owner) = get_by_id-ok session.user_id w ran1 in
      let same2 : w2.tx_db ≡ w1.tx_db =
        ap (λ (t : Outcome TokenPair × World S). t.1.tx_db) (sym ran2)
        ∙ (law.same_tables _ _ w1).1 in
      let saved = save-ok made.jti account.id session.family_id made.expires_at w2 ran3 in
      let last : w'.db ≡ w3.tx_db =
        ap (λ (t : Outcome TokenPair × World S). t.1.db) (sym h4) ∙ commit-ok w3 ran4 in
      (made.jti, made.expires_at, rw (last, saved, same2, same1, owner) refl)

  after_revocation-ok :
      (claims : RefreshClaims) (session : RefreshSession) (r : Outcome (Unit {0})) (w w1 : World S)
      {pair : TokenPair} {w' : World S}
      → revoke_refresh_token claims.id w ≡ (r, w1)
      → after_revocation s session r w1 ≡ (ok pair, w')
      → (jti : Bytes) × (t : Time) × (w'.db
          ≡ after_rotation claims.id jti session.user_id session.family_id t w.tx_db)
  after_revocation-ok claims session (ok _) w w1 ran h =
      let (jti, t, left) = issue-ok session w1 h in
      (jti, t, rw (left, revoke-ok claims.id w ran) refl)
  after_revocation-ok claims session (err e) w w1 ran h =
      elim (Bool-cases (is_refresh_token_not_found e)) [
        | inl missing ↦ absurd (reuse-fails s session.family_id w1 (rw missing at h))
        | inr other ↦ cc (rw other at h)
      ]

  rotate-ok :
      (claims : RefreshClaims) (session : RefreshSession) (w : World S) {pair : TokenPair}
      {w' : World S}
      → rotate s claims session w ≡ (ok pair, w')
      → (jti : Bytes) × (t : Time) × (w'.db
          ≡ after_rotation claims.id jti session.user_id session.family_id t w.tx_db)
  unfolding attempting
  rotate-ok claims session w h =
      let (r, w1) = revoke_refresh_token claims.id w in
      after_revocation-ok claims session r w w1 refl h

  pub use-ok :
      (claims : RefreshClaims) (session : RefreshSession) (w : World S) {pair : TokenPair}
      {w' : World S}
      → use_session s claims session w ≡ (ok pair, w')
      → (session.revoked ≡ false)
        × (w.clock < session.expires_at)
        × ((jti : Bytes) × (t : Time) × (w'.db
              ≡ after_rotation claims.id jti session.user_id session.family_id t w.tx_db))
  use-ok claims session w h = elim (Bool-cases session.revoked) [
    | inl spent ↦ absurd (reuse-fails s session.family_id w (rw spent at h))
    | inr live ↦ elim (Bool-cases (ltb w.clock session.expires_at)) [
      | inl in_time ↦ (live, ground arith, rotate-ok claims session w (rw (live, in_time) at h))
      | inr late ↦ absurd (expire-fails s claims w (rw (live, late) at h))
    ]
  ]
