-- ===== src/Usecase/Auth/Registration.antt =====
-- What `Register` has checked and stored where it succeeds.
use payment_processing.Prelude.{
  trim_space, pair_of, ◌≡◌, refl, sym, ◌∙◌, ap, false, ◌||◌, [], ◌∷◌, ◌++◌, Bytes, eq_bytes, codes,
  ok, exists_row, ◌==◌, arith,
}
use payment_processing.Decimal.{zero_decimal}
use payment_processing.Domain.{Outcome, Uuid, Account}
use payment_processing.Storage.Tables.{Db, lower}
use payment_processing.Storage.Session.{World, lift, statement, new_uuid, new_tx, commit}
use payment_processing.Storage.Session.Frames.{bind-ok, deferring-ok, new_tx-ok, commit-ok}
use payment_processing.Storage.Accounts.{create, insert_account, check_balances, account_row}
use payment_processing.Usecase.Auth.Credentials.{validate_registration, normalize_email}
use payment_processing.Usecase.Auth.Credentials.Accepted.{
  IsAcceptable, validate_registration-IsAcceptable,
}
use payment_processing.Usecase.Auth.{
  Services, register, store_account, new_account, check_rate_limit, role_user,
}

-- A new account, at the end of the table.
pub record Registered {S : Type 0} (s : Services S) (email password name : Bytes) (acc : Account)
    (db db' : Db) : Type 0 where
  pub acceptable : IsAcceptable acc.email password acc.name
  pub hashed : s.generate_hash password ≡ ok acc.password_hash
  pub same_email : acc.email ≡ normalize_email email
  pub same_name : acc.name ≡ trim_space name
  pub no_money : acc.balance ≡ zero_decimal
  pub plain_role : acc.role ≡ role_user
  pub unique :
      exists_row (λ r. (r.id == acc.id) || eq_bytes (lower r.email) (lower acc.email)) db.accounts
      ≡ false
  pub left : db' ≡ record db { accounts = db.accounts ++ (account_row acc ∷ []) }

create-ok :
    {S : Type 0} (acc : Account) (w : World S) {w' : World S}
    → create acc w ≡ (ok tt, w')
    → (exists_row
          (λ r. (r.id == acc.id) || eq_bytes (lower r.email) (lower acc.email))
          w.tx_db.accounts
        ≡ false)
      × (w'.tx_db ≡ record w.tx_db { accounts = w.tx_db.accounts ++ (account_row acc ∷ []) })
unfolding create statement insert_account check_balances
create-ok acc w h = ground arith

module _ {S : Type 0} (s : Services S) where
  pub returned-ok :
      {A : Type 0} (a : A) (w : World S) {b : A} {w' : World S}
      → ◌≡◌ {A = Outcome A × World S} (ok a, w) (ok b, w')
      → (b ≡ a) × (w' ≡ w)
  returned-ok a w h = (cc, cc)

  lifted-ok :
      {A : Type 0} (r : Outcome A) (w : World S) {a : A} {w' : World S}
      → ◌≡◌ {A = Outcome A × World S} (r, w) (ok a, w')
      → (r ≡ ok a) × (w' ≡ w)
  lifted-ok r w h = (cc, cc)

  new_uuid-same :
      (w : World S) {r : Outcome Uuid} {w' : World S} → new_uuid w ≡ (r, w') → w'.tx_db ≡ w.tx_db
  unfolding new_uuid
  new_uuid-same w h = ap (λ (t : Outcome Uuid × World S). t.1.tx_db) (sym h)

  pub asked-db :
      (operation ip : Bytes) (w : World S) {r : Outcome (Unit {0})} {w' : World S}
      → check_rate_limit s operation ip w ≡ (r, w')
      → w'.db ≡ w.db
  unfolding check_rate_limit
  asked-db operation ip w h = ap (λ (t : Outcome (Unit {0}) × World S). t.1.db) (sym h)

  store-ok :
      (email name hash : Bytes) (w : World S) {acc : Account} {w' : World S}
      → store_account s email name hash w ≡ (ok acc, w')
      → (id : Uuid) × (acc ≡ new_account s email name hash id)
        × (exists_row (λ r. (r.id == id) || eq_bytes (lower r.email) (lower email)) w.tx_db.accounts
            ≡ false)
        × (w'.db ≡ record w.tx_db {
          accounts = w.tx_db.accounts ++ (account_row (new_account s email name hash id) ∷ []);
        })
  store-ok email name hash w {acc} {w'} h =
      let (id, w1, ran1, h1) = bind-ok new_uuid _ w h in
      let acc1 = new_account s email name hash id in
      let (_, w2, ran2, h2) = bind-ok (create acc1) _ w1 h1 in
      let (_, w3, ran3, h3) = bind-ok commit _ w2 h2 in
      let (unique, left) = create-ok acc1 w1 ran2 in
      let (is_acc, same3) = returned-ok acc1 w3 h3 in
      let same1 = new_uuid-same w ran1 in
      (
        id,
        is_acc,
        rw same1 at unique,
        ap (λ (v : World S). v.db) same3
            ∙ commit-ok w2 ran3
            ∙ left
            ∙ ap (λ (d : Db). record d { accounts = d.accounts ++ (account_row acc1 ∷ []) }) same1,
      )

  registered :
      (email password name ip : Bytes) (db db2 : Db) (hash : Bytes) (id : Uuid) (acc : Account)
      → validate_registration (normalize_email email) password (trim_space name) ≡ ok tt
      → s.generate_hash password ≡ ok hash
      → acc ≡ new_account s (normalize_email email) (trim_space name) hash id
      → exists_row
          (λ r. (r.id == id) || eq_bytes (lower r.email) (lower (normalize_email email)))
          db.accounts
        ≡ false
      → db2 ≡ record db {
        accounts =
            db.accounts
            ++ (account_row (new_account s (normalize_email email) (trim_space name) hash id) ∷ []);
      }
      → Registered s email password name acc db db2
  registered email password name ip db db2 hash id acc checked hashed is_acc unique left =
      rw is_acc (record {
        acceptable = validate_registration-IsAcceptable _ _ _ checked;
        hashed = hashed;
        same_email = refl;
        same_name = refl;
        no_money = refl;
        plain_role = refl;
        unique = unique;
        left = left;
      })

  -- An account that is registered has an email of the form of emailPattern, of at most 254
  -- bytes, normalized and in no other account, a password of 8 to 72 bytes, of which the hash
  -- is stored, a name of 3 to 100 characters, trimmed, no money and the role of a user; it is
  -- added to the accounts, and nothing else changes.
  pub register-Registered :
      (email password name ip : Bytes) (w : World S) (acc : Account)
      → (register s email password name ip w).0 ≡ ok acc
      → Registered s email password name acc w.db (register s email password name ip w).1.db
  unfolding register
  register-Registered email password name ip w acc h =
      let ran : register s email password name ip w
          ≡ (ok acc, (register s email password name ip w).1) =
        pair_of _ h in
      let checks = validate_registration (normalize_email email) password (trim_space name) in
      let (_, w1, ran1, h1) = bind-ok (lift checks) _ w ran in
      let (_, w2, ran2, h2) = bind-ok (check_rate_limit s (codes "register") ip) _ w1 h1 in
      let (hash, w3, ran3, h3) = bind-ok (lift (s.generate_hash password)) _ w2 h2 in
      let (_, w4, ran4, h4) = bind-ok new_tx _ w3 h3 in
      let (u, body, last) =
        deferring-ok (store_account s (normalize_email email) (trim_space name) hash) w4 h4 in
      let (id, is_acc, unique, left) =
        store-ok (normalize_email email) (trim_space name) hash w4 body in
      let (checked, same1) = lifted-ok checks w ran1 in
      let (hashed, same3) = lifted-ok (s.generate_hash password) w2 ran3 in
      let tables : w4.tx_db ≡ w.db =
        (new_tx-ok w3 ran4).0
        ∙ ap (λ (v : World S). v.db) same3
        ∙ asked-db (codes "register") ip w1 ran2
        ∙ ap (λ (v : World S). v.db) same1 in
      registered email password name ip w.db _ hash id acc checked hashed is_acc
        (rw tables at unique) (last ∙ rw tables at left)
