-- ===== src/Usecase/Accounts/Reading.antt =====
-- accounts.go, `GetAccount`: what it has read where it succeeds.
use payment_processing.Prelude.{◌≡◌, refl, sym, ap, subst, ◌∙◌, Option, none, some, ok, find, ◌==◌}
use payment_processing.Domain.{Outcome, Uuid, Account}
use payment_processing.Storage.Tables.{AccountRow, Db}
use payment_processing.Storage.Session.{World, new_tx, commit}
use payment_processing.Storage.Session.Frames.{
  bind-ok, statement-ok, deferring-ok, new_tx-ok, commit-ok,
}
use payment_processing.Storage.Accounts.{get_by_id, account_of, account_or_missing}
use payment_processing.Usecase.Transfers.{Platform, ask_rate_limit}
use payment_processing.Usecase.Accounts.{get_account}

account_found :
    (db : Db) (o : Option AccountRow) {a : Account} {db' : Db}
    → account_or_missing db o ≡ ok (a, db')
    → (db' ≡ db) × ((r : AccountRow) × (o ≡ some r) × (a ≡ account_of r))
account_found db none h = cc
account_found db (some r) h = (cc, (r, refl, cc))

module _ {S : Type 0} (p : Platform S) where
  read-ok :
      (id : Uuid) (w : World S) {a : Account} {w' : World S}
      → get_by_id id w ≡ (ok a, w')
      → (w'.tx_db ≡ w.tx_db)
        × ((r : AccountRow) × (find (λ x. x.id == id) w.tx_db.accounts ≡ some r)
            × (a ≡ account_of r))
  unfolding get_by_id
  read-ok id w h =
      account_found w.tx_db (find (λ x. x.id == id) w.tx_db.accounts) (statement-ok _ w h)

  returned :
      {a b : Account} {w w' : World S}
      → ◌≡◌ {A = Outcome Account × World S} (ok a, w) (ok b, w')
      → (b ≡ a) × (w' ≡ w)
  returned h = (cc, cc)

  -- GetAccount shows the account as it is stored, and changes no table.
  pub get_account-stored :
      (id : Uuid) (w : World S) {a : Account} {w' : World S}
      → get_account p id w ≡ (ok a, w')
      → ((r : AccountRow) × (find (λ x. x.id == id) w.db.accounts ≡ some r) × (a ≡ account_of r))
        × (w'.db ≡ w.db)
  unfolding get_account ask_rate_limit
  get_account-stored id w h =
      let (_, w1, ran1, h1) = bind-ok (ask_rate_limit p (p.uuid_string id)) _ w h in
      let (_, w2, ran2, h2) = bind-ok new_tx _ w1 h1 in
      let (u, body, left) = deferring-ok _ w2 h2 in
      let (found, w3, ran3, h3) = bind-ok (get_by_id id) _ w2 body in
      let (_, w4, ran4, h4) = bind-ok commit _ w3 h3 in
      let (is_found, same4) = returned {w = w4} h4 in
      let (same3, (r, hit, shown)) = read-ok id w2 ran3 in
      let db1 : w1.db ≡ w.db = ap (λ (t : Outcome (Unit {0}) × World S). t.1.db) (sym ran1) in
      let tables : w2.tx_db ≡ w.db = (new_tx-ok w1 ran2).0 ∙ db1 in
      (
        (
          r,
          subst (λ (d : Db). find (λ x. x.id == id) d.accounts ≡ some r) tables hit,
          is_found ∙ shown,
        ),
        left ∙ ap (λ (v : World S). v.db) same4 ∙ commit-ok w3 ran4 ∙ same3 ∙ tables,
      )
