-- ===== src/Usecase/Queries.antt =====
-- internal/usecase/transactions.go: `GetTransaction` and `GetTransactionFilter`.
mod Tests
use payment_processing.Prelude.{
  pair_of, subst, ◌≡◌, ◌⊎◌, refl, sym, ◌∙◌, ap, Bool, true, false, ◌||◌, Option, none, some, List,
  ok, err, Bool-cases, inl, inr, find, ◌==◌, arith,
}
use payment_processing.Domain.{Error, Outcome, Uuid, Transaction, TransactionFilter, access_denied}
use payment_processing.Storage.Tables.{TransactionRow, Db}
use payment_processing.Storage.Session.{
  World, M, pure, guard, ◌>>=◌, ◌>>◌, new_tx, commit, deferring_rollback,
}
use payment_processing.Storage.Session.Frames.{
  bind-ok, statement-ok, guard-ok, deferring-ok, new_tx-ok, commit-ok,
}
use payment_processing.Storage.Transfers.{
  get_transaction_by_id, transaction_of, transaction_or_missing,
}
use payment_processing.Storage.Filter.{get_transactions}
use payment_processing.Usecase.Transfers.{Platform, ask_rate_limit}

transaction_found :
    (db : Db) (o : Option TransactionRow) {tx : Transaction} {db' : Db}
    → transaction_or_missing db o ≡ ok (tx, db')
    → (db' ≡ db) × ((r : TransactionRow) × (o ≡ some r) × (tx ≡ transaction_of r))
transaction_found db none h = cc
transaction_found db (some r) h = (cc, (r, refl, cc))

party_of :
    (sender receiver user : Uuid)
    → ((sender == user) || (receiver == user)) ≡ true
    → (sender ≡ user) ⊎ (receiver ≡ user)
party_of sender receiver user h = ground arith

returned :
    {S A : Type 0} {a b : A} {w w' : World S}
    → ◌≡◌ {A = Outcome A × World S} (ok a, w) (ok b, w')
    → b ≡ a
returned h = cc

module _ {S : Type 0} (p : Platform S) where
  unfoldable pub get_transaction : Uuid → Uuid → M S Transaction
  unfolding ask_rate_limit
  get_transaction transaction_id user_id = do
    ask_rate_limit p (p.uuid_string user_id)
    new_tx
    deferring_rollback (do
      transaction ← get_transaction_by_id transaction_id
      guard ((transaction.sender_id == user_id) || (transaction.receiver_id == user_id))
          access_denied
      commit
      pure transaction)

  -- `no_query` is what the database answers to a query of no text.
  unfoldable pub get_transaction_filter :
      Outcome (List Transaction) → TransactionFilter → Uuid → M S (List Transaction)
  unfolding ask_rate_limit
  get_transaction_filter no_query t user_id = do
    ask_rate_limit p (p.uuid_string user_id)
    new_tx
    deferring_rollback (do transactions ← get_transactions no_query t; commit; pure transactions)

  found-ok :
      (id : Uuid) (w : World S) {tx : Transaction} {w' : World S}
      → get_transaction_by_id id w ≡ (ok tx, w')
      → (w'.tx_db ≡ w.tx_db)
        × ((r : TransactionRow) × (find (λ x. x.id == id) w.tx_db.transactions ≡ some r)
            × (tx ≡ transaction_of r))
  unfolding get_transaction_by_id
  found-ok id w h =
      transaction_found w.tx_db (find (λ x. x.id == id) w.tx_db.transactions) (statement-ok _ w h)

  -- A transaction is shown only as it is stored, and only to its sender or its receiver; the
  -- tables stay as they were.
  pub get_transaction-party :
      (transaction_id user_id : Uuid) (w : World S) (tx : Transaction)
      → (get_transaction transaction_id user_id w).0 ≡ ok tx
      → ((r : TransactionRow) × (find (λ x. x.id == transaction_id) w.db.transactions ≡ some r)
          × (tx ≡ transaction_of r))
        × ((tx.sender_id ≡ user_id) ⊎ (tx.receiver_id ≡ user_id))
        × ((get_transaction transaction_id user_id w).1.db ≡ w.db)
  unfolding get_transaction ask_rate_limit
  get_transaction-party transaction_id user_id w tx h =
      let ran : get_transaction transaction_id user_id w
          ≡ (ok tx, (get_transaction transaction_id user_id w).1) =
        pair_of _ h in
      let (_, w1, ran1, h1) = bind-ok (ask_rate_limit p (p.uuid_string user_id)) _ w ran in
      let (_, w2, ran2, h2) = bind-ok new_tx _ w1 h1 in
      let (u, body, left) = deferring-ok _ w2 h2 in
      let (found, w3, ran3, h3) = bind-ok (get_transaction_by_id transaction_id) _ w2 body in
      let (_, w4, ran4, h4) =
        bind-ok
          (guard ((found.sender_id == user_id) || (found.receiver_id == user_id)) access_denied) _
          w3 h3 in
      let (_, w5, ran5, h5) = bind-ok commit _ w4 h4 in
      let (test, same4) =
        guard-ok ((found.sender_id == user_id) || (found.receiver_id == user_id)) access_denied w3
          ran4 in
      let (same3, (r, hit, shown)) = found-ok transaction_id w2 ran3 in
      let db1 : w1.db ≡ w.db = ap (λ (t : Outcome (Unit {0}) × World S). t.1.db) (sym ran1) in
      let tables : w2.tx_db ≡ w.db = (new_tx-ok w1 ran2).0 ∙ db1 in
      let is_tx : tx ≡ found = returned h5 in
      (
        (
          r,
          subst (λ (d : Db). find (λ x. x.id == transaction_id) d.transactions ≡ some r) tables hit,
          is_tx ∙ shown,
        ),
        subst (λ (t : Transaction). (t.sender_id ≡ user_id) ⊎ (t.receiver_id ≡ user_id)) (sym is_tx)
            (party_of found.sender_id found.receiver_id user_id test),
        left
            ∙ ap (λ (t : Outcome Transaction × World S). t.1.db) (sym h5)
            ∙ commit-ok w4 ran5
            ∙ ap (λ (v : World S). v.tx_db) (sym same4)
            ∙ same3
            ∙ tables,
      )
