-- ===== src/Usecase/Accounts/History.antt =====
-- accounts.go, `TransactionHistory`: what it has read where it succeeds.
use payment_processing.Prelude.{
  ℕ, ◌≡◌, refl, sym, ap, subst, ◌∙◌, Bool, ◌||◌, some, List, [], ◌∷◌, ok, map, select, drop,
  count_where, ◌==◌, inl, inr, arith,
}
use payment_processing.Domain.{Outcome, Uuid, Transaction, nil_uuid}
use payment_processing.Storage.Tables.{TransactionRow, Db}
use payment_processing.Storage.Session.{World, new_tx, commit}
use payment_processing.Storage.Session.Frames.{
  bind-ok, statement-ok, deferring-ok, new_tx-ok, commit-ok,
}
use payment_processing.Storage.Transfers.{transaction_of, total_transactions}
use payment_processing.Storage.Filter.{
  get_transactions, sqlrequest, sorted, is_party, Query, answer, run_query,
}
use payment_processing.Storage.Filter.Selection.{matches, at_most_rows}
use payment_processing.Storage.Filter.Listing.{listing, Answers, sqlrequest-selects}
use payment_processing.Usecase.Transfers.{Platform, ask_rate_limit}
use payment_processing.Usecase.Accounts.{transaction_history, history_filter}

-- The transactions of an account, a page of them, the newest first. To the filter, the nil UUID is
-- no account, so that it stands for all of them.
abbrev pub page_of : Uuid → ℕ → ℕ → List TransactionRow → List TransactionRow
page_of id limit offset rows =
    at_most_rows limit (drop offset (sorted (select (λ r. (id == nil_uuid) || is_party r id) rows)))

select-same :
    {A : Type 0} (p q : A → Bool) (xs : List A) → ((x : A) → p x ≡ q x) → select p xs ≡ select q xs
select-same p q [] h = refl
select-same p q (x ∷ xs) h = rw (h x, select-same p q xs h) refl

listing-page :
    (id : Uuid) (limit offset : ℕ) (rows : List TransactionRow)
    → listing (history_filter id limit offset) rows ≡ page_of id limit offset rows
listing-page id limit offset rows =
    ap (λ found. at_most_rows limit (drop offset (sorted found)))
      (select-same (matches (history_filter id limit offset))
        (λ r. (id == nil_uuid) || is_party r id) rows (λ r. ground arith))

-- The filter has no amounts, so that its query is built always.
history-query :
    (id : Uuid) (limit offset : ℕ)
    → (q : Query) × (sqlrequest (history_filter id limit offset) ≡ some q)
      × Answers (history_filter id limit offset) q
history-query id limit offset = elim (sqlrequest-selects (history_filter id limit offset)) [
  | inl (_, q, built, answers) ↦ (q, built, answers)
  | inr (unreadable, _) ↦ absurd (ground (arith, unreadable))
]

module _ {S : Type 0} where
  total-ok :
      (id : Uuid) (w : World S) {n : ℕ} {w' : World S}
      → total_transactions id w ≡ (ok n, w')
      → (w'.tx_db ≡ w.tx_db) × (n ≡ count_where (λ r. is_party r id) w.tx_db.transactions)
  unfolding total_transactions
  total-ok id w h = let read = statement-ok _ w h in (cc, cc)

  page-ok :
      (no_query : Outcome (List Transaction)) (id : Uuid) (limit offset : ℕ) (w : World S)
      {txs : List Transaction} {w' : World S}
      → get_transactions no_query (history_filter id limit offset) w ≡ (ok txs, w')
      → (w'.tx_db ≡ w.tx_db)
        × (txs ≡ map transaction_of (page_of id limit offset w.tx_db.transactions))
  unfolding get_transactions
  page-ok no_query id limit offset w {txs} {w'} h =
      let (q, built, answers) = history-query id limit offset in
      let read = statement-ok _ w h in
      let found : answer no_query w.tx_db (some q) ≡ ok (txs, w'.tx_db) =
        subst (λ o. answer no_query w.tx_db o ≡ ok (txs, w'.tx_db)) built read in
      let is_page = (answers w.tx_db.transactions).0 ∙ listing-page id limit offset _ in
      let same : (map transaction_of (run_query q w.tx_db.transactions), w.tx_db)
          ≡ (txs, w'.tx_db) =
        cc in
      (
        sym (ap (λ (t : List Transaction × Db). t.1) same),
        sym (ap (λ (t : List Transaction × Db). t.0) same) ∙ ap (map transaction_of) is_page,
      )

module _ {S : Type 0} (p : Platform S) where
  returned :
      {a b : ℕ × List Transaction} {w w' : World S}
      → ◌≡◌ {A = Outcome (ℕ × List Transaction) × World S} (ok a, w) (ok b, w')
      → (b ≡ a) × (w' ≡ w)
  returned h = (cc, cc)

  -- TransactionHistory answers with the number of the account's transactions and a page of them,
  -- and changes no table.
  pub transaction_history-stored :
      (no_query : Outcome (List Transaction)) (id : Uuid) (limit offset : ℕ) (w : World S)
      {total : ℕ} {txs : List Transaction} {w' : World S}
      → transaction_history p no_query id limit offset w ≡ (ok (total, txs), w')
      → (total ≡ count_where (λ r. is_party r id) w.db.transactions)
        × (txs ≡ map transaction_of (page_of id limit offset w.db.transactions))
        × (w'.db ≡ w.db)
  unfolding transaction_history ask_rate_limit
  transaction_history-stored no_query id limit offset w {total} {txs} h =
      let (_, w1, ran1, h1) = bind-ok (ask_rate_limit p (p.uuid_string id)) _ w h in
      let (_, w2, ran2, h2) = bind-ok new_tx _ w1 h1 in
      let (u, body, left) = deferring-ok _ w2 h2 in
      let (counted, w3, ran3, h3) = bind-ok (total_transactions id) _ w2 body in
      let (page, w4, ran4, h4) =
        bind-ok (get_transactions no_query (history_filter id limit offset)) _ w3 h3 in
      let (_, w5, ran5, h5) = bind-ok commit _ w4 h4 in
      let (is_pair, same5) = returned {w = w5} h5 in
      let (same3, is_count) = total-ok id w2 ran3 in
      let (same4, is_page) = page-ok no_query id limit offset w3 ran4 in
      let db1 : w1.db ≡ w.db = ap (λ (t : Outcome (Unit {0}) × World S). t.1.db) (sym ran1) in
      let tables : w2.tx_db ≡ w.db = (new_tx-ok w1 ran2).0 ∙ db1 in
      let read : w3.tx_db ≡ w.db = same3 ∙ tables in
      (
        ap (λ (t : ℕ × List Transaction). t.0) is_pair
            ∙ is_count
            ∙ ap (λ (d : Db). count_where (λ r. is_party r id) d.transactions) tables,
        ap (λ (t : ℕ × List Transaction). t.1) is_pair
            ∙ is_page
            ∙ ap (λ (d : Db). map transaction_of (page_of id limit offset d.transactions)) read,
        left ∙ ap (λ (v : World S). v.db) same5 ∙ commit-ok w4 ran5 ∙ same4 ∙ read,
      )
