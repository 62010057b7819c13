-- ===== src/Delivery/Handlers/Transactions/Reading.antt =====
-- transaction_handler.go, `GetTransaction`: to whom a transaction is shown.
use payment_processing.Prelude.{
  ℕ, ◌≡◌, ◌⊎◌, refl, sym, ap, subst, ◌∙◌, Bool, true, false, some, inl, inr, [], ◌∷◌, ok, find,
  ◌==◌,
}
use payment_processing.Domain.{Error, Outcome, Uuid, Transaction, access_denied}
use payment_processing.Storage.Tables.{TransactionRow}
use payment_processing.Storage.Session.{World}
use payment_processing.Storage.Transfers.{transaction_of}
use payment_processing.Usecase.Queries.{get_transaction, get_transaction-party}
use payment_processing.Delivery.Responses.{Writer, transaction_body, write_json}
use payment_processing.Delivery.Requests.{Request, Identity}
use payment_processing.Delivery.Handlers.{App, answer_error, uuid_of}
use payment_processing.Delivery.Handlers.Rules.{checking-rule, calling-rule, identity_known}
use payment_processing.Delivery.Handlers.Transactions.{
  handle_get_transaction, get_transaction_refusal,
}

module _ {S : Type 0} (app : App S) where
  -- The transaction that the path names, shown to a party of it.
  pub record Shown (r : Request) (w : World S) (ran : Writer × World S) : Type 0 where
    pub id : Uuid
    pub identity : Identity
    pub user_id : Uuid
    pub row : TransactionRow
    pub named : uuid_of app.codecs r.path_id ≡ ok id
    pub known : r.identity ≡ some identity
    pub user : uuid_of app.codecs identity.user_id ≡ ok user_id
    pub found : find (λ x. x.id == id) w.db.transactions ≡ some row
    pub party : (row.sender_id ≡ user_id) ⊎ (row.receiver_id ≡ user_id)
    pub status : ran.0.status ≡ some 200
    pub body : ran.0.body ≡ transaction_body (transaction_of row) ∷ []
    pub same : ran.1.db ≡ w.db

  -- An error, which tells nothing of a transaction.
  abbrev pub Hidden : Writer → Type 0
  Hidden answer =
      (code : ℕ) × (flag : Bool) × (e : Error) × (answer ≡ answer_error code flag e)
      × ((code ≡ 400) ⊎ (code ≡ 401) ⊎ (code ≡ 404) ⊎ (code ≡ 500))

  refusal-Hidden : (e : Error) → Hidden (get_transaction_refusal e)
  refusal-Hidden access_denied = (404, false, access_denied, refl, inr (inr (inl refl)))
  refusal-Hidden e = (500, true, e, refl, inr (inr (inr refl)))

  abbrev pub TransactionAnswered : Request → World S → Writer × World S → Type 0
  TransactionAnswered r w ran = Shown r w ran ⊎ Hidden ran.0

  party_of_row :
      {tx : Transaction} {row : TransactionRow} {user : Uuid}
      → tx ≡ transaction_of row
      → (tx.sender_id ≡ user) ⊎ (tx.receiver_id ≡ user)
      → (row.sender_id ≡ user) ⊎ (row.receiver_id ≡ user)
  party_of_row {user = user} h k =
      subst (λ (t : Transaction). (t.sender_id ≡ user) ⊎ (t.receiver_id ≡ user)) h k

  -- Where transactions have a JSON form, a request for a transaction is answered with status
  -- 200 and the stored transaction that its path names, if the user of the request is a party
  -- of it; or with 400, 401, 404 or 500 and no transaction.
  pub handle_get_transaction-Answered :
      ((tx : Transaction) → app.codecs.encoded (transaction_body tx) ≡ true)
      → (r : Request) (w : World S) → TransactionAnswered r w (handle_get_transaction app r w)
  unfolding handle_get_transaction write_json
  handle_get_transaction-Answered encodes r w =
      checking-rule (TransactionAnswered r w) _ _ _ (λ e _. inr (400, true, e, refl, inl refl))
        (λ id named.
          checking-rule (TransactionAnswered r w) _ _ _
            (λ e _. inr (401, false, e, refl, inr (inl refl)))
            (λ identity known.
              checking-rule (TransactionAnswered r w) _ _ _
                (λ e _. inr (400, false, e, refl, inl refl))
                (λ user_id user.
                  calling-rule (TransactionAnswered r w) (get_transaction app.platform id user_id) _
                    _ (λ e w' ran. inr (refusal-Hidden e))
                    (λ tx w' ran.
                      let ((row, found, is_row), party, same) =
                        get_transaction-party app.platform id user_id w tx
                          (ap (λ (t : Outcome Transaction × World S). t.0) ran) in
                      inl (record {
                        id = id;
                        identity = identity;
                        user_id = user_id;
                        row = row;
                        named = named;
                        known = identity_known r known;
                        user = user;
                        found = found;
                        party = party_of_row is_row party;
                        status = rw (encodes tx) refl;
                        body = rw (encodes tx) (ap (λ t. transaction_body t ∷ []) is_row);
                        same = ap (λ (t : Outcome Transaction × World S). t.1.db) (sym ran) ∙ same;
                      })))))
