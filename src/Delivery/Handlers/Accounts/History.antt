-- ===== src/Delivery/Handlers/Accounts/History.antt =====
-- account.go, `AccountTransactions`: the transactions of an account are shown to its owner only.
use payment_processing.Prelude.{ℕ, ◌≡◌, ◌⊎◌, some, [], ◌∷◌, codes, ok, map, count_where}
use payment_processing.Prelude.Int.{pos, pos_part}
use payment_processing.Domain.{Uuid}
use payment_processing.Storage.Session.{World}
use payment_processing.Storage.Transfers.{transaction_of}
use payment_processing.Storage.Filter.{is_party}
use payment_processing.Usecase.Accounts.History.{page_of}
use payment_processing.Delivery.Responses.{Writer, history_body}
use payment_processing.Delivery.Requests.{Request, Identity, atoi}
use payment_processing.Delivery.Handlers.{App, uuid_of}
use payment_processing.Delivery.Handlers.Accounts.{or_else}
use payment_processing.Delivery.Handlers.Accounts.Owner.{Hidden}

-- The limit of a query, or ten; and its offset, or none.
abbrev pub limit_of : Request → ℕ
limit_of r = pos_part (or_else (pos 10) (atoi (r.query (codes "limit"))))

abbrev pub offset_of : Request → ℕ
offset_of r = pos_part (or_else (pos 0) (atoi (r.query (codes "offset"))))

module _ {S : Type 0} (app : App S) where
  -- The transactions of the account that the path names, shown to its owner.
  pub record HistoryShown (r : Request) (w : World S) (ran : Writer × World S) : Type 0 where
    pub id : Uuid
    pub identity : Identity
    pub named : uuid_of app.codecs r.path_id ≡ ok id
    pub known : r.identity ≡ some identity
    pub own : identity.user_id ≡ app.library.uuid_string id
    pub status : ran.0.status ≡ some 200
    pub body :
        ran.0.body
        ≡ history_body
            (count_where (λ x. is_party x id) w.db.transactions)
            (map transaction_of (page_of id (limit_of r) (offset_of r) w.db.transactions))
          ∷ []
    pub same : ran.1.db ≡ w.db

  abbrev pub HistoryAnswered : Request → World S → Writer × World S → Type 0
  HistoryAnswered r w ran = HistoryShown r w ran ⊎ Hidden app ran.0
