-- ===== src/Delivery/Handlers/Accounts/Owner.antt =====
-- account.go: accounts are shown to their owners only.
use payment_processing.Prelude.{
  ℕ, ◌≡◌, ◌⊎◌, refl, ap, Bool, true, false, some, inl, inr, [], ◌∷◌, eq_bytes_iff, ok, find, ◌==◌,
}
use payment_processing.Domain.{Error, Uuid, Account}
use payment_processing.Storage.Tables.{AccountRow}
use payment_processing.Storage.Session.{World}
use payment_processing.Storage.Accounts.{account_of}
use payment_processing.Usecase.Accounts.{get_account}
use payment_processing.Usecase.Accounts.Reading.{get_account-stored}
use payment_processing.Delivery.Responses.{Writer, account_body, write_json}
use payment_processing.Delivery.Requests.{Request, Identity}
use payment_processing.Delivery.Handlers.{App, answer_error, uuid_of}
use payment_processing.Delivery.Handlers.Rules.{checking-rule, calling-rule, identity_known}
use payment_processing.Delivery.Handlers.Accounts.{own_account, handle_get_account}

pub own_account-ok : (b : Bool) → own_account b ≡ ok tt → b ≡ true
own_account-ok true h = refl
own_account-ok false h = cc

module _ {S : Type 0} (app : App S) where
  -- The account that the path names, shown to its owner.
  pub record Shown (r : Request) (w : World S) (ran : Writer × World S) : Type 0 where
    pub id : Uuid
    pub identity : Identity
    pub row : AccountRow
    pub named : uuid_of app.codecs r.path_id ≡ ok id
    pub known : r.identity ≡ some identity
    pub own : identity.user_id ≡ app.library.uuid_string id
    pub found : find (λ x. x.id == id) w.db.accounts ≡ some row
    pub status : ran.0.status ≡ some 200
    pub body : ran.0.body ≡ account_body (account_of row) ∷ []
    pub same : ran.1.db ≡ w.db

  abbrev pub Hidden : Writer → Type 0
  Hidden answer =
      (code : ℕ) × (flag : Bool) × (e : Error) × (answer ≡ answer_error code flag e)
      × ((code ≡ 400) ⊎ (code ≡ 401) ⊎ (code ≡ 403) ⊎ (code ≡ 500))

  abbrev pub AccountAnswered : Request → World S → Writer × World S → Type 0
  AccountAnswered r w ran = Shown r w ran ⊎ Hidden ran.0

  -- Where accounts have a JSON form, a request for an account is answered with status 200 and
  -- the stored account that its path names, if this is the account of the user of the request;
  -- or with 400, 401, 403 or 500 and no account.
  pub handle_get_account-Answered :
      ((a : Account) → app.codecs.encoded (account_body a) ≡ true)
      → (r : Request) (w : World S) → AccountAnswered r w (handle_get_account app r w)
  unfolding handle_get_account write_json
  handle_get_account-Answered encodes r w =
      checking-rule (AccountAnswered r w) _ _ _ (λ e _. inr (400, false, e, refl, inl refl))
        (λ id named.
          checking-rule (AccountAnswered r w) _ _ _
            (λ e _. inr (401, false, e, refl, inr (inl refl)))
            (λ identity known.
              checking-rule (AccountAnswered r w) _ _ _
                (λ e _. inr (403, false, e, refl, inr (inr (inl refl))))
                (λ _ own.
                  calling-rule (AccountAnswered r w) (get_account app.platform id) _ _
                    (λ e w' ran. inr (500, true, e, refl, inr (inr (inr refl))))
                    (λ a w' ran.
                      let ((row, found, is_row), same) = get_account-stored app.platform id w ran in
                      inl (record {
                        id = id;
                        identity = identity;
                        row = row;
                        named = named;
                        known = identity_known r known;
                        own =
                            (eq_bytes_iff identity.user_id (app.library.uuid_string id)).0
                              (own_account-ok _ own);
                        found = found;
                        status = rw (encodes a) refl;
                        body = rw (encodes a) (ap (λ b. account_body b ∷ []) is_row);
                        same = same;
                      })))))
