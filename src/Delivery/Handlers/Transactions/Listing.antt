-- ===== src/Delivery/Handlers/Transactions/Listing.antt =====
-- transaction_handler.go, `TransactionFilter`: a listing needs a page.
use payment_processing.Prelude.{◌≡◌, ◌⊎◌, refl, some, inl, inr}
use payment_processing.Storage.Session.{World}
use payment_processing.Delivery.Responses.{Writer, write_error}
use payment_processing.Delivery.Requests.{Request, new_transaction_filter}
use payment_processing.Delivery.Requests.Filters.{HasNoPage, filter_needs_page}
use payment_processing.Delivery.Handlers.{App}
use payment_processing.Delivery.Handlers.Rules.{checking-rule}
use payment_processing.Delivery.Handlers.Transactions.{handle_transaction_filter}

module _ {S : Type 0} (app : App S) where
  -- A listing without a limit or without an offset in its query is answered with status 400, or
  -- 401, and no service is called.
  pub listing_needs_page :
      (r : Request) (w : World S)
      → HasNoPage r.query
      → let ran = handle_transaction_filter app r w in
        ((ran.0.status ≡ some 400) ⊎ (ran.0.status ≡ some 401)) × (ran.1 ≡ w)
  unfolding handle_transaction_filter write_error
  listing_needs_page r w no_page =
      let P : Writer × World S → Type 0 =
        λ ran. ((ran.0.status ≡ some 400) ⊎ (ran.0.status ≡ some 401)) × (ran.1 ≡ w) in
      checking-rule P _ _ _ (λ e _. (inr refl, refl))
        (λ identity _.
          checking-rule P _ _ _ (λ e _. (inl refl, refl))
            (λ user_id _.
              checking-rule P (new_transaction_filter app.codecs r.query) _ _
                (λ e _. (inl refl, refl))
                (λ filter made. absurd (filter_needs_page app.codecs r.query filter no_page made))))
